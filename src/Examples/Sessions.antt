-- ===== src/Examples/Sessions.antt =====
-- The session, the sign-up page and the texts of auth/frontend/src on concrete data.
use vectron.Prelude.{
  ℕ, zero, String, ◌≡◌, ◌≢◌, refl, ◌↔◌, true, false, none, some, [], ◌∷◌, map, arith, eq_iff, pos,
  ◌==◌, Option, if◌then◌else◌, str_eq,
}
use vectron.Console.Profile.{RawProfile, text, unknown}
use vectron.Console.Session.{
  Session, Failure, Credentials, plan_change, answered, logs_out, logs_in, replies, run, mounted,
  protected_route, spinner, content,
}
use vectron.Console.Session.Storage.{IsStored, run-IsStored, logout_undone}
use vectron.Console.Session.Spinner.{has_profile, run-spinner}
use vectron.Console.Session.Stages.{
  InOrder, Represents, first_stage, advance_all, page_of, logging_in, entered, leaving, advance,
  run_refines_stages,
}
use vectron.Console.Password.{validate_password}
use vectron.Console.Password.Strength.{IsStrong, validate_password-IsStrong}
use vectron.Console.Text.{is_white}
use vectron.Console.Vectors.{parse_vector_string}
use vectron.Console.Vectors.Parsing.{IsPlain, joined, parse_vector_string-joined}
use vectron.Console.Format.{a_number, format_uptime}

abbrev type_error : Failure
type_error = record { response_message = ""; message = "undefined" }

abbrev ann : RawProfile
ann = record {
  id = "1";
  email = "ann@example.com";
  created_at = pos 1700000000;
  plan = text "PAID";
  subscription_status = unknown;
}

abbrev ann_enters : Credentials
ann_enters = record { email = "ann@example.com"; password = "Secret-1" }

token_filled : ◌≢◌ {A = String} "t1" ""
token_filled = ground (arith, eq_iff "t1" "")

in_order :
    InOrder
      (logs_in ann_enters ∷ replies zero (answered (some ann) "t1") ∷ logs_out ∷ [])
      (first_stage none)
unfolding advance
in_order = (
  logging_in ann_enters,
  (entered (answered (some ann) "t1") false ann_enters token_filled, (leaving _ "t1", tt)),
)

none_named : ◌≢◌ {A = Option String} none (some "")
none_named e = absurd (cc e)

run_refines_stages_example :
    Represents
      (run type_error
        (logs_in ann_enters ∷ replies zero (answered (some ann) "t1") ∷ logs_out ∷ [])
        (mounted none))
      (advance_all
        (logs_in ann_enters ∷ replies zero (answered (some ann) "t1") ∷ logs_out ∷ [])
        (first_stage none))
    × (protected_route (
          run type_error
            (logs_in ann_enters ∷ replies zero (answered (some ann) "t1") ∷ logs_out ∷ [])
            (mounted none))
        ≡ page_of (
            advance_all
              (logs_in ann_enters ∷ replies zero (answered (some ann) "t1") ∷ logs_out ∷ [])
              (first_stage none)))
run_refines_stages_example =
    run_refines_stages type_error none
      (logs_in ann_enters ∷ replies zero (answered (some ann) "t1") ∷ logs_out ∷ []) none_named
      in_order

run-IsStored_example : IsStored (
    run type_error
      (logs_in ann_enters ∷ replies zero (answered (some ann) "t1") ∷ [])
      (mounted none))
run-IsStored_example =
    run-IsStored type_error none (logs_in ann_enters ∷ replies zero (answered (some ann) "t1") ∷ [])
      (tt, (tt, tt))

reloaded_spins : protected_route (run type_error [] (mounted (some "t1"))) ≡ spinner
unfolding run mounted protected_route
reloaded_spins = refl

run-spinner_example : has_profile (run type_error [] (mounted (some "t1"))).in_flight ≡ true
run-spinner_example = run-spinner type_error (some "t1") [] reloaded_spins

abbrev changing_plan : Session
changing_plan = record {
  user = none;
  token = some "t1";
  is_loading = false;
  error = none;
  stored = some "t1";
  in_flight = record { call = plan_change (pos 2); authorization = some "Bearer t1" } ∷ [];
}

logout_undone_example :
    ((run type_error (logs_out ∷ replies zero (answered (some ann) "t2") ∷ []) changing_plan).stored
      ≡ some "t2")
    × (protected_route
          (run type_error (logs_out ∷ replies zero (answered (some ann) "t2") ∷ []) changing_plan)
        ≡ content)
logout_undone_example =
    logout_undone type_error zero
      (record { call = plan_change (pos 2); authorization = some "Bearer t1" }) (pos 2) ann "t2"
      changing_plan refl refl refl

validate_password-IsStrong_example : (validate_password "Secret-1" ≡ none) ↔ IsStrong "Secret-1"
validate_password-IsStrong_example = validate_password-IsStrong "Secret-1"

-- Two numbers and their texts.
abbrev parse_small : String → Option ℕ
parse_small s = if str_eq s "1.5" then some 3 else if str_eq s "2" then some 4 else none

abbrev print_small : ℕ → String
print_small n = if n == 3 then "1.5" else "2"

three_filled : print_small 3 ≢ ""
three_filled = ground (arith, eq_iff "1.5" "")

four_filled : print_small 4 ≢ ""
four_filled = ground (arith, eq_iff "2" "")

three-IsPlain : IsPlain (print_small 3)
unfolding is_white
three-IsPlain = (refl, refl, (refl, refl, (refl, refl, tt)))

four-IsPlain : IsPlain (print_small 4)
unfolding is_white
four-IsPlain = (refl, refl, tt)

parse_vector_string-joined_example :
    parse_vector_string parse_small (joined (print_small 3) (map print_small (4 ∷ []))) ≡ 3 ∷ 4 ∷ []
parse_vector_string-joined_example =
    parse_vector_string-joined parse_small print_small 3 (4 ∷ [])
      (refl, three_filled, three-IsPlain, (refl, four_filled, four-IsPlain, tt))

-- The texts.
format_uptime_test : format_uptime (a_number (some (pos 93784))) "--" ≡ "1d 2h 3m"
unfolding format_uptime
format_uptime_test = refl

validate_password_test : validate_password "Secret-1" ≡ none
unfolding validate_password
validate_password_test = refl

parse_vector_string_test : parse_vector_string parse_small " 1.5 ,x, 2" ≡ 3 ∷ 4 ∷ []
unfolding parse_vector_string is_white
parse_vector_string_test = refl
