-- ===== src/Console/Password.antt =====
-- The sign-up page of the web console, auth/frontend/src/pages/SignupPage.tsx: the check of the
-- password, `validatePassword`, and `handleSubmit`.
pub mod Strength
use Prim.Native.Char.{Char, code}
use vectron.Prelude.{
  ℕ, ◌+◌, String, Bool, true, false, Option, none, some, leb, ltb, ◌&&◌, ◌||◌, not, is_empty_str,
  if◌then◌else◌,
}
use vectron.Client.Batch.{utf16_length}
use vectron.Console.Session.{Credentials, Session, Failure, signs_up, handle}

-- The four flags.
pub record Types : Type 0 where
  pub has_upper : Bool
  pub has_lower : Bool
  pub has_digit : Bool
  pub has_special : Bool

-- `/[a-z]/.test(ch)`, for a range of codes.
abbrev pub in_range : ℕ → ℕ → Char → Bool
in_range first last c = leb first (code c) && leb (code c) last

-- The body of the loop.
unfoldable pub note_char : Char → Types → Types
note_char c t =
    if in_range 65 90 c
    then record t { has_upper = true }
    else if in_range 97 122 c
    then record t { has_lower = true }
    else if in_range 48 57 c
    then record t { has_digit = true }
    else if not (in_range 65 90 c || in_range 97 122 c || in_range 48 57 c)
    then record t { has_special = true }
    else t

-- The loop over the characters.
unfoldable pub note_chars : String → Types → Types
unfolding note_char
note_chars String.[] t = t
note_chars (String.◌∷◌ c s) t = note_chars s (note_char c t)

abbrev pub no_types : Types
no_types = record { has_upper = false; has_lower = false; has_digit = false; has_special = false }

abbrev pub one_if : Bool → ℕ
one_if b = if b then 1 else 0

-- `types`
unfoldable pub count_types : Types → ℕ
count_types t = one_if t.has_upper + one_if t.has_lower + one_if t.has_digit + one_if t.has_special

unfoldable pub validate_password : String → Option String
unfolding utf16_length note_chars count_types
validate_password value =
    if is_empty_str value
    then some "Password is required."
    else if ltb (utf16_length value) 8
    then some "Password must be at least 8 characters long."
    else if ltb 128 (utf16_length value)
    then some "Password must be at most 128 characters long."
    else if ltb (count_types (note_chars value no_types)) 3
    then some
        "Password must contain at least 3 of: uppercase, lowercase, digits, special characters."
    else none

-- `handleSubmit`, up to the end of the request: `formError`, and the session.
unfoldable pub handle_submit : Failure → Credentials → Session → Option String × Session
unfolding validate_password handle
handle_submit type_error credentials s = elim (validate_password credentials.password) [
  | some e ↦ (some e, s)
  | none ↦ (none, handle type_error (signs_up credentials) s)
]
