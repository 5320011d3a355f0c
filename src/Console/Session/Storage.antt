-- ===== src/Console/Session/Storage.antt =====
-- The token in the state of `AuthProvider` and the one in the local storage.
use vectron.Prelude.{
  remove_at, ℕ, String, ◌≡◌, Bool, false, Option, none, some, List, [], ◌∷◌, arith, All, get_elem?,
  ℤ,
}
use vectron.Console.Profile.{RawProfile}
use vectron.Console.Session.{
  Session, Call, InFlight, Reply, Failure, Event, profile, login, register, plan_change, answered,
  failed, logs_out, logs_in, signs_up, changes_plan, replies, send, effect, commit, mounted, logout,
  update_user_and_token, reply_to, handle, run, to_login, content, protected_route,
}

-- The session has the stored token.
pub record IsStored (s : Session) : Type 0 where
  pub same : s.token ≡ s.stored

-- A reply that brings a user, or fails.
abbrev pub IsComplete : Event → Type 0
IsComplete (replies i (answered none token)) = ⊥
IsComplete _ = Unit

commit-IsStored : (changed : Bool) (s : Session) → IsStored s → IsStored (commit changed s)
unfolding effect commit send
commit-IsStored changed s h = record { same = ground (arith, h.same) }

logout-IsStored : (s : Session) → IsStored (logout s)
unfolding logout effect commit send
logout-IsStored s = record { same = ground arith }

update_user_and_token-IsStored :
    (user : RawProfile) (token : String) (s : Session)
    → IsStored (update_user_and_token (some user) token s)
unfolding update_user_and_token effect commit send
update_user_and_token-IsStored user token s = record { same = ground arith }

module _ (type_error : Failure) where
  reply_to-IsStored :
      (call : Call) (i : ℕ) (r : Reply) (s : Session)
      → IsComplete (replies i r)
      → IsStored s
      → IsStored (reply_to type_error call r s)
  unfolding reply_to send effect commit logout
  reply_to-IsStored call i (answered none token) s complete h = absurd complete
  reply_to-IsStored profile i (answered (some user) token) s complete h = record {
    same = ground (arith, h.same);
  }
  reply_to-IsStored profile i (failed f) s complete h = record { same = ground arith }
  reply_to-IsStored (login up credentials) i (answered (some user) token) s complete h =
      update_user_and_token-IsStored user token s
  reply_to-IsStored (login up credentials) i (failed f) s complete h = record { same = h.same }
  reply_to-IsStored (register credentials) i (answered (some user) token) s complete h = record {
    same = h.same;
  }
  reply_to-IsStored (register credentials) i (failed f) s complete h = record { same = h.same }
  reply_to-IsStored (plan_change plan) i (answered (some user) token) s complete h =
      update_user_and_token-IsStored user token s
  reply_to-IsStored (plan_change plan) i (failed f) s complete h = h

  found-IsStored :
      (o : Option InFlight) (i : ℕ) (r : Reply) (s : Session)
      → IsComplete (replies i r)
      → IsStored s
      → IsStored (elim o [
        | none ↦ s
        | some f ↦ reply_to type_error f.call r (record s { in_flight = remove_at i s.in_flight })
      ])
  found-IsStored none i r s complete h = h
  found-IsStored (some f) i r s complete h =
      reply_to-IsStored f.call i r _ complete (record { same = h.same })

  handle-IsStored :
      (e : Event) (s : Session) → IsComplete e → IsStored s → IsStored (handle type_error e s)
  unfolding handle send
  handle-IsStored logs_out s complete h = logout-IsStored s
  handle-IsStored (logs_in credentials) s complete h = record { same = h.same }
  handle-IsStored (signs_up credentials) s complete h = record { same = h.same }
  handle-IsStored (changes_plan plan) s complete h = record { same = h.same }
  handle-IsStored (replies i r) s complete h =
      found-IsStored (get_elem? s.in_flight i) i r s complete h

  run_keeps_IsStored :
      (es : List Event) (s : Session)
      → All IsComplete es
      → IsStored s
      → IsStored (run type_error es s)
  unfolding run
  run_keeps_IsStored [] s complete h = h
  run_keeps_IsStored (e ∷ es) s (now, later) h =
      run_keeps_IsStored es (handle type_error e s) later (handle-IsStored e s now h)

  mounted-IsStored : (stored : Option String) → IsStored (mounted stored)
  unfolding mounted effect commit send
  mounted-IsStored stored = record { same = ground arith }

  -- From the first render on, and for any events whose replies fail or bring a user, the token in
  -- the state is the one in the local storage.
  pub run-IsStored :
      (stored : Option String) (es : List Event)
      → All IsComplete es
      → IsStored (run type_error es (mounted stored))
  run-IsStored stored es complete =
      run_keeps_IsStored es (mounted stored) complete (mounted-IsStored stored)

  -- When a request for the profile fails, whatever the session was, there is no error message,
  -- nothing is stored, and the user is sent to the log-in page.
  pub profile_failed :
      (i : ℕ) (f : InFlight) (r : Failure) (s : Session)
      → get_elem? s.in_flight i ≡ some f
      → f.call ≡ profile
      → ((handle type_error (replies i (failed r)) s).error ≡ none)
        × ((handle type_error (replies i (failed r)) s).stored ≡ none)
        × (protected_route (handle type_error (replies i (failed r)) s) ≡ to_login)
  unfolding handle reply_to logout effect commit send protected_route
  profile_failed i f r s here is_profile = ground (arith, here, is_profile)

  -- With a plan change in flight and the session loaded, a log-out followed by the answer to that
  -- plan change, with a user and a token, leaves the token in the local storage and the content
  -- shown.
  pub logout_undone :
      (i : ℕ) (f : InFlight) (plan : ℤ) (user : RawProfile) (token : String) (s : Session)
      → get_elem? s.in_flight i ≡ some f
      → f.call ≡ plan_change plan
      → s.is_loading ≡ false
      → ((run type_error (logs_out ∷ replies i (answered (some user) token) ∷ []) s).stored
          ≡ some token)
        × (protected_route
              (run type_error (logs_out ∷ replies i (answered (some user) token) ∷ []) s)
            ≡ content)
  unfolding run handle reply_to logout update_user_and_token effect commit send protected_route
  logout_undone i f plan user token s here is_change ready = ground (arith, here, is_change, ready)
