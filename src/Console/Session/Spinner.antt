-- ===== src/Console/Session/Spinner.antt =====
-- While `AuthProvider` says that it is loading, a request for the profile is in flight.
use vectron.Prelude.{
  remove_at, ℕ, String, ◌≡◌, refl, ◌∙◌, Bool, true, false, not, ◌||◌, Option, none, some, List, [],
  ◌∷◌, arith, get_elem?, any, any_after, any-remove_at,
}
use vectron.Console.Profile.{RawProfile, normalize_user_profile}
use vectron.Console.Session.{
  fetch_failed, is_some, same_token, authorization_of, Session, Call, InFlight, Reply, Failure,
  Event, profile, login, register, plan_change, answered, failed, logs_out, logs_in, signs_up,
  changes_plan, replies, send, effect, commit, mounted, logout, update_user_and_token, reply_to,
  handle, run, spinner, protected_route,
}

abbrev pub is_profile : Call → Bool
is_profile profile = true
is_profile (login up credentials) = false
is_profile (register credentials) = false
is_profile (plan_change plan) = false

abbrev pub asks_profile : InFlight → Bool
asks_profile f = is_profile f.call

abbrev pub has_profile : List InFlight → Bool
has_profile = any asks_profile

pub record IsAwaited (s : Session) : Type 0 where
  pub awaited : s.is_loading ≡ true → has_profile s.in_flight ≡ true

send-IsAwaited : (call : Call) (s : Session) → IsAwaited s → IsAwaited (send call s)
unfolding send
send-IsAwaited call s h = record {
  awaited = λ e. ground (
    arith,
    h.awaited e,
    any_after asks_profile s.in_flight
        (record { call = call; authorization = authorization_of s.stored }),
  );
}

effect-IsAwaited : (s : Session) → IsAwaited (effect s)
unfolding effect commit send
effect-IsAwaited s = record {
  awaited = λ e. ground (
    arith,
    any_after asks_profile s.in_flight
        (record { call = profile; authorization = authorization_of s.stored }),
  );
}

commit-IsAwaited : (changed : Bool) (s : Session) → IsAwaited s → IsAwaited (commit changed s)
unfolding commit
commit-IsAwaited true s h = effect-IsAwaited s
commit-IsAwaited false s h = h

logout-IsAwaited : (s : Session) → IsAwaited s → IsAwaited (logout s)
unfolding logout
logout-IsAwaited s h =
    commit-IsAwaited (is_some s.token || is_some s.user)
      (record s { stored = none; token = none; user = none; error = none })
      (record { awaited = h.awaited })

update-IsAwaited :
    (user : Option RawProfile) (token : String) (s : Session)
    → IsAwaited s
    → IsAwaited (update_user_and_token user token s)
unfolding update_user_and_token commit
update-IsAwaited none token s h =
    commit-IsAwaited (not (same_token s.token (some token))) (record s { token = some token })
      (record { awaited = h.awaited })
update-IsAwaited (some user) token s h = effect-IsAwaited (record s {
  token = some token;
  user = some (normalize_user_profile user);
  stored = some token;
})

loaded : (s : Session) → IsAwaited (record s { is_loading = false })
loaded s = record { awaited = λ e. absurd (cc e) }

module _ (type_error : Failure) where
  reply_to-IsAwaited :
      (call : Call) (r : Reply) (s : Session)
      → (is_profile call ≡ false → IsAwaited s)
      → IsAwaited (reply_to type_error call r s)
  unfolding reply_to commit
  reply_to-IsAwaited profile (answered (some user) token) s h =
      loaded (effect (record s { user = some (normalize_user_profile user) }))
  reply_to-IsAwaited profile (answered none token) s h =
      loaded (logout (record s { error = some fetch_failed }))
  reply_to-IsAwaited profile (failed f) s h =
      loaded (logout (record s { error = some fetch_failed }))
  reply_to-IsAwaited (login up credentials) (answered (some user) token) s h =
      update-IsAwaited (some user) token s (h refl)
  reply_to-IsAwaited (login up credentials) (answered none token) s h = record {
    awaited = (update-IsAwaited none token s (h refl)).awaited;
  }
  reply_to-IsAwaited (login up credentials) (failed f) s h = record { awaited = (h refl).awaited }
  reply_to-IsAwaited (register credentials) (answered user token) s h =
      send-IsAwaited (login true credentials) (record s { error = none })
        (record { awaited = (h refl).awaited })
  reply_to-IsAwaited (register credentials) (failed f) s h = record { awaited = (h refl).awaited }
  reply_to-IsAwaited (plan_change plan) (answered user token) s h =
      update-IsAwaited user token s (h refl)
  reply_to-IsAwaited (plan_change plan) (failed f) s h = h refl

  found-IsAwaited :
      (o : Option InFlight) (i : ℕ) (r : Reply) (s : Session)
      → get_elem? s.in_flight i ≡ o
      → IsAwaited s
      → IsAwaited (elim o [
        | none ↦ s
        | some f ↦ reply_to type_error f.call r (record s { in_flight = remove_at i s.in_flight })
      ])
  found-IsAwaited none i r s here h = h
  found-IsAwaited (some f) i r s here h = reply_to-IsAwaited f.call r _ (λ other. record {
    awaited = λ e. any-remove_at asks_profile i s.in_flight f here other ∙ h.awaited e;
  })

  handle-IsAwaited : (e : Event) (s : Session) → IsAwaited s → IsAwaited (handle type_error e s)
  unfolding handle
  handle-IsAwaited logs_out s h = logout-IsAwaited s h
  handle-IsAwaited (logs_in credentials) s h = send-IsAwaited _ _ (record { awaited = h.awaited })
  handle-IsAwaited (signs_up credentials) s h = send-IsAwaited _ _ (record { awaited = h.awaited })
  handle-IsAwaited (changes_plan plan) s h = send-IsAwaited (plan_change plan) s h
  handle-IsAwaited (replies i r) s h = found-IsAwaited (get_elem? s.in_flight i) i r s refl h

  run_keeps_IsAwaited :
      (es : List Event) (s : Session) → IsAwaited s → IsAwaited (run type_error es s)
  unfolding run
  run_keeps_IsAwaited [] s h = h
  run_keeps_IsAwaited (e ∷ es) s h =
      run_keeps_IsAwaited es (handle type_error e s) (handle-IsAwaited e s h)

  mounted-IsAwaited : (stored : Option String) → IsAwaited (mounted stored)
  unfolding mounted
  mounted-IsAwaited stored = effect-IsAwaited (record {
    user = none;
    token = stored;
    is_loading = true;
    error = none;
    stored = stored;
    in_flight = [];
  })

  -- From the first render on, and for any events, `ProtectedRoute` shows the spinner only while a
  -- request for the profile is in flight.
  pub run-spinner :
      (stored : Option String) (es : List Event)
      → protected_route (run type_error es (mounted stored)) ≡ spinner
      → has_profile (run type_error es (mounted stored)).in_flight ≡ true
  unfolding protected_route mounted
  run-spinner stored es spins =
      let kept = run_keeps_IsAwaited es (mounted stored) (mounted-IsAwaited stored) in
      ground (arith, kept.awaited)
