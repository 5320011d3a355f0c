-- ===== src/Console/Session/Stages.antt =====
-- The session of `AuthProvider` as its user sees it: a machine of six stages. Events come one after
-- the other: while a request is in flight, nothing comes but the answer to it.
use vectron.Prelude.{
  zero, String, ◌≡◌, ◌≢◌, refl, ◌∙◌, ap, Bool, true, false, Option, none, some, List, [], ◌∷◌, ℤ,
  arith, if◌then◌else◌, is_empty_str-false,
}
use vectron.Console.Profile.{UserProfile, normalize_user_profile}
use vectron.Console.Session.{
  login_error, signup_error, Credentials, Session, InFlight, Reply, Failure, Event, profile, login,
  register, plan_change, answered, failed, logs_out, logs_in, signs_up, changes_plan, replies,
  authorization_of, send, effect, commit, mounted, logout, update_user_and_token, reply_to, handle,
  run, Page, spinner, to_login, content, protected_route,
}

pub data Stage : Type 0 where
  guest : Stage
  restoring : String → Stage
  entering : Bool → Credentials → Stage
  registering : Credentials → Stage
  member : UserProfile → String → Stage
  changing : UserProfile → String → ℤ → Stage

abbrev pub admitted : Reply → Stage → Stage
admitted (answered (some user) token) other = member (normalize_user_profile user) token
admitted (answered none token) other = other
admitted (failed f) other = other

-- The next stage.
unfoldable pub advance : Event → Stage → Stage
advance (logs_in credentials) guest = entering false credentials
advance (signs_up credentials) guest = registering credentials
advance (replies i (answered (some user) token)) (restoring t) =
    member (normalize_user_profile user) t
advance (replies i (answered none token)) (restoring t) = guest
advance (replies i (failed f)) (restoring t) = guest
advance (replies i r) (entering up credentials) = admitted r guest
advance (replies i (answered user token)) (registering credentials) = entering true credentials
advance (replies i (failed f)) (registering credentials) = guest
advance logs_out (member user t) = guest
advance (changes_plan plan) (member user t) = changing user t plan
advance (replies i r) (changing user t plan) = admitted r (member user t)
advance _ v = v

-- A reply that fails, or brings a user and a token that is not empty.
abbrev pub IsProper : Reply → Type 0
IsProper (answered (some user) token) = token ≢ ""
IsProper (answered none token) = ⊥
IsProper (failed f) = Unit

-- The events that are looked at, at each stage.
pub data Comes : Event → Stage → Type 0 where
  logging_in : (credentials : Credentials) → Comes (logs_in credentials) guest
  signing_up : (credentials : Credentials) → Comes (signs_up credentials) guest
  restored : (r : Reply) (t : String) → Comes (replies zero r) (restoring t)
  entered :
      (r : Reply) (up : Bool) (credentials : Credentials)
      → IsProper r
      → Comes (replies zero r) (entering up credentials)
  registered :
      (r : Reply) (credentials : Credentials) → Comes (replies zero r) (registering credentials)
  leaving : (user : UserProfile) (t : String) → Comes logs_out (member user t)
  choosing :
      (plan : ℤ) (user : UserProfile) (t : String) → Comes (changes_plan plan) (member user t)
  changed :
      (r : Reply) (user : UserProfile) (t : String) (plan : ℤ)
      → IsProper r
      → Comes (replies zero r) (changing user t plan)

abbrev pub InOrder : List Event → Stage → Type 0
InOrder [] v = Unit
InOrder (e ∷ es) v = Comes e v × InOrder es (advance e v)

abbrev pub advance_all : List Event → Stage → Stage
advance_all [] v = v
advance_all (e ∷ es) v = advance_all es (advance e v)

abbrev outside : List InFlight → Option String → Session
outside calls error = record {
  user = none;
  token = none;
  is_loading = false;
  error = error;
  stored = none;
  in_flight = calls;
}

abbrev inside : UserProfile → String → List InFlight → Option String → Session
inside user t calls error = record {
  user = some user;
  token = some t;
  is_loading = false;
  error = error;
  stored = some t;
  in_flight = calls;
}

-- The session at a stage, with an error message or none.
unfoldable pub session_at : Stage → Option String → Session
session_at guest error = outside [] error
session_at (restoring t) error = record {
  user = none;
  token = some t;
  is_loading = true;
  error = error;
  stored = some t;
  in_flight = record { call = profile; authorization = authorization_of (some t) } ∷ [];
}
session_at (entering up credentials) error =
    outside (record { call = login up credentials; authorization = none } ∷ []) error
session_at (registering credentials) error =
    outside (record { call = register credentials; authorization = none } ∷ []) error
session_at (member user t) error = inside user t [] error
session_at (changing user t plan) error =
    inside user t
      (record { call = plan_change plan; authorization = authorization_of (some t) } ∷ []) error

abbrev pub Represents : Session → Stage → Type 0
Represents s v = (error : Option String) × (s ≡ session_at v error)

unfoldable pub page_of : Stage → Page
page_of guest = to_login
page_of (restoring t) = spinner
page_of (entering up credentials) = to_login
page_of (registering credentials) = to_login
page_of (member user t) = content
page_of (changing user t plan) = content

-- With a user the effect only ends the loading.
effect_inside :
    (user : UserProfile) (t : String) (loading : Bool) (calls : List InFlight)
    (error : Option String)
    → effect (record {
      user = some user;
      token = some t;
      is_loading = loading;
      error = error;
      stored = some t;
      in_flight = calls;
    })
      ≡ inside user t calls error
unfolding effect
effect_inside user t loading calls error = ground arith

module _ (type_error : Failure) where
  handle-Represents :
      {e : Event} {v : Stage}
      → Comes e v
      → (error : Option String)
      → Represents (handle type_error e (session_at v error)) (advance e v)
  unfolding handle session_at advance send logout reply_to update_user_and_token commit effect
  handle-Represents (logging_in credentials) error = (none, refl)
  handle-Represents (signing_up credentials) error = (none, refl)
  handle-Represents (restored (answered (some user) token) t) error = (
    error,
    ap {A = Session} (λ s. record s { is_loading = false })
        (effect_inside (normalize_user_profile user) t true [] error),
  )
  handle-Represents (restored (answered none token) t) error = (none, refl)
  handle-Represents (restored (failed f) t) error = (none, refl)
  handle-Represents (entered (answered (some user) token) up credentials proper) error =
      (error, effect_inside (normalize_user_profile user) token false [] error)
  handle-Represents (entered (answered none token) up credentials proper) error = absurd proper
  handle-Represents (entered (failed f) up credentials proper) error =
      (some (if up then signup_error f else login_error f), refl)
  handle-Represents (registered (answered none token) credentials) error = (none, refl)
  handle-Represents (registered (answered (some user) token) credentials) error = (none, refl)
  handle-Represents (registered (failed f) credentials) error = (some (signup_error f), refl)
  handle-Represents (leaving user t) error = (none, refl)
  handle-Represents (choosing plan user t) error = (error, refl)
  handle-Represents (changed (answered (some user) token) old t plan proper) error =
      (error, effect_inside (normalize_user_profile user) token false [] error)
  handle-Represents (changed (answered none token) user t plan proper) error = absurd proper
  handle-Represents (changed (failed f) user t plan proper) error = (error, refl)

  run-Represents :
      (es : List Event) (v : Stage) (s : Session)
      → InOrder es v
      → Represents s v
      → Represents (run type_error es s) (advance_all es v)
  unfolding run
  run-Represents [] v s order h = h
  run-Represents (e ∷ es) v s (now, later) (error, same) =
      let (error', same') = handle-Represents now error in
      run-Represents es (advance e v) (handle type_error e s) later
        (error', ap (handle type_error e) same ∙ same')

-- The first stage, for the token in the local storage.
abbrev pub first_stage : Option String → Stage
first_stage none = guest
first_stage (some t) = restoring t

mounted-Represents :
    (stored : Option String) → stored ≢ some "" → Represents (mounted stored) (first_stage stored)
unfolding mounted effect send session_at
mounted-Represents none named = (none, refl)
mounted-Represents (some t) named =
    let filled = is_empty_str-false t (λ e. named (ap some e)) in (none, rw filled refl)

protected_route-session_at :
    (v : Stage) (error : Option String) → protected_route (session_at v error) ≡ page_of v
unfolding protected_route session_at page_of
protected_route-session_at guest error = refl
protected_route-session_at (restoring t) error = refl
protected_route-session_at (entering up credentials) error = refl
protected_route-session_at (registering credentials) error = refl
protected_route-session_at (member user t) error = refl
protected_route-session_at (changing user t plan) error = refl

-- From what the local storage holds, if it is not an empty token, and for events one after the
-- other, where a guest logs in or signs up, a member logs out or changes the plan, and while a
-- request is in flight nothing comes but the answer to it, which for a log-in or a plan change
-- fails or brings a user and a token that is not empty: the session is at each end what the
-- machine of six stages says, up to its error message, and `ProtectedRoute` renders the page of
-- that stage.
pub run_refines_stages :
    (type_error : Failure) (stored : Option String) (es : List Event)
    → stored ≢ some ""
    → InOrder es (first_stage stored)
    → Represents (run type_error es (mounted stored)) (advance_all es (first_stage stored))
      × (protected_route (run type_error es (mounted stored))
          ≡ page_of (advance_all es (first_stage stored)))
run_refines_stages type_error stored es named order =
    let h =
      run-Represents type_error es (first_stage stored) (mounted stored) order
        (mounted-Represents stored named) in
    (
      h,
      ap protected_route h.1 ∙ protected_route-session_at (advance_all es (first_stage stored)) h.0,
    )
