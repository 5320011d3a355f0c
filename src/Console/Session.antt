-- ===== src/Console/Session.antt =====
-- The session of a user of the web console: `AuthProvider` of
-- auth/frontend/src/contexts/AuthContext.tsx, with `handleConfirm` of
-- auth/frontend/src/pages/PlanChangePage.tsx, which sets the session too, and the test of
-- auth/frontend/src/components/ProtectedRoute.tsx.
--
-- The state variables of the component and the item "jwt_token" of the local storage are a record.
-- An event is a call of one of its functions, or the end of one of the requests in flight; the
-- setters of one event take effect together, and then the effect runs if `token` or `user` changed.
pub mod Stages
pub mod Spinner
pub mod Storage
use Prim.Native.String.{◌++◌ as str_append}
use vectron.Prelude.{
  ℕ, zero, suc, String, Bool, true, false, not, ◌&&◌, ◌||◌, Option, none, some, List, [], ◌∷◌, ◌++◌,
  ℤ, get_elem?, remove_at, str_eq, is_empty_str, if◌then◌else◌,
}
use vectron.Console.Profile.{RawProfile, UserProfile, normalize_user_profile}

pub record Credentials : Type 0 where
  pub email : String
  pub password : String

-- The requests to the auth service. A login knows whether `signup` waits for it.
pub data Call : Type 0 where
  profile : Call
  login : Bool → Credentials → Call
  register : Credentials → Call
  plan_change : ℤ → Call

-- A request, with the header that the interceptor gave it.
pub record InFlight : Type 0 where
  pub call : Call
  pub authorization : Option String

-- `err.response?.data?.message` and `err.message`; a text that is missing is the empty one, since
-- `||` treats them alike.
pub record Failure : Type 0 where
  pub response_message : String
  pub message : String

-- The end of a request: `response.data` has a user or not, and a token; or an error is thrown.
pub data Reply : Type 0 where
  answered : Option RawProfile → String → Reply
  failed : Failure → Reply

pub record Session : Type 0 where
  pub user : Option UserProfile
  pub token : Option String
  pub is_loading : Bool
  pub error : Option String
  pub stored : Option String
  pub in_flight : List InFlight

abbrev pub is_some {ℓ} : {A : Type ℓ} → Option A → Bool
is_some none = false
is_some (some a) = true

-- `if (token)`
abbrev pub has_token : Option String → Bool
has_token none = false
has_token (some t) = not (is_empty_str t)

abbrev pub same_token : Option String → Option String → Bool
same_token none none = true
same_token none (some t) = false
same_token (some s) none = false
same_token (some s) (some t) = str_eq s t

-- The first text that is not empty.
abbrev pub first_text : String → String → String
first_text s t = if is_empty_str s then t else s

abbrev pub login_error : Failure → String
login_error f =
    first_text f.response_message
      (first_text f.message "Login failed. Please check your credentials.")

abbrev pub signup_error : Failure → String
signup_error f =
    first_text f.response_message (first_text f.message "Signup failed. Please try again.")

-- `authInterceptor`
abbrev pub authorization_of : Option String → Option String
authorization_of none = none
authorization_of (some t) = if is_empty_str t then none else some (str_append "Bearer " t)

-- A request is sent.
unfoldable pub send : Call → Session → Session
send call s = record s {
  in_flight =
      s.in_flight ++ (record { call = call; authorization = authorization_of s.stored } ∷ []);
}

-- The effect of the component.
unfoldable pub effect : Session → Session
unfolding send
effect s =
    if has_token s.token && not (is_some s.user)
    then send profile s
    else record s { is_loading = false }

-- The effect runs if one of its dependencies changed.
unfoldable pub commit : Bool → Session → Session
unfolding effect
commit changed s = if changed then effect s else s

-- The component is mounted, with what the local storage holds.
unfoldable pub mounted : Option String → Session
unfolding effect
mounted stored = effect (record {
  user = none;
  token = stored;
  is_loading = true;
  error = none;
  stored = stored;
  in_flight = [];
})

unfoldable pub logout : Session → Session
unfolding effect commit
logout s =
    commit (is_some s.token || is_some s.user)
      (record s { stored = none; token = none; user = none; error = none })

-- Without a user `normalizeUserProfile` throws after the token is set and before it is stored.
unfoldable pub update_user_and_token : Option RawProfile → String → Session → Session
unfolding effect commit normalize_user_profile
update_user_and_token none token s =
    commit (not (same_token s.token (some token))) (record s { token = some token })
update_user_and_token (some user) token s = commit true (record s {
  token = some token;
  user = some (normalize_user_profile user);
  stored = some token;
})

abbrev pub fetch_failed : String
fetch_failed = "Failed to fetch user profile. Please log in again."

module _ (type_error : Failure) where
  -- What follows a request, in its `then`, its `catch` and its `finally`. A missing user throws
  -- `type_error`. On a failed request for the profile the error is set, and `logout` resets it.
  unfoldable pub reply_to : Call → Reply → Session → Session
  unfolding effect commit logout update_user_and_token send
  reply_to profile (answered (some user) token) s =
      record (commit true (record s { user = some (normalize_user_profile user) })) {
        is_loading = false;
      }
  reply_to profile (answered none token) s =
      record (logout (record s { error = some fetch_failed })) { is_loading = false }
  reply_to profile (failed f) s = record (logout (record s { error = some fetch_failed })) {
    is_loading = false;
  }
  reply_to (login signing_up credentials) (answered (some user) token) s =
      update_user_and_token (some user) token s
  reply_to (login signing_up credentials) (answered none token) s =
      record (update_user_and_token none token s) {
        error = some (if signing_up then signup_error type_error else login_error type_error);
      }
  reply_to (login signing_up credentials) (failed f) s = record s {
    error = some (if signing_up then signup_error f else login_error f);
  }
  reply_to (register credentials) (answered user token) s =
      send (login true credentials) (record s { error = none })
  reply_to (register credentials) (failed f) s = record s { error = some (signup_error f) }
  reply_to (plan_change plan) (answered user token) s = update_user_and_token user token s
  reply_to (plan_change plan) (failed f) s = s

pub data Event : Type 0 where
  logs_out : Event
  logs_in : Credentials → Event
  signs_up : Credentials → Event
  changes_plan : ℤ → Event
  replies : ℕ → Reply → Event

module _ (type_error : Failure) where
  -- An event; a reply to a request that is not in flight does nothing.
  unfoldable pub handle : Event → Session → Session
  unfolding logout send reply_to
  handle logs_out s = logout s
  handle (logs_in credentials) s = send (login false credentials) (record s { error = none })
  handle (signs_up credentials) s = send (register credentials) (record s { error = none })
  handle (changes_plan plan) s = send (plan_change plan) s
  handle (replies i r) s = elim (get_elem? s.in_flight i) [
    | none ↦ s
    | some f ↦ reply_to type_error f.call r (record s { in_flight = remove_at i s.in_flight })
  ]

  unfoldable pub run : List Event → Session → Session
  unfolding handle
  run [] s = s
  run (e ∷ es) s = run es (handle e s)

-- What `ProtectedRoute` renders.
pub data Page : Type 0 where
  spinner : Page
  to_login : Page
  content : Page

unfoldable pub protected_route : Session → Page
protected_route s =
    if s.is_loading then spinner else if not (is_some s.user) then to_login else content
