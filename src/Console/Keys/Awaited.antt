-- ===== src/Console/Keys/Awaited.antt =====
-- While a button of auth/frontend/src/components/ApiKeyManager.tsx is busy, its request is in flight.
use vectron.Prelude.{
  ℕ, ◌≡◌, ◌≢◌, refl, ◌∙◌, Bool, true, false, Option, none, some, List, [], ◌∷◌, ◌++◌, arith, any,
  any_after, any-remove_at, get_elem?, remove_at, if◌then◌else◌, is_empty_str, str_eq, not, ◌&&◌,
  String, eq_iff,
}
use vectron.Console.Text.{trim}
use vectron.Console.Keys.{
  ApiKey, RawKey, KeyCall, list_keys, create_key, jwt_of_new, jwt_of, delete_key, KeyPage, Reply,
  answered, refused, ActionLoading, off, on, on_key, handle_create_key, handle_delete_key,
  handle_get_sdk_jwt, call_ended, fetch_keys, mounted, call, info_of, key_created, normalize_key,
}
use vectron.Console.Keys.Machine.{
  Event, types_name, creates, presses_enter, confirms_deletion, deletes, gets_jwt, opens_create,
  closes_create, closes_delete, closes_token, closes_jwt, closes_toast, replies, is_on, is_on_key,
  handle, run,
}

-- A request that a busy button waits for.
abbrev pub serves : ActionLoading → KeyCall → Bool
serves off c = true
serves on (create_key name) = true
serves on (jwt_of_new prefix) = true
serves on (delete_key prefix) = true
serves on _ = false
serves (on_key prefix) (jwt_of key) = str_eq prefix key.key_prefix
serves (on_key prefix) _ = false

abbrev IsServed : ActionLoading → List KeyCall → Type 0
IsServed off calls = Unit
IsServed on calls = any (serves on) calls ≡ true
IsServed (on_key prefix) calls = any (serves (on_key prefix)) calls ≡ true

abbrev IsAwaited : KeyPage → Type 0
IsAwaited p = IsServed p.action_loading p.calls

IsServed-append :
    (a : ActionLoading) (calls : List KeyCall) (c : KeyCall)
    → IsServed a calls
    → IsServed a (calls ++ (c ∷ []))
IsServed-append off calls c h = tt
IsServed-append on calls c h = ground (arith, h, any_after (serves on) calls c)
IsServed-append (on_key prefix) calls c h =
    ground (arith, h, any_after (serves (on_key prefix)) calls c)

IsServed-remove :
    (a : ActionLoading) (i : ℕ) (calls : List KeyCall) (c : KeyCall)
    → get_elem? calls i ≡ some c
    → serves a c ≡ false
    → IsServed a calls
    → IsServed a (remove_at i calls)
IsServed-remove off i calls c here other h = tt
IsServed-remove on i calls c here other h = any-remove_at (serves on) i calls c here other ∙ h
IsServed-remove (on_key prefix) i calls c here other h =
    any-remove_at (serves (on_key prefix)) i calls c here other ∙ h

IsServed-new :
    (a : ActionLoading) (calls : List KeyCall) (c : KeyCall)
    → serves a c ≡ true
    → IsServed a (calls ++ (c ∷ []))
IsServed-new off calls c h = tt
IsServed-new on calls c h = ground (arith, h, any_after (serves on) calls c)
IsServed-new (on_key prefix) calls c h =
    ground (arith, h, any_after (serves (on_key prefix)) calls c)

if-IsAwaited :
    (b : Bool) (p q : KeyPage) → IsAwaited p → IsAwaited q → IsAwaited (if b then p else q)
if-IsAwaited true p q h k = h
if-IsAwaited false p q h k = k

handle_create_key-IsAwaited : (p : KeyPage) → IsAwaited p → IsAwaited (handle_create_key p)
unfolding handle_create_key
handle_create_key-IsAwaited p h =
    if-IsAwaited (is_empty_str (trim p.new_key_name)) _ _ h
      (IsServed-new on p.calls (create_key p.new_key_name) refl)

delete-IsAwaited :
    (o : Option String) (p : KeyPage)
    → IsAwaited p
    → IsAwaited (elim o [
      | none ↦ p
      | some prefix ↦
          if is_empty_str prefix
          then p
          else call (delete_key prefix) (record p { action_loading = on })
    ])
delete-IsAwaited none p h = h
delete-IsAwaited (some prefix) p h =
    if-IsAwaited (is_empty_str prefix) _ _ h (IsServed-new on p.calls (delete_key prefix) refl)

handle_get_sdk_jwt-IsAwaited : (key : ApiKey) (p : KeyPage) → IsAwaited (handle_get_sdk_jwt key p)
unfolding handle_get_sdk_jwt
handle_get_sdk_jwt-IsAwaited key p =
    IsServed-new (on_key key.key_prefix) p.calls (jwt_of key)
      ((eq_iff key.key_prefix key.key_prefix).1 refl)

-- The second request of a creation takes the place of the first.
IsServed-next :
    (a : ActionLoading) (i : ℕ) (calls : List KeyCall) (name prefix : String)
    → get_elem? calls i ≡ some (create_key name)
    → IsServed a calls
    → IsServed a (remove_at i calls ++ (jwt_of_new prefix ∷ []))
IsServed-next off i calls name prefix here h = tt
IsServed-next on i calls name prefix here h =
    IsServed-new on (remove_at i calls) (jwt_of_new prefix) refl
IsServed-next (on_key k) i calls name prefix here h =
    IsServed-append (on_key k) (remove_at i calls) (jwt_of_new prefix)
      (IsServed-remove (on_key k) i calls (create_key name) here refl h)

key_created-IsAwaited :
    (o : Option RawKey) (i : ℕ) (name : String) (p : KeyPage)
    → get_elem? p.calls i ≡ some (create_key name)
    → IsAwaited p
    → IsAwaited (key_created o (record p { calls = remove_at i p.calls }))
key_created-IsAwaited none i name p here h = tt
key_created-IsAwaited (some key) i name p here h =
    if-IsAwaited (is_empty_str (normalize_key key).key_prefix) _ _ tt
      (IsServed-next p.action_loading i p.calls name (normalize_key key).key_prefix here h)

list_ended :
    (a : ActionLoading) (i : ℕ) (calls : List KeyCall)
    → get_elem? calls i ≡ some list_keys
    → IsServed a calls
    → IsServed a (remove_at i calls)
list_ended off i calls here h = tt
list_ended on i calls here h = IsServed-remove on i calls list_keys here refl h
list_ended (on_key k) i calls here h = IsServed-remove (on_key k) i calls list_keys here refl h

call_ended-IsAwaited :
    (c : KeyCall) (i : ℕ) (r : Reply) (p : KeyPage)
    → get_elem? p.calls i ≡ some c
    → IsAwaited p
    → IsAwaited (call_ended c r (record p { calls = remove_at i p.calls }))
unfolding call_ended
call_ended-IsAwaited list_keys i (answered a) p here h =
    list_ended p.action_loading i p.calls here h
call_ended-IsAwaited list_keys i (refused m) p here h = list_ended p.action_loading i p.calls here h
call_ended-IsAwaited (create_key name) i (answered a) p here h =
    key_created-IsAwaited (info_of a) i name p here h
call_ended-IsAwaited (create_key name) i (refused m) p here h = tt
call_ended-IsAwaited (jwt_of_new prefix) i (answered a) p here h = tt
call_ended-IsAwaited (jwt_of_new prefix) i (refused m) p here h = tt
call_ended-IsAwaited (jwt_of key) i (answered a) p here h = tt
call_ended-IsAwaited (jwt_of key) i (refused m) p here h = tt
call_ended-IsAwaited (delete_key prefix) i (answered a) p here h = tt
call_ended-IsAwaited (delete_key prefix) i (refused m) p here h = tt

reply-IsAwaited :
    (o : Option KeyCall) (i : ℕ) (r : Reply) (p : KeyPage)
    → get_elem? p.calls i ≡ o
    → IsAwaited p
    → IsAwaited
        (elim o [ none ↦ p | some c ↦ call_ended c r (record p { calls = remove_at i p.calls }) ])
reply-IsAwaited none i r p here h = h
reply-IsAwaited (some c) i r p here h = call_ended-IsAwaited c i r p here h

handle-IsAwaited : (e : Event) (p : KeyPage) → IsAwaited p → IsAwaited (handle e p)
unfolding handle handle_delete_key
handle-IsAwaited (types_name s) p h = h
handle-IsAwaited creates p h =
    if-IsAwaited (p.open_create_dialog && not (is_on p.action_loading)) _ _
      (handle_create_key-IsAwaited p h) h
handle-IsAwaited presses_enter p h =
    if-IsAwaited p.open_create_dialog _ _ (handle_create_key-IsAwaited p h) h
handle-IsAwaited (confirms_deletion prefix) p h = h
handle-IsAwaited deletes p h =
    if-IsAwaited (p.open_delete_dialog && not (is_on p.action_loading)) _ _
      (delete-IsAwaited p.key_to_delete p h) h
handle-IsAwaited (gets_jwt key) p h =
    if-IsAwaited (is_on_key key.key_prefix p.action_loading) _ _ h
      (handle_get_sdk_jwt-IsAwaited key p)
handle-IsAwaited opens_create p h = h
handle-IsAwaited closes_create p h = h
handle-IsAwaited closes_delete p h = h
handle-IsAwaited closes_token p h = h
handle-IsAwaited closes_jwt p h = h
handle-IsAwaited closes_toast p h = h
handle-IsAwaited (replies i r) p h = reply-IsAwaited (get_elem? p.calls i) i r p refl h

run-IsAwaited : (es : List Event) (p : KeyPage) → IsAwaited p → IsAwaited (run es p)
unfolding run
run-IsAwaited [] p h = h
run-IsAwaited (e ∷ es) p h = run-IsAwaited es (handle e p) (handle-IsAwaited e p h)

served :
    (a : ActionLoading) (calls : List KeyCall)
    → IsServed a calls
    → a ≢ off
    → any (serves a) calls ≡ true
served off calls h busy = absurd (busy refl)
served on calls h busy = h
served (on_key prefix) calls h busy = h

-- After any events from the first render on, while a button is busy there is a request in flight
-- that it waits for: a creation, the token of a new key or a deletion for the buttons of the
-- dialogs, and the token of that key for the button of a key.
pub run_busy :
    (es : List Event)
    → (run es mounted).action_loading ≢ off
    → any (serves (run es mounted).action_loading) (run es mounted).calls ≡ true
unfolding mounted fetch_keys
run_busy es busy = served _ _ (run-IsAwaited es mounted tt) busy
