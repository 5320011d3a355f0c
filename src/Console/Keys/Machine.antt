-- ===== src/Console/Keys/Machine.antt =====
-- The component of auth/frontend/src/components/ApiKeyManager.tsx as a machine: an event is something
-- that its user does, or the end of a request.
use vectron.Prelude.{
  ℕ, String, Bool, true, false, none, some, List, [], ◌∷◌, get_elem?, remove_at, not, ◌&&◌, str_eq,
  if◌then◌else◌,
}
use vectron.Console.Keys.{
  ApiKey, KeyPage, Reply, ActionLoading, off, on, on_key, handle_create_key, handle_delete_key,
  handle_delete_confirmation, handle_get_sdk_jwt, call_ended,
}

pub data Event : Type 0 where
  types_name : String → Event
  creates : Event
  presses_enter : Event
  confirms_deletion : String → Event
  deletes : Event
  gets_jwt : ApiKey → Event
  opens_create : Event
  closes_create : Event
  closes_delete : Event
  closes_token : Event
  closes_jwt : Event
  closes_toast : Event
  replies : ℕ → Reply → Event

-- `actionLoading === true`
abbrev pub is_on : ActionLoading → Bool
is_on on = true
is_on off = false
is_on (on_key prefix) = false

-- `actionLoading === key.keyPrefix`
abbrev pub is_on_key : String → ActionLoading → Bool
is_on_key key_prefix on = false
is_on_key key_prefix off = false
is_on_key key_prefix (on_key prefix) = str_eq prefix key_prefix

-- The buttons are disabled or absent as the component renders them; Enter in the field for the name
-- creates a key also while the button is disabled.
unfoldable pub handle : Event → KeyPage → KeyPage
unfolding handle_create_key handle_delete_key handle_get_sdk_jwt call_ended
handle (types_name s) p = record p { new_key_name = s }
handle creates p =
    if p.open_create_dialog && not (is_on p.action_loading) then handle_create_key p else p
handle presses_enter p = if p.open_create_dialog then handle_create_key p else p
handle (confirms_deletion prefix) p = handle_delete_confirmation prefix p
handle deletes p =
    if p.open_delete_dialog && not (is_on p.action_loading) then handle_delete_key p else p
handle (gets_jwt key) p =
    if is_on_key key.key_prefix p.action_loading then p else handle_get_sdk_jwt key p
handle opens_create p = record p { open_create_dialog = true }
handle closes_create p = record p { open_create_dialog = false }
handle closes_delete p = record p { open_delete_dialog = false }
handle closes_token p = record p { newly_generated_token = none }
handle closes_jwt p = record p { sdk_jwt = none }
handle closes_toast p = record p { toast_message = none }
handle (replies i r) p = elim (get_elem? p.calls i) [
  | none ↦ p
  | some c ↦ call_ended c r (record p { calls = remove_at i p.calls })
]

unfoldable pub run : List Event → KeyPage → KeyPage
unfolding handle
run [] p = p
run (e ∷ es) p = run es (handle e p)
