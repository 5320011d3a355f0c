-- ===== src/Console/Keys.antt =====
-- The API keys of a user of the web console: auth/frontend/src/components/ApiKeyManager.tsx, its
-- state and handlers. The feedback on a copied text is left out.
pub mod Machine
pub mod Flows
pub mod Awaited
use Prim.Native.String.{◌++◌ as str_append}
use vectron.Prelude.{
  ℕ, String, Bool, true, false, Option, none, some, List, [], ◌∷◌, ◌++◌, map, get_elem?, remove_at,
  ℤ, pos, str_eq, is_empty_str, if◌then◌else◌, or_else,
}
use vectron.Console.Text.{trim}

pub record ApiKey : Type 0 where
  pub key_prefix : String
  pub user_id : String
  pub created_at : ℤ
  pub name : String

-- A key as the service sends it, its fields in either spelling or missing.
pub record RawKey : Type 0 where
  pub camel_key_prefix : Option String
  pub snake_key_prefix : Option String
  pub camel_user_id : Option String
  pub snake_user_id : Option String
  pub camel_created_at : Option ℤ
  pub snake_created_at : Option ℤ
  pub name : Option String

-- `a ?? b ?? fallback`
abbrev pub either_or {ℓ} : {A : Type ℓ} → Option A → Option A → A → A
either_or a b fallback = or_else a (or_else b fallback)

unfoldable pub normalize_key : RawKey → ApiKey
normalize_key key = record {
  key_prefix = either_or key.camel_key_prefix key.snake_key_prefix "";
  user_id = either_or key.camel_user_id key.snake_user_id "";
  created_at = either_or key.camel_created_at key.snake_created_at (pos 0);
  name = or_else key.name "";
}

-- `a || b` of texts.
abbrev pub text_or : String → String → String
text_or a b = if is_empty_str a then b else a

-- The fields of an answer that the component reads, `""`, `none` and `[]` for the missing ones.
pub record KeyAnswer : Type 0 where
  pub keys : List RawKey
  pub camel_key_info : Option RawKey
  pub snake_key_info : Option RawKey
  pub camel_sdk_jwt : String
  pub snake_sdk_jwt : String

unfoldable pub normalize_sdk_jwt : KeyAnswer → String
normalize_sdk_jwt answer = text_or answer.camel_sdk_jwt (text_or answer.snake_sdk_jwt "")

pub data ToastType : Type 0 where
  success : ToastType
  danger : ToastType
  info : ToastType

pub record ToastMessage : Type 0 where
  pub message : String
  pub type_ : ToastType

-- `actionLoading`: false, true, or the prefix of a key.
pub data ActionLoading : Type 0 where
  off : ActionLoading
  on : ActionLoading
  on_key : String → ActionLoading

-- The requests. The one for a token is either the second of a creation or on its own.
pub data KeyCall : Type 0 where
  list_keys : KeyCall
  create_key : String → KeyCall
  jwt_of_new : String → KeyCall
  jwt_of : ApiKey → KeyCall
  delete_key : String → KeyCall

pub record KeyPage : Type 0 where
  pub keys : List ApiKey
  pub new_key_name : String
  pub newly_generated_token : Option String
  pub sdk_jwt : Option String
  pub key_for_jwt : Option ApiKey
  pub loading : Bool
  pub action_loading : ActionLoading
  pub toast_message : Option ToastMessage
  pub open_delete_dialog : Bool
  pub open_create_dialog : Bool
  pub key_to_delete : Option String
  pub calls : List KeyCall

abbrev pub toasted : ToastType → String → KeyPage → KeyPage
toasted type_ message p = record p {
  toast_message = some (record { message = message; type_ = type_ });
}

abbrev pub call : KeyCall → KeyPage → KeyPage
call c p = record p { calls = p.calls ++ (c ∷ []) }

-- `fetchKeys`, up to its `await`.
unfoldable pub fetch_keys : KeyPage → KeyPage
fetch_keys p = call list_keys (record p { loading = true })

unfoldable pub mounted : KeyPage
unfolding fetch_keys
mounted = fetch_keys (record {
  keys = [];
  new_key_name = "";
  newly_generated_token = none;
  sdk_jwt = none;
  key_for_jwt = none;
  loading = false;
  action_loading = off;
  toast_message = none;
  open_delete_dialog = false;
  open_create_dialog = false;
  key_to_delete = none;
  calls = [];
})

-- `handleCreateKey`, up to its first `await`.
unfoldable pub handle_create_key : KeyPage → KeyPage
unfolding trim
handle_create_key p =
    if is_empty_str (trim p.new_key_name)
    then toasted danger "Please provide a name for the key." p
    else call (create_key p.new_key_name)
        (record p { action_loading = on; newly_generated_token = none })

abbrev pub handle_delete_confirmation : String → KeyPage → KeyPage
handle_delete_confirmation prefix p = record p {
  key_to_delete = some prefix;
  open_delete_dialog = true;
}

-- `handleDeleteKey`, up to its `await`.
unfoldable pub handle_delete_key : KeyPage → KeyPage
handle_delete_key p = elim p.key_to_delete [
  | none ↦ p
  | some prefix ↦
      if is_empty_str prefix then p else call (delete_key prefix) (record p { action_loading = on })
]

-- `handleGetSdkJwt`, up to its `await`.
unfoldable pub handle_get_sdk_jwt : ApiKey → KeyPage → KeyPage
handle_get_sdk_jwt key p = call (jwt_of key) (record p { action_loading = on_key key.key_prefix })

-- `prev.filter((k) => k.keyPrefix !== keyToDelete)`
abbrev pub without_key : String → List ApiKey → List ApiKey
without_key prefix [] = []
without_key prefix (k ∷ ks) =
    let rest = without_key prefix ks in if str_eq k.key_prefix prefix then rest else k ∷ rest

pub data Reply : Type 0 where
  answered : KeyAnswer → Reply
  refused : String → Reply

-- The `catch` and the `finally` of a creation.
abbrev pub creation_failed : String → KeyPage → KeyPage
creation_failed message p =
    record (toasted danger (text_or message "Failed to complete key creation process.") p) {
      action_loading = off;
      open_create_dialog = false;
    }

-- `keyInfo || key_info` has come.
abbrev pub key_created : Option RawKey → KeyPage → KeyPage
key_created none p = creation_failed "" p
key_created (some key) p =
    if is_empty_str (normalize_key key).key_prefix
    then creation_failed "" p
    else call (jwt_of_new (normalize_key key).key_prefix) p

abbrev pub info_of : KeyAnswer → Option RawKey
info_of answer = elim answer.camel_key_info [ none ↦ answer.snake_key_info | some key ↦ some key ]

-- What follows a request.
unfoldable pub call_ended : KeyCall → Reply → KeyPage → KeyPage
unfolding normalize_key normalize_sdk_jwt fetch_keys
call_ended list_keys (answered a) p = record p { keys = map normalize_key a.keys; loading = false }
call_ended list_keys (refused message) p = record (toasted danger "Failed to fetch API keys." p) {
  loading = false;
}
call_ended (create_key name) (answered a) p = key_created (info_of a) p
call_ended (create_key name) (refused message) p = creation_failed message p
call_ended (jwt_of_new prefix) (answered a) p =
    record (toasted success "API Key and SDK JWT created successfully" (
      fetch_keys
        (record p { newly_generated_token = some (normalize_sdk_jwt a); new_key_name = "" }))) {
          action_loading = off;
          open_create_dialog = false;
        }
call_ended (jwt_of_new prefix) (refused message) p = creation_failed message p
call_ended (jwt_of key) (answered a) p = record (toasted success "SDK JWT created" p) {
  sdk_jwt = some (normalize_sdk_jwt a);
  key_for_jwt = some key;
  action_loading = off;
}
call_ended (jwt_of key) (refused message) p =
    record (toasted danger (text_or message "Failed to create SDK JWT.") p) { action_loading = off }
call_ended (delete_key prefix) (answered a) p =
    record (toasted success "Key revoked successfully" p) {
      keys = without_key prefix p.keys;
      action_loading = off;
      open_delete_dialog = false;
      key_to_delete = none;
    }
call_ended (delete_key prefix) (refused message) p =
    record (fetch_keys (toasted danger (text_or message "Failed to revoke key.") p)) {
      action_loading = off;
      open_delete_dialog = false;
      key_to_delete = none;
    }
