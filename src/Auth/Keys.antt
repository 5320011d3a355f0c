-- ===== src/Auth/Keys.antt =====
-- The messages of clientlibs/js/proto/auth/auth.ts about API keys, and their bytes.
pub mod Trips
pub mod Deliveries
use vectron.Gateway.Wire.{
  Bytes, Wire, Reader, Switch, unmatched, ◌then_write◌, write_all, take_into, take_message, field,
  string_field, bool_field, int32_field, int64_field, uint32_field, optional_field, message_field,
  decode_all,
}
use vectron.Prelude.{
  ℕ, String, Bool, false, Option, none, some, List, [], ◌∷◌, ◌++◌, ℤ, pos, ◌==◌, if◌then◌else◌,
}

pub record ApiKey : Type 0 where
  pub key_prefix : String
  pub user_id : String
  pub created_at : String
  pub name : String

pub record CreateApiKeyRequest : Type 0 where
  pub name : String

pub record CreateApiKeyResponse : Type 0 where
  pub full_key : String
  pub key_info : Option ApiKey

pub data ListApiKeysRequest : Type 0 where
  list_api_keys_request : ListApiKeysRequest

pub record ListApiKeysResponse : Type 0 where
  pub keys : List ApiKey

pub record DeleteApiKeyRequest : Type 0 where
  pub key_prefix : String

pub record DeleteApiKeyResponse : Type 0 where
  pub success : Bool

module _ {F : Type 0} (x : Wire F) where
  unfoldable pub encode_api_key : ApiKey → Option Bytes
  encode_api_key m = string_field x 10 m.key_prefix then_write (
      string_field x 18 m.user_id
      then_write (int64_field x 24 m.created_at then_write string_field x 34 m.name))

  abbrev pub base_api_key : ApiKey
  base_api_key = record { key_prefix = ""; user_id = ""; created_at = "0"; name = "" }

  unfoldable pub api_key_field : ℕ → ApiKey → Reader → Switch ApiKey
  api_key_field tag m r =
      if tag == 10
      then take_into x.take_string (λ v. record m { key_prefix = v }) r
      else if tag == 18
      then take_into x.take_string (λ v. record m { user_id = v }) r
      else if tag == 24
      then take_into x.take_int64 (λ v. record m { created_at = v }) r
      else if tag == 34
      then take_into x.take_string (λ v. record m { name = v }) r
      else unmatched

  unfoldable pub decode_api_key : Bytes → Option ApiKey
  unfolding api_key_field
  decode_api_key bs = decode_all x api_key_field base_api_key bs

  unfoldable pub encode_create_api_key_request : CreateApiKeyRequest → Option Bytes
  encode_create_api_key_request m = string_field x 10 m.name

  abbrev pub base_create_api_key_request : CreateApiKeyRequest
  base_create_api_key_request = record { name = "" }

  unfoldable pub create_api_key_request_field :
      ℕ → CreateApiKeyRequest → Reader → Switch CreateApiKeyRequest
  create_api_key_request_field tag m r =
      if tag == 10 then take_into x.take_string (λ v. record m { name = v }) r else unmatched

  unfoldable pub decode_create_api_key_request : Bytes → Option CreateApiKeyRequest
  unfolding create_api_key_request_field
  decode_create_api_key_request bs =
      decode_all x create_api_key_request_field base_create_api_key_request bs

  unfoldable pub encode_create_api_key_response : CreateApiKeyResponse → Option Bytes
  unfolding encode_api_key
  encode_create_api_key_response m =
      string_field x 10 m.full_key then_write optional_field x 18 encode_api_key m.key_info

  abbrev pub base_create_api_key_response : CreateApiKeyResponse
  base_create_api_key_response = record { full_key = ""; key_info = none }

  unfoldable pub create_api_key_response_field :
      ℕ → CreateApiKeyResponse → Reader → Switch CreateApiKeyResponse
  create_api_key_response_field tag m r =
      if tag == 10
      then take_into x.take_string (λ v. record m { full_key = v }) r
      else if tag == 18
      then take_message x api_key_field base_api_key (λ v. record m { key_info = some v }) r
      else unmatched

  unfoldable pub decode_create_api_key_response : Bytes → Option CreateApiKeyResponse
  unfolding create_api_key_response_field
  decode_create_api_key_response bs =
      decode_all x create_api_key_response_field base_create_api_key_response bs

  unfoldable pub encode_list_api_keys_request : ListApiKeysRequest → Option Bytes
  encode_list_api_keys_request m = some []

  abbrev pub base_list_api_keys_request : ListApiKeysRequest
  base_list_api_keys_request = list_api_keys_request

  unfoldable pub list_api_keys_request_field :
      ℕ → ListApiKeysRequest → Reader → Switch ListApiKeysRequest
  list_api_keys_request_field tag m r = unmatched

  unfoldable pub decode_list_api_keys_request : Bytes → Option ListApiKeysRequest
  unfolding list_api_keys_request_field
  decode_list_api_keys_request bs =
      decode_all x list_api_keys_request_field base_list_api_keys_request bs

  unfoldable pub encode_list_api_keys_response : ListApiKeysResponse → Option Bytes
  unfolding encode_api_key
  encode_list_api_keys_response m = write_all (λ v. message_field x 10 (encode_api_key v)) m.keys

  abbrev pub base_list_api_keys_response : ListApiKeysResponse
  base_list_api_keys_response = record { keys = [] }

  unfoldable pub list_api_keys_response_field :
      ℕ → ListApiKeysResponse → Reader → Switch ListApiKeysResponse
  list_api_keys_response_field tag m r =
      if tag == 10
      then take_message x api_key_field base_api_key (λ v. record m { keys = m.keys ++ (v ∷ []) }) r
      else unmatched

  unfoldable pub decode_list_api_keys_response : Bytes → Option ListApiKeysResponse
  unfolding list_api_keys_response_field
  decode_list_api_keys_response bs =
      decode_all x list_api_keys_response_field base_list_api_keys_response bs

  unfoldable pub encode_delete_api_key_request : DeleteApiKeyRequest → Option Bytes
  encode_delete_api_key_request m = string_field x 10 m.key_prefix

  abbrev pub base_delete_api_key_request : DeleteApiKeyRequest
  base_delete_api_key_request = record { key_prefix = "" }

  unfoldable pub delete_api_key_request_field :
      ℕ → DeleteApiKeyRequest → Reader → Switch DeleteApiKeyRequest
  delete_api_key_request_field tag m r =
      if tag == 10 then take_into x.take_string (λ v. record m { key_prefix = v }) r else unmatched

  unfoldable pub decode_delete_api_key_request : Bytes → Option DeleteApiKeyRequest
  unfolding delete_api_key_request_field
  decode_delete_api_key_request bs =
      decode_all x delete_api_key_request_field base_delete_api_key_request bs

  unfoldable pub encode_delete_api_key_response : DeleteApiKeyResponse → Option Bytes
  encode_delete_api_key_response m = bool_field x 8 m.success

  abbrev pub base_delete_api_key_response : DeleteApiKeyResponse
  base_delete_api_key_response = record { success = false }

  unfoldable pub delete_api_key_response_field :
      ℕ → DeleteApiKeyResponse → Reader → Switch DeleteApiKeyResponse
  delete_api_key_response_field tag m r =
      if tag == 8 then take_into x.take_bool (λ v. record m { success = v }) r else unmatched

  unfoldable pub decode_delete_api_key_response : Bytes → Option DeleteApiKeyResponse
  unfolding delete_api_key_response_field
  decode_delete_api_key_response bs =
      decode_all x delete_api_key_response_field base_delete_api_key_response bs
