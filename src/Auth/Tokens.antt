-- ===== src/Auth/Tokens.antt =====
-- The messages of clientlibs/js/proto/auth/auth.ts about keys in use and SDK tokens, and their
-- bytes.
pub mod Trips
pub mod Deliveries
use vectron.Gateway.Wire.{
  Bytes, Wire, Reader, Switch, unmatched, ◌then_write◌, write_all, take_into, take_message, field,
  string_field, bool_field, int32_field, int64_field, uint32_field, optional_field, message_field,
  decode_all,
}
use vectron.Prelude.{
  ℕ, String, Bool, false, Option, none, some, List, [], ◌∷◌, ◌++◌, ℤ, pos, ◌==◌, if◌then◌else◌,
}

pub record ValidateApiKeyRequest : Type 0 where
  pub full_key : String

pub record ValidateApiKeyResponse : Type 0 where
  pub valid : Bool
  pub user_id : String
  pub plan : String
  pub api_key_id : String

pub record CreateSdkJwtRequest : Type 0 where
  pub api_key_id : String

pub record CreateSdkJwtResponse : Type 0 where
  pub sdk_jwt : String

pub record GetAuthDetailsForSdkRequest : Type 0 where
  pub api_key_id : String

pub record GetAuthDetailsForSdkResponse : Type 0 where
  pub user_id : String
  pub plan : ℤ
  pub success : Bool

module _ {F : Type 0} (x : Wire F) where
  unfoldable pub encode_validate_api_key_request : ValidateApiKeyRequest → Option Bytes
  encode_validate_api_key_request m = string_field x 10 m.full_key

  abbrev pub base_validate_api_key_request : ValidateApiKeyRequest
  base_validate_api_key_request = record { full_key = "" }

  unfoldable pub validate_api_key_request_field :
      ℕ → ValidateApiKeyRequest → Reader → Switch ValidateApiKeyRequest
  validate_api_key_request_field tag m r =
      if tag == 10 then take_into x.take_string (λ v. record m { full_key = v }) r else unmatched

  unfoldable pub decode_validate_api_key_request : Bytes → Option ValidateApiKeyRequest
  unfolding validate_api_key_request_field
  decode_validate_api_key_request bs =
      decode_all x validate_api_key_request_field base_validate_api_key_request bs

  unfoldable pub encode_validate_api_key_response : ValidateApiKeyResponse → Option Bytes
  encode_validate_api_key_response m = bool_field x 8 m.valid then_write (
      string_field x 18 m.user_id
      then_write (string_field x 26 m.plan then_write string_field x 34 m.api_key_id))

  abbrev pub base_validate_api_key_response : ValidateApiKeyResponse
  base_validate_api_key_response = record {
    valid = false;
    user_id = "";
    plan = "";
    api_key_id = "";
  }

  unfoldable pub validate_api_key_response_field :
      ℕ → ValidateApiKeyResponse → Reader → Switch ValidateApiKeyResponse
  validate_api_key_response_field tag m r =
      if tag == 8
      then take_into x.take_bool (λ v. record m { valid = v }) r
      else if tag == 18
      then take_into x.take_string (λ v. record m { user_id = v }) r
      else if tag == 26
      then take_into x.take_string (λ v. record m { plan = v }) r
      else if tag == 34
      then take_into x.take_string (λ v. record m { api_key_id = v }) r
      else unmatched

  unfoldable pub decode_validate_api_key_response : Bytes → Option ValidateApiKeyResponse
  unfolding validate_api_key_response_field
  decode_validate_api_key_response bs =
      decode_all x validate_api_key_response_field base_validate_api_key_response bs

  unfoldable pub encode_create_sdk_jwt_request : CreateSdkJwtRequest → Option Bytes
  encode_create_sdk_jwt_request m = string_field x 10 m.api_key_id

  abbrev pub base_create_sdk_jwt_request : CreateSdkJwtRequest
  base_create_sdk_jwt_request = record { api_key_id = "" }

  unfoldable pub create_sdk_jwt_request_field :
      ℕ → CreateSdkJwtRequest → Reader → Switch CreateSdkJwtRequest
  create_sdk_jwt_request_field tag m r =
      if tag == 10 then take_into x.take_string (λ v. record m { api_key_id = v }) r else unmatched

  unfoldable pub decode_create_sdk_jwt_request : Bytes → Option CreateSdkJwtRequest
  unfolding create_sdk_jwt_request_field
  decode_create_sdk_jwt_request bs =
      decode_all x create_sdk_jwt_request_field base_create_sdk_jwt_request bs

  unfoldable pub encode_create_sdk_jwt_response : CreateSdkJwtResponse → Option Bytes
  encode_create_sdk_jwt_response m = string_field x 10 m.sdk_jwt

  abbrev pub base_create_sdk_jwt_response : CreateSdkJwtResponse
  base_create_sdk_jwt_response = record { sdk_jwt = "" }

  unfoldable pub create_sdk_jwt_response_field :
      ℕ → CreateSdkJwtResponse → Reader → Switch CreateSdkJwtResponse
  create_sdk_jwt_response_field tag m r =
      if tag == 10 then take_into x.take_string (λ v. record m { sdk_jwt = v }) r else unmatched

  unfoldable pub decode_create_sdk_jwt_response : Bytes → Option CreateSdkJwtResponse
  unfolding create_sdk_jwt_response_field
  decode_create_sdk_jwt_response bs =
      decode_all x create_sdk_jwt_response_field base_create_sdk_jwt_response bs

  unfoldable pub encode_get_auth_details_for_sdk_request :
      GetAuthDetailsForSdkRequest → Option Bytes
  encode_get_auth_details_for_sdk_request m = string_field x 10 m.api_key_id

  abbrev pub base_get_auth_details_for_sdk_request : GetAuthDetailsForSdkRequest
  base_get_auth_details_for_sdk_request = record { api_key_id = "" }

  unfoldable pub get_auth_details_for_sdk_request_field :
      ℕ → GetAuthDetailsForSdkRequest → Reader → Switch GetAuthDetailsForSdkRequest
  get_auth_details_for_sdk_request_field tag m r =
      if tag == 10 then take_into x.take_string (λ v. record m { api_key_id = v }) r else unmatched

  unfoldable pub decode_get_auth_details_for_sdk_request :
      Bytes → Option GetAuthDetailsForSdkRequest
  unfolding get_auth_details_for_sdk_request_field
  decode_get_auth_details_for_sdk_request bs =
      decode_all x get_auth_details_for_sdk_request_field base_get_auth_details_for_sdk_request bs

  unfoldable pub encode_get_auth_details_for_sdk_response :
      GetAuthDetailsForSdkResponse → Option Bytes
  encode_get_auth_details_for_sdk_response m =
      string_field x 10 m.user_id
      then_write (int32_field x 16 m.plan then_write bool_field x 24 m.success)

  abbrev pub base_get_auth_details_for_sdk_response : GetAuthDetailsForSdkResponse
  base_get_auth_details_for_sdk_response = record { user_id = ""; plan = pos 0; success = false }

  unfoldable pub get_auth_details_for_sdk_response_field :
      ℕ → GetAuthDetailsForSdkResponse → Reader → Switch GetAuthDetailsForSdkResponse
  get_auth_details_for_sdk_response_field tag m r =
      if tag == 10
      then take_into x.take_string (λ v. record m { user_id = v }) r
      else if tag == 16
      then take_into x.take_int32 (λ v. record m { plan = v }) r
      else if tag == 24
      then take_into x.take_bool (λ v. record m { success = v }) r
      else unmatched

  unfoldable pub decode_get_auth_details_for_sdk_response :
      Bytes → Option GetAuthDetailsForSdkResponse
  unfolding get_auth_details_for_sdk_response_field
  decode_get_auth_details_for_sdk_response bs =
      decode_all x get_auth_details_for_sdk_response_field base_get_auth_details_for_sdk_response bs
