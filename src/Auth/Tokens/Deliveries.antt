-- ===== src/Auth/Tokens/Deliveries.antt =====
-- The messages of clientlibs/js/proto/auth/auth.ts about keys in use and SDK tokens that are
-- written without an exception.
use vectron.Prelude.{arith}
use vectron.Gateway.Wire.{Wire, IsSound}
use vectron.Gateway.Wire.Returns.{
  Returns, IsInt32, Returns-then, Returns-string, Returns-bool, Returns-int32,
}
use vectron.Auth.Tokens.{
  ValidateApiKeyRequest, encode_validate_api_key_request, ValidateApiKeyResponse,
  encode_validate_api_key_response, CreateSdkJwtRequest, encode_create_sdk_jwt_request,
  CreateSdkJwtResponse, encode_create_sdk_jwt_response, GetAuthDetailsForSdkRequest,
  encode_get_auth_details_for_sdk_request, GetAuthDetailsForSdkResponse,
  encode_get_auth_details_for_sdk_response,
}

module _ {F : Type 0} (x : Wire F) (sound : IsSound x) where
  pub validate_api_key_request-Returns :
      (m : ValidateApiKeyRequest) → Returns (encode_validate_api_key_request x m)
  unfolding encode_validate_api_key_request
  validate_api_key_request-Returns m = Returns-string x sound 10 m.full_key (omega arith)

  pub validate_api_key_response-Returns :
      (m : ValidateApiKeyResponse) → Returns (encode_validate_api_key_response x m)
  unfolding encode_validate_api_key_response
  validate_api_key_response-Returns m =
      Returns-then _ _ (Returns-bool x sound 8 m.valid (omega arith)) (
        Returns-then _ _ (Returns-string x sound 18 m.user_id (omega arith)) (
          Returns-then _ _ (Returns-string x sound 26 m.plan (omega arith))
            (Returns-string x sound 34 m.api_key_id (omega arith))))

  pub create_sdk_jwt_request-Returns :
      (m : CreateSdkJwtRequest) → Returns (encode_create_sdk_jwt_request x m)
  unfolding encode_create_sdk_jwt_request
  create_sdk_jwt_request-Returns m = Returns-string x sound 10 m.api_key_id (omega arith)

  pub create_sdk_jwt_response-Returns :
      (m : CreateSdkJwtResponse) → Returns (encode_create_sdk_jwt_response x m)
  unfolding encode_create_sdk_jwt_response
  create_sdk_jwt_response-Returns m = Returns-string x sound 10 m.sdk_jwt (omega arith)

  pub get_auth_details_for_sdk_request-Returns :
      (m : GetAuthDetailsForSdkRequest) → Returns (encode_get_auth_details_for_sdk_request x m)
  unfolding encode_get_auth_details_for_sdk_request
  get_auth_details_for_sdk_request-Returns m = Returns-string x sound 10 m.api_key_id (omega arith)

  -- What the writer asks of a `GetAuthDetailsForSDKResponse`.
  abbrev pub GetAuthDetailsForSdkResponseFits : GetAuthDetailsForSdkResponse → Type 0
  GetAuthDetailsForSdkResponseFits m = IsInt32 m.plan

  pub get_auth_details_for_sdk_response-Returns :
      (m : GetAuthDetailsForSdkResponse)
      → GetAuthDetailsForSdkResponseFits m
      → Returns (encode_get_auth_details_for_sdk_response x m)
  unfolding encode_get_auth_details_for_sdk_response
  get_auth_details_for_sdk_response-Returns m h0 =
      Returns-then _ _ (Returns-string x sound 10 m.user_id (omega arith)) (
        Returns-then _ _ (Returns-int32 x sound 16 m.plan (omega arith) h0)
          (Returns-bool x sound 24 m.success (omega arith)))
