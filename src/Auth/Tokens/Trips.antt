-- ===== src/Auth/Tokens/Trips.antt =====
-- The messages of clientlibs/js/proto/auth/auth.ts about keys in use and SDK tokens are decoded
-- as they were encoded.
use vectron.Prelude.{◌≡◌, refl, String, Bool, false, some, ℤ, pos}
use vectron.Gateway.Wire.{Bytes, Wire, IsSound}
use vectron.Gateway.Wire.Reads.{Writes, Writes-then, decode_all-Reads}
use vectron.Gateway.Wire.Fields.{string_field-Writes, bool_field-Writes, int32_field-Writes}
use vectron.Auth.Tokens.{
  ValidateApiKeyRequest, validate_api_key_request_field, base_validate_api_key_request,
  encode_validate_api_key_request, decode_validate_api_key_request, ValidateApiKeyResponse,
  validate_api_key_response_field, base_validate_api_key_response, encode_validate_api_key_response,
  decode_validate_api_key_response, CreateSdkJwtRequest, create_sdk_jwt_request_field,
  base_create_sdk_jwt_request, encode_create_sdk_jwt_request, decode_create_sdk_jwt_request,
  CreateSdkJwtResponse, create_sdk_jwt_response_field, base_create_sdk_jwt_response,
  encode_create_sdk_jwt_response, decode_create_sdk_jwt_response, GetAuthDetailsForSdkRequest,
  get_auth_details_for_sdk_request_field, base_get_auth_details_for_sdk_request,
  encode_get_auth_details_for_sdk_request, decode_get_auth_details_for_sdk_request,
  GetAuthDetailsForSdkResponse, get_auth_details_for_sdk_response_field,
  base_get_auth_details_for_sdk_response, encode_get_auth_details_for_sdk_response,
  decode_get_auth_details_for_sdk_response,
}

module _ {F : Type 0} (x : Wire F) (sound : IsSound x) where
  pub validate_api_key_request-Writes :
      (m : ValidateApiKeyRequest)
      → Writes x
          (validate_api_key_request_field x)
          (encode_validate_api_key_request x m)
          (base_validate_api_key_request x)
          m
  unfolding encode_validate_api_key_request validate_api_key_request_field
  validate_api_key_request-Writes m =
      let switch = validate_api_key_request_field x in
      string_field-Writes x switch sound 10 (λ v. record { full_key = v }) m.full_key (λ r. refl)

  pub decode_validate_api_key_request-encode :
      (m : ValidateApiKeyRequest) (bs : Bytes)
      → encode_validate_api_key_request x m ≡ some bs
      → decode_validate_api_key_request x bs ≡ some m
  unfolding decode_validate_api_key_request
  decode_validate_api_key_request-encode m bs e =
      decode_all-Reads x (validate_api_key_request_field x) bs _ m
        (validate_api_key_request-Writes m bs e)

  pub validate_api_key_response-Writes :
      (m : ValidateApiKeyResponse)
      → Writes x
          (validate_api_key_response_field x)
          (encode_validate_api_key_response x m)
          (base_validate_api_key_response x)
          m
  unfolding encode_validate_api_key_response validate_api_key_response_field
  validate_api_key_response-Writes m =
      let switch = validate_api_key_response_field x in
      let made : Bool → String → String → String → ValidateApiKeyResponse =
        λ a b c d. record { valid = a; user_id = b; plan = c; api_key_id = d } in
      Writes-then x switch _ _ _ (made m.valid "" "" "") _
        (bool_field-Writes x switch sound 8 (λ v. made v "" "" "") m.valid (λ r. refl))
        (Writes-then x switch _ _ _ (made m.valid m.user_id "" "") _
          (string_field-Writes x switch sound 18 (λ v. made m.valid v "" "") m.user_id (λ r. refl))
          (Writes-then x switch _ _ _ (made m.valid m.user_id m.plan "") _
            (string_field-Writes x switch sound 26 (λ v. made m.valid m.user_id v "") m.plan
              (λ r. refl))
            (string_field-Writes x switch sound 34 (λ v. made m.valid m.user_id m.plan v)
              m.api_key_id (λ r. refl))))

  pub decode_validate_api_key_response-encode :
      (m : ValidateApiKeyResponse) (bs : Bytes)
      → encode_validate_api_key_response x m ≡ some bs
      → decode_validate_api_key_response x bs ≡ some m
  unfolding decode_validate_api_key_response
  decode_validate_api_key_response-encode m bs e =
      decode_all-Reads x (validate_api_key_response_field x) bs _ m
        (validate_api_key_response-Writes m bs e)

  pub create_sdk_jwt_request-Writes :
      (m : CreateSdkJwtRequest)
      → Writes x
          (create_sdk_jwt_request_field x)
          (encode_create_sdk_jwt_request x m)
          (base_create_sdk_jwt_request x)
          m
  unfolding encode_create_sdk_jwt_request create_sdk_jwt_request_field
  create_sdk_jwt_request-Writes m =
      let switch = create_sdk_jwt_request_field x in
      string_field-Writes x switch sound 10 (λ v. record { api_key_id = v }) m.api_key_id
        (λ r. refl)

  pub decode_create_sdk_jwt_request-encode :
      (m : CreateSdkJwtRequest) (bs : Bytes)
      → encode_create_sdk_jwt_request x m ≡ some bs
      → decode_create_sdk_jwt_request x bs ≡ some m
  unfolding decode_create_sdk_jwt_request
  decode_create_sdk_jwt_request-encode m bs e =
      decode_all-Reads x (create_sdk_jwt_request_field x) bs _ m
        (create_sdk_jwt_request-Writes m bs e)

  pub create_sdk_jwt_response-Writes :
      (m : CreateSdkJwtResponse)
      → Writes x
          (create_sdk_jwt_response_field x)
          (encode_create_sdk_jwt_response x m)
          (base_create_sdk_jwt_response x)
          m
  unfolding encode_create_sdk_jwt_response create_sdk_jwt_response_field
  create_sdk_jwt_response-Writes m =
      let switch = create_sdk_jwt_response_field x in
      string_field-Writes x switch sound 10 (λ v. record { sdk_jwt = v }) m.sdk_jwt (λ r. refl)

  pub decode_create_sdk_jwt_response-encode :
      (m : CreateSdkJwtResponse) (bs : Bytes)
      → encode_create_sdk_jwt_response x m ≡ some bs
      → decode_create_sdk_jwt_response x bs ≡ some m
  unfolding decode_create_sdk_jwt_response
  decode_create_sdk_jwt_response-encode m bs e =
      decode_all-Reads x (create_sdk_jwt_response_field x) bs _ m
        (create_sdk_jwt_response-Writes m bs e)

  pub get_auth_details_for_sdk_request-Writes :
      (m : GetAuthDetailsForSdkRequest)
      → Writes x
          (get_auth_details_for_sdk_request_field x)
          (encode_get_auth_details_for_sdk_request x m)
          (base_get_auth_details_for_sdk_request x)
          m
  unfolding encode_get_auth_details_for_sdk_request get_auth_details_for_sdk_request_field
  get_auth_details_for_sdk_request-Writes m =
      let switch = get_auth_details_for_sdk_request_field x in
      string_field-Writes x switch sound 10 (λ v. record { api_key_id = v }) m.api_key_id
        (λ r. refl)

  pub decode_get_auth_details_for_sdk_request-encode :
      (m : GetAuthDetailsForSdkRequest) (bs : Bytes)
      → encode_get_auth_details_for_sdk_request x m ≡ some bs
      → decode_get_auth_details_for_sdk_request x bs ≡ some m
  unfolding decode_get_auth_details_for_sdk_request
  decode_get_auth_details_for_sdk_request-encode m bs e =
      decode_all-Reads x (get_auth_details_for_sdk_request_field x) bs _ m
        (get_auth_details_for_sdk_request-Writes m bs e)

  pub get_auth_details_for_sdk_response-Writes :
      (m : GetAuthDetailsForSdkResponse)
      → Writes x
          (get_auth_details_for_sdk_response_field x)
          (encode_get_auth_details_for_sdk_response x m)
          (base_get_auth_details_for_sdk_response x)
          m
  unfolding encode_get_auth_details_for_sdk_response get_auth_details_for_sdk_response_field
  get_auth_details_for_sdk_response-Writes m =
      let switch = get_auth_details_for_sdk_response_field x in
      let made : String → ℤ → Bool → GetAuthDetailsForSdkResponse =
        λ a b c. record { user_id = a; plan = b; success = c } in
      Writes-then x switch _ _ _ (made m.user_id (pos 0) false) _
        (string_field-Writes x switch sound 10 (λ v. made v (pos 0) false) m.user_id (λ r. refl))
        (Writes-then x switch _ _ _ (made m.user_id m.plan false) _
          (int32_field-Writes x switch sound 16 (λ v. made m.user_id v false) m.plan (λ r. refl))
          (bool_field-Writes x switch sound 24 (λ v. made m.user_id m.plan v) m.success
            (λ r. refl)))

  pub decode_get_auth_details_for_sdk_response-encode :
      (m : GetAuthDetailsForSdkResponse) (bs : Bytes)
      → encode_get_auth_details_for_sdk_response x m ≡ some bs
      → decode_get_auth_details_for_sdk_response x bs ≡ some m
  unfolding decode_get_auth_details_for_sdk_response
  decode_get_auth_details_for_sdk_response-encode m bs e =
      decode_all-Reads x (get_auth_details_for_sdk_response_field x) bs _ m
        (get_auth_details_for_sdk_response-Writes m bs e)
