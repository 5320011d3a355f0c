-- ===== src/Gateway/Codec/Profiles/Trips.antt =====
-- The messages of clientlibs/js/proto/apigateway/apigateway.ts about user profiles are decoded as
-- they were encoded.
use vectron.Prelude.{◌≡◌, refl, some}
use vectron.Gateway.Wire.{Bytes, Wire, IsSound}
use vectron.Gateway.Wire.Reads.{Writes, decode_all-Reads}
use vectron.Gateway.Wire.Fields.{int32_field-Writes, optional-Writes, read_option}
use vectron.Auth.Accounts.{user_profile_field, base_user_profile, encode_user_profile}
use vectron.Auth.Accounts.Trips.{user_profile-Writes, user_profile_as_read}
use vectron.Gateway.Codec.Profiles.{
  UpdateUserProfileRequest, update_user_profile_request_field, base_update_user_profile_request,
  encode_update_user_profile_request, decode_update_user_profile_request, UpdateUserProfileResponse,
  update_user_profile_response_field, base_update_user_profile_response,
  encode_update_user_profile_response, decode_update_user_profile_response,
}

module _ {F : Type 0} (x : Wire F) (sound : IsSound x) where
  pub update_user_profile_request-Writes :
      (m : UpdateUserProfileRequest)
      → Writes x
          (update_user_profile_request_field x)
          (encode_update_user_profile_request x m)
          (base_update_user_profile_request x)
          m
  unfolding encode_update_user_profile_request update_user_profile_request_field
  update_user_profile_request-Writes m =
      let switch = update_user_profile_request_field x in
      int32_field-Writes x switch sound 8 (λ v. record { plan = v }) m.plan (λ r. refl)

  pub decode_update_user_profile_request-encode :
      (m : UpdateUserProfileRequest) (bs : Bytes)
      → encode_update_user_profile_request x m ≡ some bs
      → decode_update_user_profile_request x bs ≡ some m
  unfolding decode_update_user_profile_request
  decode_update_user_profile_request-encode m bs e =
      decode_all-Reads x (update_user_profile_request_field x) bs _ m
        (update_user_profile_request-Writes m bs e)

  -- What is read of a `UpdateUserProfileResponse`.
  abbrev pub update_user_profile_response_as_read :
      UpdateUserProfileResponse → UpdateUserProfileResponse
  update_user_profile_response_as_read m = record m {
    user = read_option ((user_profile_as_read x sound)) m.user;
  }

  pub update_user_profile_response-Writes :
      (m : UpdateUserProfileResponse)
      → Writes x
          (update_user_profile_response_field x)
          (encode_update_user_profile_response x m)
          (base_update_user_profile_response x)
          (update_user_profile_response_as_read m)
  unfolding encode_update_user_profile_response update_user_profile_response_field
  update_user_profile_response-Writes m =
      let switch = update_user_profile_response_field x in
      optional-Writes x switch sound (user_profile_field x) 10 (base_user_profile x)
        (λ v. record { user = v }) (encode_user_profile x) (user_profile_as_read x sound) m.user
        (λ r. refl) (user_profile-Writes x sound)

  pub decode_update_user_profile_response-encode :
      (m : UpdateUserProfileResponse) (bs : Bytes)
      → encode_update_user_profile_response x m ≡ some bs
      → decode_update_user_profile_response x bs ≡ some (update_user_profile_response_as_read m)
  unfolding decode_update_user_profile_response
  decode_update_user_profile_response-encode m bs e =
      decode_all-Reads x (update_user_profile_response_field x) bs _
        (update_user_profile_response_as_read m) (update_user_profile_response-Writes m bs e)
