-- ===== src/Auth/Profiles/Trips.antt =====
-- The messages of clientlibs/js/proto/auth/auth.ts about profiles and sessions are decoded as
-- they were encoded.
use vectron.Prelude.{◌≡◌, refl, String, Option, some}
use vectron.Gateway.Wire.{Bytes, Wire, IsSound}
use vectron.Gateway.Wire.Reads.{Writes, Writes-then, Writes-nil, decode_all-Reads}
use vectron.Gateway.Wire.Fields.{
  string_field-Writes, int32_field-Writes, int64_field-Writes, optional-Writes, read_option,
}
use vectron.Auth.Accounts.{UserProfile, user_profile_field, base_user_profile, encode_user_profile}
use vectron.Auth.Accounts.Trips.{user_profile-Writes, user_profile_as_read}
use vectron.Auth.Profiles.{
  GetUserProfileRequest, get_user_profile_request_field, base_get_user_profile_request,
  encode_get_user_profile_request, decode_get_user_profile_request, get_user_profile_request,
  GetUserProfileResponse, get_user_profile_response_field, base_get_user_profile_response,
  encode_get_user_profile_response, decode_get_user_profile_response, UpdateUserProfileRequest,
  update_user_profile_request_field, base_update_user_profile_request,
  encode_update_user_profile_request, decode_update_user_profile_request, UpdateUserProfileResponse,
  update_user_profile_response_field, base_update_user_profile_response,
  encode_update_user_profile_response, decode_update_user_profile_response, RefreshTokenRequest,
  refresh_token_request_field, base_refresh_token_request, encode_refresh_token_request,
  decode_refresh_token_request, refresh_token_request, RefreshTokenResponse,
  refresh_token_response_field, base_refresh_token_response, encode_refresh_token_response,
  decode_refresh_token_response,
}

module _ {F : Type 0} (x : Wire F) (sound : IsSound x) where
  pub get_user_profile_request-Writes :
      (m : GetUserProfileRequest)
      → Writes x
          (get_user_profile_request_field x)
          (encode_get_user_profile_request x m)
          (base_get_user_profile_request x)
          m
  unfolding encode_get_user_profile_request get_user_profile_request_field
  get_user_profile_request-Writes get_user_profile_request =
      Writes-nil x (get_user_profile_request_field x) get_user_profile_request

  pub decode_get_user_profile_request-encode :
      (m : GetUserProfileRequest) (bs : Bytes)
      → encode_get_user_profile_request x m ≡ some bs
      → decode_get_user_profile_request x bs ≡ some m
  unfolding decode_get_user_profile_request
  decode_get_user_profile_request-encode m bs e =
      decode_all-Reads x (get_user_profile_request_field x) bs _ m
        (get_user_profile_request-Writes m bs e)

  -- What is read of a `GetUserProfileResponse`.
  abbrev pub get_user_profile_response_as_read : GetUserProfileResponse → GetUserProfileResponse
  get_user_profile_response_as_read m = record m {
    user = read_option ((user_profile_as_read x sound)) m.user;
  }

  pub get_user_profile_response-Writes :
      (m : GetUserProfileResponse)
      → Writes x
          (get_user_profile_response_field x)
          (encode_get_user_profile_response x m)
          (base_get_user_profile_response x)
          (get_user_profile_response_as_read m)
  unfolding encode_get_user_profile_response get_user_profile_response_field
  get_user_profile_response-Writes m =
      let switch = get_user_profile_response_field x in
      optional-Writes x switch sound (user_profile_field x) 10 (base_user_profile x)
        (λ v. record { user = v }) (encode_user_profile x) (user_profile_as_read x sound) m.user
        (λ r. refl) (user_profile-Writes x sound)

  pub decode_get_user_profile_response-encode :
      (m : GetUserProfileResponse) (bs : Bytes)
      → encode_get_user_profile_response x m ≡ some bs
      → decode_get_user_profile_response x bs ≡ some (get_user_profile_response_as_read m)
  unfolding decode_get_user_profile_response
  decode_get_user_profile_response-encode m bs e =
      decode_all-Reads x (get_user_profile_response_field x) bs _
        (get_user_profile_response_as_read m) (get_user_profile_response-Writes m bs e)

  pub update_user_profile_request-Writes :
      (m : UpdateUserProfileRequest)
      → Writes x
          (update_user_profile_request_field x)
          (encode_update_user_profile_request x m)
          (base_update_user_profile_request x)
          m
  unfolding encode_update_user_profile_request update_user_profile_request_field
  update_user_profile_request-Writes m =
      let switch = update_user_profile_request_field x in
      int32_field-Writes x switch sound 8 (λ v. record { plan = v }) m.plan (λ r. refl)

  pub decode_update_user_profile_request-encode :
      (m : UpdateUserProfileRequest) (bs : Bytes)
      → encode_update_user_profile_request x m ≡ some bs
      → decode_update_user_profile_request x bs ≡ some m
  unfolding decode_update_user_profile_request
  decode_update_user_profile_request-encode m bs e =
      decode_all-Reads x (update_user_profile_request_field x) bs _ m
        (update_user_profile_request-Writes m bs e)

  -- What is read of a `UpdateUserProfileResponse`.
  abbrev pub update_user_profile_response_as_read :
      UpdateUserProfileResponse → UpdateUserProfileResponse
  update_user_profile_response_as_read m = record m {
    user = read_option ((user_profile_as_read x sound)) m.user;
  }

  pub update_user_profile_response-Writes :
      (m : UpdateUserProfileResponse)
      → Writes x
          (update_user_profile_response_field x)
          (encode_update_user_profile_response x m)
          (base_update_user_profile_response x)
          (update_user_profile_response_as_read m)
  unfolding encode_update_user_profile_response update_user_profile_response_field
  update_user_profile_response-Writes m =
      let switch = update_user_profile_response_field x in
      let made : (Option UserProfile) → String → UpdateUserProfileResponse =
        λ a b. record { user = a; jwt_token = b } in
      Writes-then x switch _ _ _ (made (read_option ((user_profile_as_read x sound)) m.user) "") _
        (optional-Writes x switch sound (user_profile_field x) 10 (base_user_profile x)
          (λ v. made v "") (encode_user_profile x) (user_profile_as_read x sound) m.user (λ r. refl)
          (user_profile-Writes x sound))
        (string_field-Writes x switch sound 18
          (λ v. made (read_option ((user_profile_as_read x sound)) m.user) v) m.jwt_token
          (λ r. refl))

  pub decode_update_user_profile_response-encode :
      (m : UpdateUserProfileResponse) (bs : Bytes)
      → encode_update_user_profile_response x m ≡ some bs
      → decode_update_user_profile_response x bs ≡ some (update_user_profile_response_as_read m)
  unfolding decode_update_user_profile_response
  decode_update_user_profile_response-encode m bs e =
      decode_all-Reads x (update_user_profile_response_field x) bs _
        (update_user_profile_response_as_read m) (update_user_profile_response-Writes m bs e)

  pub refresh_token_request-Writes :
      (m : RefreshTokenRequest)
      → Writes x
          (refresh_token_request_field x)
          (encode_refresh_token_request x m)
          (base_refresh_token_request x)
          m
  unfolding encode_refresh_token_request refresh_token_request_field
  refresh_token_request-Writes refresh_token_request =
      Writes-nil x (refresh_token_request_field x) refresh_token_request

  pub decode_refresh_token_request-encode :
      (m : RefreshTokenRequest) (bs : Bytes)
      → encode_refresh_token_request x m ≡ some bs
      → decode_refresh_token_request x bs ≡ some m
  unfolding decode_refresh_token_request
  decode_refresh_token_request-encode m bs e =
      decode_all-Reads x (refresh_token_request_field x) bs _ m
        (refresh_token_request-Writes m bs e)

  -- What is read of a `RefreshTokenResponse`.
  abbrev pub refresh_token_response_as_read : RefreshTokenResponse → RefreshTokenResponse
  refresh_token_response_as_read m = record m { expires_at = x.to_int64 m.expires_at }

  pub refresh_token_response-Writes :
      (m : RefreshTokenResponse)
      → Writes x
          (refresh_token_response_field x)
          (encode_refresh_token_response x m)
          (base_refresh_token_response x)
          (refresh_token_response_as_read m)
  unfolding encode_refresh_token_response refresh_token_response_field
  refresh_token_response-Writes m =
      let switch = refresh_token_response_field x in
      let made : String → String → RefreshTokenResponse =
        λ a b. record { jwt_token = a; expires_at = b } in
      Writes-then x switch _ _ _ (made m.jwt_token "0") _
        (string_field-Writes x switch sound 10 (λ v. made v "0") m.jwt_token (λ r. refl))
        (int64_field-Writes x switch sound 16 (λ v. made m.jwt_token v) m.expires_at (λ r. refl))

  pub decode_refresh_token_response-encode :
      (m : RefreshTokenResponse) (bs : Bytes)
      → encode_refresh_token_response x m ≡ some bs
      → decode_refresh_token_response x bs ≡ some (refresh_token_response_as_read m)
  unfolding decode_refresh_token_response
  decode_refresh_token_response-encode m bs e =
      decode_all-Reads x (refresh_token_response_field x) bs _ (refresh_token_response_as_read m)
        (refresh_token_response-Writes m bs e)
