-- ===== src/Auth/Profiles/Deliveries.antt =====
-- The messages of clientlibs/js/proto/auth/auth.ts about profiles and sessions that are written
-- without an exception.
use vectron.Prelude.{◌≡◌, refl, true, arith, []}
use vectron.Gateway.Wire.{Wire, IsSound}
use vectron.Gateway.Wire.Returns.{
  Returns, IsInt32, IsOptional, Returns-then, Returns-string, Returns-int32, Returns-int64,
  Returns-optional,
}
use vectron.Auth.Accounts.{encode_user_profile}
use vectron.Auth.Accounts.Deliveries.{UserProfileFits, user_profile-Returns}
use vectron.Auth.Profiles.{
  GetUserProfileRequest, encode_get_user_profile_request, GetUserProfileResponse,
  encode_get_user_profile_response, UpdateUserProfileRequest, encode_update_user_profile_request,
  UpdateUserProfileResponse, encode_update_user_profile_response, RefreshTokenRequest,
  encode_refresh_token_request, RefreshTokenResponse, encode_refresh_token_response,
}

module _ {F : Type 0} (x : Wire F) (sound : IsSound x) where
  pub get_user_profile_request-Returns :
      (m : GetUserProfileRequest) → Returns (encode_get_user_profile_request x m)
  unfolding encode_get_user_profile_request
  get_user_profile_request-Returns m = ([], refl)

  -- What the writer asks of a `GetUserProfileResponse`.
  abbrev pub GetUserProfileResponseFits : GetUserProfileResponse → Type 0
  GetUserProfileResponseFits m = IsOptional (UserProfileFits x sound) (encode_user_profile x) m.user

  pub get_user_profile_response-Returns :
      (m : GetUserProfileResponse)
      → GetUserProfileResponseFits m
      → Returns (encode_get_user_profile_response x m)
  unfolding encode_get_user_profile_response
  get_user_profile_response-Returns m h0 =
      Returns-optional x sound 10 (UserProfileFits x sound) (encode_user_profile x) m.user
        (omega arith) (user_profile-Returns x sound) h0

  -- What the writer asks of a `UpdateUserProfileRequest`.
  abbrev pub UpdateUserProfileRequestFits : UpdateUserProfileRequest → Type 0
  UpdateUserProfileRequestFits m = IsInt32 m.plan

  pub update_user_profile_request-Returns :
      (m : UpdateUserProfileRequest)
      → UpdateUserProfileRequestFits m
      → Returns (encode_update_user_profile_request x m)
  unfolding encode_update_user_profile_request
  update_user_profile_request-Returns m h0 = Returns-int32 x sound 8 m.plan (omega arith) h0

  -- What the writer asks of a `UpdateUserProfileResponse`.
  abbrev pub UpdateUserProfileResponseFits : UpdateUserProfileResponse → Type 0
  UpdateUserProfileResponseFits m =
      IsOptional (UserProfileFits x sound) (encode_user_profile x) m.user

  pub update_user_profile_response-Returns :
      (m : UpdateUserProfileResponse)
      → UpdateUserProfileResponseFits m
      → Returns (encode_update_user_profile_response x m)
  unfolding encode_update_user_profile_response
  update_user_profile_response-Returns m h0 =
      Returns-then _ _
        (Returns-optional x sound 10 (UserProfileFits x sound) (encode_user_profile x) m.user
          (omega arith) (user_profile-Returns x sound) h0)
        (Returns-string x sound 18 m.jwt_token (omega arith))

  pub refresh_token_request-Returns :
      (m : RefreshTokenRequest) → Returns (encode_refresh_token_request x m)
  unfolding encode_refresh_token_request
  refresh_token_request-Returns m = ([], refl)

  -- What the writer asks of a `RefreshTokenResponse`.
  abbrev pub RefreshTokenResponseFits : RefreshTokenResponse → Type 0
  RefreshTokenResponseFits m = (x.is_int64 m.expires_at ≡ true)

  pub refresh_token_response-Returns :
      (m : RefreshTokenResponse)
      → RefreshTokenResponseFits m
      → Returns (encode_refresh_token_response x m)
  unfolding encode_refresh_token_response
  refresh_token_response-Returns m h0 =
      Returns-then _ _ (Returns-string x sound 10 m.jwt_token (omega arith))
        (Returns-int64 x sound 16 m.expires_at (omega arith) h0)
