-- ===== src/Gateway/Codec/Profiles/Deliveries.antt =====
-- The messages of clientlibs/js/proto/apigateway/apigateway.ts about user profiles that are
-- written without an exception.
use vectron.Prelude.{arith}
use vectron.Gateway.Wire.{Wire, IsSound}
use vectron.Gateway.Wire.Returns.{Returns, IsInt32, IsOptional, Returns-int32, Returns-optional}
use vectron.Auth.Accounts.{encode_user_profile}
use vectron.Auth.Accounts.Deliveries.{UserProfileFits, user_profile-Returns}
use vectron.Gateway.Codec.Profiles.{
  UpdateUserProfileRequest, UpdateUserProfileResponse, encode_update_user_profile_request,
  encode_update_user_profile_response,
}

module _ {F : Type 0} (x : Wire F) (sound : IsSound x) where
  -- What the writer asks of a `UpdateUserProfileRequest`.
  abbrev pub UpdateUserProfileRequestFits : UpdateUserProfileRequest → Type 0
  UpdateUserProfileRequestFits m = IsInt32 m.plan

  pub update_user_profile_request-Returns :
      (m : UpdateUserProfileRequest)
      → UpdateUserProfileRequestFits m
      → Returns (encode_update_user_profile_request x m)
  unfolding encode_update_user_profile_request
  update_user_profile_request-Returns m h0 = Returns-int32 x sound 8 m.plan (omega arith) h0

  -- What the writer asks of a `UpdateUserProfileResponse`.
  abbrev pub UpdateUserProfileResponseFits : UpdateUserProfileResponse → Type 0
  UpdateUserProfileResponseFits m =
      IsOptional (UserProfileFits x sound) (encode_user_profile x) m.user

  pub update_user_profile_response-Returns :
      (m : UpdateUserProfileResponse)
      → UpdateUserProfileResponseFits m
      → Returns (encode_update_user_profile_response x m)
  unfolding encode_update_user_profile_response
  update_user_profile_response-Returns m h0 =
      Returns-optional x sound 10 (UserProfileFits x sound) (encode_user_profile x) m.user
        (omega arith) (user_profile-Returns x sound) h0
