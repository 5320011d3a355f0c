-- ===== src/Auth/Profiles.antt =====
-- The messages of clientlibs/js/proto/auth/auth.ts about profiles and sessions, and their bytes.
pub mod Trips
pub mod Deliveries
use vectron.Gateway.Wire.{
  Bytes, Wire, Reader, Switch, unmatched, ◌then_write◌, write_all, take_into, take_message, field,
  string_field, bool_field, int32_field, int64_field, uint32_field, optional_field, message_field,
  decode_all,
}
use vectron.Prelude.{
  ℕ, String, Bool, false, Option, none, some, List, [], ◌∷◌, ◌++◌, ℤ, pos, ◌==◌, if◌then◌else◌,
}
use vectron.Auth.Accounts.{UserProfile, user_profile_field, base_user_profile, encode_user_profile}

pub data GetUserProfileRequest : Type 0 where
  get_user_profile_request : GetUserProfileRequest

pub record GetUserProfileResponse : Type 0 where
  pub user : Option UserProfile

pub record UpdateUserProfileRequest : Type 0 where
  pub plan : ℤ

pub record UpdateUserProfileResponse : Type 0 where
  pub user : Option UserProfile
  pub jwt_token : String

pub data RefreshTokenRequest : Type 0 where
  refresh_token_request : RefreshTokenRequest

pub record RefreshTokenResponse : Type 0 where
  pub jwt_token : String
  pub expires_at : String

module _ {F : Type 0} (x : Wire F) where
  unfoldable pub encode_get_user_profile_request : GetUserProfileRequest → Option Bytes
  encode_get_user_profile_request m = some []

  abbrev pub base_get_user_profile_request : GetUserProfileRequest
  base_get_user_profile_request = get_user_profile_request

  unfoldable pub get_user_profile_request_field :
      ℕ → GetUserProfileRequest → Reader → Switch GetUserProfileRequest
  get_user_profile_request_field tag m r = unmatched

  unfoldable pub decode_get_user_profile_request : Bytes → Option GetUserProfileRequest
  unfolding get_user_profile_request_field
  decode_get_user_profile_request bs =
      decode_all x get_user_profile_request_field base_get_user_profile_request bs

  unfoldable pub encode_get_user_profile_response : GetUserProfileResponse → Option Bytes
  unfolding encode_user_profile
  encode_get_user_profile_response m = optional_field x 10 (encode_user_profile x) m.user

  abbrev pub base_get_user_profile_response : GetUserProfileResponse
  base_get_user_profile_response = record { user = none }

  unfoldable pub get_user_profile_response_field :
      ℕ → GetUserProfileResponse → Reader → Switch GetUserProfileResponse
  get_user_profile_response_field tag m r =
      if tag == 10
      then take_message x (user_profile_field x) (base_user_profile x)
          (λ v. record m { user = some v }) r
      else unmatched

  unfoldable pub decode_get_user_profile_response : Bytes → Option GetUserProfileResponse
  unfolding get_user_profile_response_field
  decode_get_user_profile_response bs =
      decode_all x get_user_profile_response_field base_get_user_profile_response bs

  unfoldable pub encode_update_user_profile_request : UpdateUserProfileRequest → Option Bytes
  encode_update_user_profile_request m = int32_field x 8 m.plan

  abbrev pub base_update_user_profile_request : UpdateUserProfileRequest
  base_update_user_profile_request = record { plan = pos 0 }

  unfoldable pub update_user_profile_request_field :
      ℕ → UpdateUserProfileRequest → Reader → Switch UpdateUserProfileRequest
  update_user_profile_request_field tag m r =
      if tag == 8 then take_into x.take_int32 (λ v. record m { plan = v }) r else unmatched

  unfoldable pub decode_update_user_profile_request : Bytes → Option UpdateUserProfileRequest
  unfolding update_user_profile_request_field
  decode_update_user_profile_request bs =
      decode_all x update_user_profile_request_field base_update_user_profile_request bs

  unfoldable pub encode_update_user_profile_response : UpdateUserProfileResponse → Option Bytes
  unfolding encode_user_profile
  encode_update_user_profile_response m =
      optional_field x 10 (encode_user_profile x) m.user then_write string_field x 18 m.jwt_token

  abbrev pub base_update_user_profile_response : UpdateUserProfileResponse
  base_update_user_profile_response = record { user = none; jwt_token = "" }

  unfoldable pub update_user_profile_response_field :
      ℕ → UpdateUserProfileResponse → Reader → Switch UpdateUserProfileResponse
  update_user_profile_response_field tag m r =
      if tag == 10
      then take_message x (user_profile_field x) (base_user_profile x)
          (λ v. record m { user = some v }) r
      else if tag == 18
      then take_into x.take_string (λ v. record m { jwt_token = v }) r
      else unmatched

  unfoldable pub decode_update_user_profile_response : Bytes → Option UpdateUserProfileResponse
  unfolding update_user_profile_response_field
  decode_update_user_profile_response bs =
      decode_all x update_user_profile_response_field base_update_user_profile_response bs

  unfoldable pub encode_refresh_token_request : RefreshTokenRequest → Option Bytes
  encode_refresh_token_request m = some []

  abbrev pub base_refresh_token_request : RefreshTokenRequest
  base_refresh_token_request = refresh_token_request

  unfoldable pub refresh_token_request_field :
      ℕ → RefreshTokenRequest → Reader → Switch RefreshTokenRequest
  refresh_token_request_field tag m r = unmatched

  unfoldable pub decode_refresh_token_request : Bytes → Option RefreshTokenRequest
  unfolding refresh_token_request_field
  decode_refresh_token_request bs =
      decode_all x refresh_token_request_field base_refresh_token_request bs

  unfoldable pub encode_refresh_token_response : RefreshTokenResponse → Option Bytes
  encode_refresh_token_response m =
      string_field x 10 m.jwt_token then_write int64_field x 16 m.expires_at

  abbrev pub base_refresh_token_response : RefreshTokenResponse
  base_refresh_token_response = record { jwt_token = ""; expires_at = "0" }

  unfoldable pub refresh_token_response_field :
      ℕ → RefreshTokenResponse → Reader → Switch RefreshTokenResponse
  refresh_token_response_field tag m r =
      if tag == 10
      then take_into x.take_string (λ v. record m { jwt_token = v }) r
      else if tag == 16
      then take_into x.take_int64 (λ v. record m { expires_at = v }) r
      else unmatched

  unfoldable pub decode_refresh_token_response : Bytes → Option RefreshTokenResponse
  unfolding refresh_token_response_field
  decode_refresh_token_response bs =
      decode_all x refresh_token_response_field base_refresh_token_response bs
