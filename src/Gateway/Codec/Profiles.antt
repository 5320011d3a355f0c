-- ===== src/Gateway/Codec/Profiles.antt =====
-- The messages of clientlibs/js/proto/apigateway/apigateway.ts about user profiles, and their
-- bytes.
pub mod Trips
pub mod Deliveries
use vectron.Gateway.Wire.{
  Bytes, Wire, Reader, Switch, unmatched, ◌then_write◌, write_all, take_into, take_message, field,
  string_field, bool_field, int32_field, int64_field, uint32_field, optional_field, message_field,
  decode_all,
}
use vectron.Prelude.{
  ℕ, String, Bool, false, Option, none, some, List, [], ◌∷◌, ◌++◌, ℤ, pos, ◌==◌, if◌then◌else◌,
}
use vectron.Auth.Accounts.{UserProfile, user_profile_field, base_user_profile, encode_user_profile}

pub record UpdateUserProfileRequest : Type 0 where
  pub plan : ℤ

pub record UpdateUserProfileResponse : Type 0 where
  pub user : Option UserProfile

module _ {F : Type 0} (x : Wire F) where
  unfoldable pub encode_update_user_profile_request : UpdateUserProfileRequest → Option Bytes
  encode_update_user_profile_request m = int32_field x 8 m.plan

  abbrev pub base_update_user_profile_request : UpdateUserProfileRequest
  base_update_user_profile_request = record { plan = pos 0 }

  unfoldable pub update_user_profile_request_field :
      ℕ → UpdateUserProfileRequest → Reader → Switch UpdateUserProfileRequest
  update_user_profile_request_field tag m r =
      if tag == 8 then take_into x.take_int32 (λ v. record m { plan = v }) r else unmatched

  unfoldable pub decode_update_user_profile_request : Bytes → Option UpdateUserProfileRequest
  unfolding update_user_profile_request_field
  decode_update_user_profile_request bs =
      decode_all x update_user_profile_request_field base_update_user_profile_request bs

  unfoldable pub encode_update_user_profile_response : UpdateUserProfileResponse → Option Bytes
  unfolding encode_user_profile
  encode_update_user_profile_response m = optional_field x 10 (encode_user_profile x) m.user

  abbrev pub base_update_user_profile_response : UpdateUserProfileResponse
  base_update_user_profile_response = record { user = none }

  unfoldable pub update_user_profile_response_field :
      ℕ → UpdateUserProfileResponse → Reader → Switch UpdateUserProfileResponse
  update_user_profile_response_field tag m r =
      if tag == 10
      then take_message x (user_profile_field x) (base_user_profile x)
          (λ v. record m { user = some v }) r
      else unmatched

  unfoldable pub decode_update_user_profile_response : Bytes → Option UpdateUserProfileResponse
  unfolding update_user_profile_response_field
  decode_update_user_profile_response bs =
      decode_all x update_user_profile_response_field base_update_user_profile_response bs
