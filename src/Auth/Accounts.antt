-- ===== src/Auth/Accounts.antt =====
-- The messages of clientlibs/js/proto/auth/auth.ts about accounts and log-in, and their bytes.
pub mod Trips
pub mod Deliveries
use vectron.Gateway.Wire.{
  Bytes, Wire, Reader, Switch, unmatched, ◌then_write◌, write_all, take_into, take_message, field,
  string_field, bool_field, int32_field, int64_field, uint32_field, optional_field, message_field,
  decode_all,
}
use vectron.Prelude.{
  ℕ, String, Bool, false, Option, none, some, List, [], ◌∷◌, ◌++◌, ℤ, pos, ◌==◌, if◌then◌else◌,
}

pub record UserProfile : Type 0 where
  pub id : String
  pub email : String
  pub created_at : String
  pub plan : ℤ
  pub subscription_status : ℤ

pub record RegisterUserRequest : Type 0 where
  pub email : String
  pub password : String

pub record RegisterUserResponse : Type 0 where
  pub user : Option UserProfile

pub record LoginRequest : Type 0 where
  pub email : String
  pub password : String

pub record LoginResponse : Type 0 where
  pub jwt_token : String
  pub user : Option UserProfile

pub record DeleteUserRequest : Type 0 where
  pub password : String

pub record DeleteUserResponse : Type 0 where
  pub success : Bool

module _ {F : Type 0} (x : Wire F) where
  unfoldable pub encode_user_profile : UserProfile → Option Bytes
  encode_user_profile m = string_field x 10 m.id then_write (
      string_field x 18 m.email then_write (
        int64_field x 24 m.created_at
        then_write (int32_field x 32 m.plan then_write int32_field x 40 m.subscription_status)))

  abbrev pub base_user_profile : UserProfile
  base_user_profile = record {
    id = "";
    email = "";
    created_at = "0";
    plan = pos 0;
    subscription_status = pos 0;
  }

  unfoldable pub user_profile_field : ℕ → UserProfile → Reader → Switch UserProfile
  user_profile_field tag m r =
      if tag == 10
      then take_into x.take_string (λ v. record m { id = v }) r
      else if tag == 18
      then take_into x.take_string (λ v. record m { email = v }) r
      else if tag == 24
      then take_into x.take_int64 (λ v. record m { created_at = v }) r
      else if tag == 32
      then take_into x.take_int32 (λ v. record m { plan = v }) r
      else if tag == 40
      then take_into x.take_int32 (λ v. record m { subscription_status = v }) r
      else unmatched

  unfoldable pub decode_user_profile : Bytes → Option UserProfile
  unfolding user_profile_field
  decode_user_profile bs = decode_all x user_profile_field base_user_profile bs

  unfoldable pub encode_register_user_request : RegisterUserRequest → Option Bytes
  encode_register_user_request m = string_field x 10 m.email then_write string_field x 18 m.password

  abbrev pub base_register_user_request : RegisterUserRequest
  base_register_user_request = record { email = ""; password = "" }

  unfoldable pub register_user_request_field :
      ℕ → RegisterUserRequest → Reader → Switch RegisterUserRequest
  register_user_request_field tag m r =
      if tag == 10
      then take_into x.take_string (λ v. record m { email = v }) r
      else if tag == 18
      then take_into x.take_string (λ v. record m { password = v }) r
      else unmatched

  unfoldable pub decode_register_user_request : Bytes → Option RegisterUserRequest
  unfolding register_user_request_field
  decode_register_user_request bs =
      decode_all x register_user_request_field base_register_user_request bs

  unfoldable pub encode_register_user_response : RegisterUserResponse → Option Bytes
  unfolding encode_user_profile
  encode_register_user_response m = optional_field x 10 encode_user_profile m.user

  abbrev pub base_register_user_response : RegisterUserResponse
  base_register_user_response = record { user = none }

  unfoldable pub register_user_response_field :
      ℕ → RegisterUserResponse → Reader → Switch RegisterUserResponse
  register_user_response_field tag m r =
      if tag == 10
      then take_message x user_profile_field base_user_profile (λ v. record m { user = some v }) r
      else unmatched

  unfoldable pub decode_register_user_response : Bytes → Option RegisterUserResponse
  unfolding register_user_response_field
  decode_register_user_response bs =
      decode_all x register_user_response_field base_register_user_response bs

  unfoldable pub encode_login_request : LoginRequest → Option Bytes
  encode_login_request m = string_field x 10 m.email then_write string_field x 18 m.password

  abbrev pub base_login_request : LoginRequest
  base_login_request = record { email = ""; password = "" }

  unfoldable pub login_request_field : ℕ → LoginRequest → Reader → Switch LoginRequest
  login_request_field tag m r =
      if tag == 10
      then take_into x.take_string (λ v. record m { email = v }) r
      else if tag == 18
      then take_into x.take_string (λ v. record m { password = v }) r
      else unmatched

  unfoldable pub decode_login_request : Bytes → Option LoginRequest
  unfolding login_request_field
  decode_login_request bs = decode_all x login_request_field base_login_request bs

  unfoldable pub encode_login_response : LoginResponse → Option Bytes
  unfolding encode_user_profile
  encode_login_response m =
      string_field x 10 m.jwt_token then_write optional_field x 18 encode_user_profile m.user

  abbrev pub base_login_response : LoginResponse
  base_login_response = record { jwt_token = ""; user = none }

  unfoldable pub login_response_field : ℕ → LoginResponse → Reader → Switch LoginResponse
  login_response_field tag m r =
      if tag == 10
      then take_into x.take_string (λ v. record m { jwt_token = v }) r
      else if tag == 18
      then take_message x user_profile_field base_user_profile (λ v. record m { user = some v }) r
      else unmatched

  unfoldable pub decode_login_response : Bytes → Option LoginResponse
  unfolding login_response_field
  decode_login_response bs = decode_all x login_response_field base_login_response bs

  unfoldable pub encode_delete_user_request : DeleteUserRequest → Option Bytes
  encode_delete_user_request m = string_field x 10 m.password

  abbrev pub base_delete_user_request : DeleteUserRequest
  base_delete_user_request = record { password = "" }

  unfoldable pub delete_user_request_field :
      ℕ → DeleteUserRequest → Reader → Switch DeleteUserRequest
  delete_user_request_field tag m r =
      if tag == 10 then take_into x.take_string (λ v. record m { password = v }) r else unmatched

  unfoldable pub decode_delete_user_request : Bytes → Option DeleteUserRequest
  unfolding delete_user_request_field
  decode_delete_user_request bs = decode_all x delete_user_request_field base_delete_user_request bs

  unfoldable pub encode_delete_user_response : DeleteUserResponse → Option Bytes
  encode_delete_user_response m = bool_field x 8 m.success

  abbrev pub base_delete_user_response : DeleteUserResponse
  base_delete_user_response = record { success = false }

  unfoldable pub delete_user_response_field :
      ℕ → DeleteUserResponse → Reader → Switch DeleteUserResponse
  delete_user_response_field tag m r =
      if tag == 8 then take_into x.take_bool (λ v. record m { success = v }) r else unmatched

  unfoldable pub decode_delete_user_response : Bytes → Option DeleteUserResponse
  unfolding delete_user_response_field
  decode_delete_user_response bs =
      decode_all x delete_user_response_field base_delete_user_response bs
