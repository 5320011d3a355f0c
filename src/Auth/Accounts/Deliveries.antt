-- ===== src/Auth/Accounts/Deliveries.antt =====
-- The messages of clientlibs/js/proto/auth/auth.ts about accounts and log-in that are written
-- without an exception.
use vectron.Prelude.{◌≡◌, true, arith}
use vectron.Gateway.Wire.{Wire, IsSound}
use vectron.Gateway.Wire.Returns.{
  Returns, IsInt32, IsOptional, Returns-then, Returns-string, Returns-bool, Returns-int32,
  Returns-int64, Returns-optional,
}
use vectron.Auth.Accounts.{
  UserProfile, encode_user_profile, RegisterUserRequest, encode_register_user_request,
  RegisterUserResponse, encode_register_user_response, LoginRequest, encode_login_request,
  LoginResponse, encode_login_response, DeleteUserRequest, encode_delete_user_request,
  DeleteUserResponse, encode_delete_user_response,
}

module _ {F : Type 0} (x : Wire F) (sound : IsSound x) where
  -- What the writer asks of a `UserProfile`.
  abbrev pub UserProfileFits : UserProfile → Type 0
  UserProfileFits m =
      (x.is_int64 m.created_at ≡ true) × IsInt32 m.plan × IsInt32 m.subscription_status

  pub user_profile-Returns :
      (m : UserProfile) → UserProfileFits m → Returns (encode_user_profile x m)
  unfolding encode_user_profile
  user_profile-Returns m (h0, h1, h2) =
      Returns-then _ _ (Returns-string x sound 10 m.id (omega arith)) (
        Returns-then _ _ (Returns-string x sound 18 m.email (omega arith)) (
          Returns-then _ _ (Returns-int64 x sound 24 m.created_at (omega arith) h0) (
            Returns-then _ _ (Returns-int32 x sound 32 m.plan (omega arith) h1)
              (Returns-int32 x sound 40 m.subscription_status (omega arith) h2))))

  pub register_user_request-Returns :
      (m : RegisterUserRequest) → Returns (encode_register_user_request x m)
  unfolding encode_register_user_request
  register_user_request-Returns m =
      Returns-then _ _ (Returns-string x sound 10 m.email (omega arith))
        (Returns-string x sound 18 m.password (omega arith))

  -- What the writer asks of a `RegisterUserResponse`.
  abbrev pub RegisterUserResponseFits : RegisterUserResponse → Type 0
  RegisterUserResponseFits m = IsOptional UserProfileFits (encode_user_profile x) m.user

  pub register_user_response-Returns :
      (m : RegisterUserResponse)
      → RegisterUserResponseFits m
      → Returns (encode_register_user_response x m)
  unfolding encode_register_user_response
  register_user_response-Returns m h0 =
      Returns-optional x sound 10 UserProfileFits (encode_user_profile x) m.user (omega arith)
        user_profile-Returns h0

  pub login_request-Returns : (m : LoginRequest) → Returns (encode_login_request x m)
  unfolding encode_login_request
  login_request-Returns m =
      Returns-then _ _ (Returns-string x sound 10 m.email (omega arith))
        (Returns-string x sound 18 m.password (omega arith))

  -- What the writer asks of a `LoginResponse`.
  abbrev pub LoginResponseFits : LoginResponse → Type 0
  LoginResponseFits m = IsOptional UserProfileFits (encode_user_profile x) m.user

  pub login_response-Returns :
      (m : LoginResponse) → LoginResponseFits m → Returns (encode_login_response x m)
  unfolding encode_login_response
  login_response-Returns m h0 =
      Returns-then _ _ (Returns-string x sound 10 m.jwt_token (omega arith)) (
        Returns-optional x sound 18 UserProfileFits (encode_user_profile x) m.user (omega arith)
          user_profile-Returns h0)

  pub delete_user_request-Returns :
      (m : DeleteUserRequest) → Returns (encode_delete_user_request x m)
  unfolding encode_delete_user_request
  delete_user_request-Returns m = Returns-string x sound 10 m.password (omega arith)

  pub delete_user_response-Returns :
      (m : DeleteUserResponse) → Returns (encode_delete_user_response x m)
  unfolding encode_delete_user_response
  delete_user_response-Returns m = Returns-bool x sound 8 m.success (omega arith)
