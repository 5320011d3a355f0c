-- ===== src/Auth/Accounts/Trips.antt =====
-- The messages of clientlibs/js/proto/auth/auth.ts about accounts and log-in are decoded as they
-- were encoded.
use vectron.Prelude.{◌≡◌, refl, String, Option, none, some, ℤ, pos}
use vectron.Gateway.Wire.{Bytes, Wire, IsSound}
use vectron.Gateway.Wire.Reads.{Writes, Writes-then, decode_all-Reads}
use vectron.Gateway.Wire.Fields.{
  string_field-Writes, bool_field-Writes, int32_field-Writes, int64_field-Writes, optional-Writes,
  read_option,
}
use vectron.Auth.Accounts.{
  UserProfile, user_profile_field, base_user_profile, encode_user_profile, RegisterUserRequest,
  register_user_request_field, base_register_user_request, encode_register_user_request,
  decode_register_user_request, RegisterUserResponse, register_user_response_field,
  base_register_user_response, encode_register_user_response, decode_register_user_response,
  LoginRequest, login_request_field, base_login_request, encode_login_request, decode_login_request,
  LoginResponse, login_response_field, base_login_response, encode_login_response,
  decode_login_response, DeleteUserRequest, delete_user_request_field, base_delete_user_request,
  encode_delete_user_request, decode_delete_user_request, DeleteUserResponse,
  delete_user_response_field, base_delete_user_response, encode_delete_user_response,
  decode_delete_user_response,
}

module _ {F : Type 0} (x : Wire F) (sound : IsSound x) where
  -- What is read of a `UserProfile`.
  abbrev pub user_profile_as_read : UserProfile → UserProfile
  user_profile_as_read m = record m { created_at = x.to_int64 m.created_at }

  pub user_profile-Writes :
      (m : UserProfile)
      → Writes x
          (user_profile_field x)
          (encode_user_profile x m)
          (base_user_profile x)
          (user_profile_as_read m)
  unfolding encode_user_profile user_profile_field
  user_profile-Writes m =
      let switch = user_profile_field x in
      let made : String → String → String → ℤ → ℤ → UserProfile = λ a b c d f. record {
        id = a;
        email = b;
        created_at = c;
        plan = d;
        subscription_status = f;
      } in
      Writes-then x switch _ _ _ (made m.id "" "0" (pos 0) (pos 0)) _
        (string_field-Writes x switch sound 10 (λ v. made v "" "0" (pos 0) (pos 0)) m.id
          (λ r. refl))
        (Writes-then x switch _ _ _ (made m.id m.email "0" (pos 0) (pos 0)) _
          (string_field-Writes x switch sound 18 (λ v. made m.id v "0" (pos 0) (pos 0)) m.email
            (λ r. refl))
          (Writes-then x switch _ _ _ (made m.id m.email (x.to_int64 m.created_at) (pos 0) (pos 0))
            _
            (int64_field-Writes x switch sound 24 (λ v. made m.id m.email v (pos 0) (pos 0))
              m.created_at (λ r. refl))
            (Writes-then x switch _ _ _ (made m.id m.email (x.to_int64 m.created_at) m.plan (pos 0))
              _
              (int32_field-Writes x switch sound 32
                (λ v. made m.id m.email (x.to_int64 m.created_at) v (pos 0)) m.plan (λ r. refl))
              (int32_field-Writes x switch sound 40
                (λ v. made m.id m.email (x.to_int64 m.created_at) m.plan v) m.subscription_status
                (λ r. refl)))))

  pub register_user_request-Writes :
      (m : RegisterUserRequest)
      → Writes x
          (register_user_request_field x)
          (encode_register_user_request x m)
          (base_register_user_request x)
          m
  unfolding encode_register_user_request register_user_request_field
  register_user_request-Writes m =
      let switch = register_user_request_field x in
      let made : String → String → RegisterUserRequest =
        λ a b. record { email = a; password = b } in
      Writes-then x switch _ _ _ (made m.email "") _
        (string_field-Writes x switch sound 10 (λ v. made v "") m.email (λ r. refl))
        (string_field-Writes x switch sound 18 (λ v. made m.email v) m.password (λ r. refl))

  pub decode_register_user_request-encode :
      (m : RegisterUserRequest) (bs : Bytes)
      → encode_register_user_request x m ≡ some bs
      → decode_register_user_request x bs ≡ some m
  unfolding decode_register_user_request
  decode_register_user_request-encode m bs e =
      decode_all-Reads x (register_user_request_field x) bs _ m
        (register_user_request-Writes m bs e)

  -- What is read of a `RegisterUserResponse`.
  abbrev pub register_user_response_as_read : RegisterUserResponse → RegisterUserResponse
  register_user_response_as_read m = record m { user = read_option (user_profile_as_read) m.user }

  pub register_user_response-Writes :
      (m : RegisterUserResponse)
      → Writes x
          (register_user_response_field x)
          (encode_register_user_response x m)
          (base_register_user_response x)
          (register_user_response_as_read m)
  unfolding encode_register_user_response register_user_response_field
  register_user_response-Writes m =
      let switch = register_user_response_field x in
      optional-Writes x switch sound (user_profile_field x) 10 (base_user_profile x)
        (λ v. record { user = v }) (encode_user_profile x) user_profile_as_read m.user (λ r. refl)
        user_profile-Writes

  pub decode_register_user_response-encode :
      (m : RegisterUserResponse) (bs : Bytes)
      → encode_register_user_response x m ≡ some bs
      → decode_register_user_response x bs ≡ some (register_user_response_as_read m)
  unfolding decode_register_user_response
  decode_register_user_response-encode m bs e =
      decode_all-Reads x (register_user_response_field x) bs _ (register_user_response_as_read m)
        (register_user_response-Writes m bs e)

  pub login_request-Writes :
      (m : LoginRequest)
      → Writes x (login_request_field x) (encode_login_request x m) (base_login_request x) m
  unfolding encode_login_request login_request_field
  login_request-Writes m =
      let switch = login_request_field x in
      let made : String → String → LoginRequest = λ a b. record { email = a; password = b } in
      Writes-then x switch _ _ _ (made m.email "") _
        (string_field-Writes x switch sound 10 (λ v. made v "") m.email (λ r. refl))
        (string_field-Writes x switch sound 18 (λ v. made m.email v) m.password (λ r. refl))

  pub decode_login_request-encode :
      (m : LoginRequest) (bs : Bytes)
      → encode_login_request x m ≡ some bs
      → decode_login_request x bs ≡ some m
  unfolding decode_login_request
  decode_login_request-encode m bs e =
      decode_all-Reads x (login_request_field x) bs _ m (login_request-Writes m bs e)

  -- What is read of a `LoginResponse`.
  abbrev pub login_response_as_read : LoginResponse → LoginResponse
  login_response_as_read m = record m { user = read_option (user_profile_as_read) m.user }

  pub login_response-Writes :
      (m : LoginResponse)
      → Writes x
          (login_response_field x)
          (encode_login_response x m)
          (base_login_response x)
          (login_response_as_read m)
  unfolding encode_login_response login_response_field
  login_response-Writes m =
      let switch = login_response_field x in
      let made : String → (Option UserProfile) → LoginResponse =
        λ a b. record { jwt_token = a; user = b } in
      Writes-then x switch _ _ _ (made m.jwt_token none) _
        (string_field-Writes x switch sound 10 (λ v. made v none) m.jwt_token (λ r. refl))
        (optional-Writes x switch sound (user_profile_field x) 18 (base_user_profile x)
          (λ v. made m.jwt_token v) (encode_user_profile x) user_profile_as_read m.user (λ r. refl)
          user_profile-Writes)

  pub decode_login_response-encode :
      (m : LoginResponse) (bs : Bytes)
      → encode_login_response x m ≡ some bs
      → decode_login_response x bs ≡ some (login_response_as_read m)
  unfolding decode_login_response
  decode_login_response-encode m bs e =
      decode_all-Reads x (login_response_field x) bs _ (login_response_as_read m)
        (login_response-Writes m bs e)

  pub delete_user_request-Writes :
      (m : DeleteUserRequest)
      → Writes x
          (delete_user_request_field x)
          (encode_delete_user_request x m)
          (base_delete_user_request x)
          m
  unfolding encode_delete_user_request delete_user_request_field
  delete_user_request-Writes m =
      let switch = delete_user_request_field x in
      string_field-Writes x switch sound 10 (λ v. record { password = v }) m.password (λ r. refl)

  pub decode_delete_user_request-encode :
      (m : DeleteUserRequest) (bs : Bytes)
      → encode_delete_user_request x m ≡ some bs
      → decode_delete_user_request x bs ≡ some m
  unfolding decode_delete_user_request
  decode_delete_user_request-encode m bs e =
      decode_all-Reads x (delete_user_request_field x) bs _ m (delete_user_request-Writes m bs e)

  pub delete_user_response-Writes :
      (m : DeleteUserResponse)
      → Writes x
          (delete_user_response_field x)
          (encode_delete_user_response x m)
          (base_delete_user_response x)
          m
  unfolding encode_delete_user_response delete_user_response_field
  delete_user_response-Writes m =
      let switch = delete_user_response_field x in
      bool_field-Writes x switch sound 8 (λ v. record { success = v }) m.success (λ r. refl)

  pub decode_delete_user_response-encode :
      (m : DeleteUserResponse) (bs : Bytes)
      → encode_delete_user_response x m ≡ some bs
      → decode_delete_user_response x bs ≡ some m
  unfolding decode_delete_user_response
  decode_delete_user_response-encode m bs e =
      decode_all-Reads x (delete_user_response_field x) bs _ m (delete_user_response-Writes m bs e)
