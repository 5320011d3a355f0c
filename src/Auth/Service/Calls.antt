-- ===== src/Auth/Service/Calls.antt =====
-- What one side of the auth service in clientlibs/js/proto/auth/auth.ts sends, the other reads.
use vectron.Prelude.{◌≡◌, some}
use vectron.Gateway.Wire.{Bytes, Wire, IsSound}
use vectron.Auth.Accounts.Trips.{
  decode_register_user_request-encode, decode_register_user_response-encode,
  register_user_response_as_read, decode_login_request-encode, decode_login_response-encode,
  login_response_as_read, decode_delete_user_request-encode, decode_delete_user_response-encode,
}
use vectron.Auth.Profiles.Trips.{
  decode_get_user_profile_request-encode, decode_get_user_profile_response-encode,
  get_user_profile_response_as_read, decode_update_user_profile_request-encode,
  decode_update_user_profile_response-encode, update_user_profile_response_as_read,
  decode_refresh_token_request-encode, decode_refresh_token_response-encode,
  refresh_token_response_as_read,
}
use vectron.Auth.Keys.Trips.{
  decode_create_api_key_request-encode, decode_create_api_key_response-encode,
  create_api_key_response_as_read, decode_list_api_keys_request-encode,
  decode_list_api_keys_response-encode, list_api_keys_response_as_read,
  decode_delete_api_key_request-encode, decode_delete_api_key_response-encode,
}
use vectron.Auth.Tokens.Trips.{
  decode_validate_api_key_request-encode, decode_validate_api_key_response-encode,
  decode_create_sdk_jwt_request-encode, decode_create_sdk_jwt_response-encode,
  decode_get_auth_details_for_sdk_request-encode, decode_get_auth_details_for_sdk_response-encode,
}
use vectron.Gateway.Wire.Returns.{Returns}
use vectron.Auth.Accounts.Deliveries.{
  register_user_request-Returns, register_user_response-Returns, RegisterUserResponseFits,
  login_request-Returns, login_response-Returns, LoginResponseFits, delete_user_request-Returns,
  delete_user_response-Returns,
}
use vectron.Auth.Profiles.Deliveries.{
  get_user_profile_request-Returns, get_user_profile_response-Returns, GetUserProfileResponseFits,
  update_user_profile_request-Returns, UpdateUserProfileRequestFits,
  update_user_profile_response-Returns, UpdateUserProfileResponseFits,
  refresh_token_request-Returns, refresh_token_response-Returns, RefreshTokenResponseFits,
}
use vectron.Auth.Keys.Deliveries.{
  create_api_key_request-Returns, create_api_key_response-Returns, CreateApiKeyResponseFits,
  list_api_keys_request-Returns, list_api_keys_response-Returns, ListApiKeysResponseFits,
  delete_api_key_request-Returns, delete_api_key_response-Returns,
}
use vectron.Auth.Tokens.Deliveries.{
  validate_api_key_request-Returns, validate_api_key_response-Returns,
  create_sdk_jwt_request-Returns, create_sdk_jwt_response-Returns,
  get_auth_details_for_sdk_request-Returns, get_auth_details_for_sdk_response-Returns,
  GetAuthDetailsForSdkResponseFits,
}
use vectron.Auth.Service.{
  Method, Side, MessageOf, request, response, serialize, deserialize, register_user, login,
  get_user_profile, update_user_profile, delete_user, refresh_token, create_api_key, list_api_keys,
  delete_api_key, validate_api_key, create_sdk_jwt, get_auth_details_for_sdk,
}

module _ {F : Type 0} (x : Wire F) (sound : IsSound x) where
  -- What is read of a message: a time in its decimal form.
  abbrev pub message_as_read :
      (side : Side) (method : Method) → MessageOf side method → MessageOf side method
  message_as_read request register_user m = m
  message_as_read request login m = m
  message_as_read request get_user_profile m = m
  message_as_read request update_user_profile m = m
  message_as_read request delete_user m = m
  message_as_read request refresh_token m = m
  message_as_read request create_api_key m = m
  message_as_read request list_api_keys m = m
  message_as_read request delete_api_key m = m
  message_as_read request validate_api_key m = m
  message_as_read request create_sdk_jwt m = m
  message_as_read request get_auth_details_for_sdk m = m
  message_as_read response register_user m = register_user_response_as_read x sound m
  message_as_read response login m = login_response_as_read x sound m
  message_as_read response get_user_profile m = get_user_profile_response_as_read x sound m
  message_as_read response update_user_profile m = update_user_profile_response_as_read x sound m
  message_as_read response delete_user m = m
  message_as_read response refresh_token m = refresh_token_response_as_read x sound m
  message_as_read response create_api_key m = create_api_key_response_as_read x sound m
  message_as_read response list_api_keys m = list_api_keys_response_as_read x sound m
  message_as_read response delete_api_key m = m
  message_as_read response validate_api_key m = m
  message_as_read response create_sdk_jwt m = m
  message_as_read response get_auth_details_for_sdk m = m

  -- With a sound wire format, for every method of the auth service: the request, and the
  -- response, that was serialized is deserialized to the same message, but that the times are in
  -- decimal form.
  pub auth_deserialize-serialize :
      (side : Side) (method : Method) (m : MessageOf side method) (bs : Bytes)
      → serialize x side method m ≡ some bs
      → deserialize x side method bs ≡ some (message_as_read side method m)
  unfolding serialize deserialize
  auth_deserialize-serialize request register_user m bs e =
      decode_register_user_request-encode x sound m bs e
  auth_deserialize-serialize request login m bs e = decode_login_request-encode x sound m bs e
  auth_deserialize-serialize request get_user_profile m bs e =
      decode_get_user_profile_request-encode x sound m bs e
  auth_deserialize-serialize request update_user_profile m bs e =
      decode_update_user_profile_request-encode x sound m bs e
  auth_deserialize-serialize request delete_user m bs e =
      decode_delete_user_request-encode x sound m bs e
  auth_deserialize-serialize request refresh_token m bs e =
      decode_refresh_token_request-encode x sound m bs e
  auth_deserialize-serialize request create_api_key m bs e =
      decode_create_api_key_request-encode x sound m bs e
  auth_deserialize-serialize request list_api_keys m bs e =
      decode_list_api_keys_request-encode x sound m bs e
  auth_deserialize-serialize request delete_api_key m bs e =
      decode_delete_api_key_request-encode x sound m bs e
  auth_deserialize-serialize request validate_api_key m bs e =
      decode_validate_api_key_request-encode x sound m bs e
  auth_deserialize-serialize request create_sdk_jwt m bs e =
      decode_create_sdk_jwt_request-encode x sound m bs e
  auth_deserialize-serialize request get_auth_details_for_sdk m bs e =
      decode_get_auth_details_for_sdk_request-encode x sound m bs e
  auth_deserialize-serialize response register_user m bs e =
      decode_register_user_response-encode x sound m bs e
  auth_deserialize-serialize response login m bs e = decode_login_response-encode x sound m bs e
  auth_deserialize-serialize response get_user_profile m bs e =
      decode_get_user_profile_response-encode x sound m bs e
  auth_deserialize-serialize response update_user_profile m bs e =
      decode_update_user_profile_response-encode x sound m bs e
  auth_deserialize-serialize response delete_user m bs e =
      decode_delete_user_response-encode x sound m bs e
  auth_deserialize-serialize response refresh_token m bs e =
      decode_refresh_token_response-encode x sound m bs e
  auth_deserialize-serialize response create_api_key m bs e =
      decode_create_api_key_response-encode x sound m bs e
  auth_deserialize-serialize response list_api_keys m bs e =
      decode_list_api_keys_response-encode x sound m bs e
  auth_deserialize-serialize response delete_api_key m bs e =
      decode_delete_api_key_response-encode x sound m bs e
  auth_deserialize-serialize response validate_api_key m bs e =
      decode_validate_api_key_response-encode x sound m bs e
  auth_deserialize-serialize response create_sdk_jwt m bs e =
      decode_create_sdk_jwt_response-encode x sound m bs e
  auth_deserialize-serialize response get_auth_details_for_sdk m bs e =
      decode_get_auth_details_for_sdk_response-encode x sound m bs e

  -- What the writer asks of a message.
  abbrev pub MessageFits : (side : Side) (method : Method) → MessageOf side method → Type 0
  MessageFits request register_user m = Unit
  MessageFits request login m = Unit
  MessageFits request get_user_profile m = Unit
  MessageFits request update_user_profile m = UpdateUserProfileRequestFits x sound m
  MessageFits request delete_user m = Unit
  MessageFits request refresh_token m = Unit
  MessageFits request create_api_key m = Unit
  MessageFits request list_api_keys m = Unit
  MessageFits request delete_api_key m = Unit
  MessageFits request validate_api_key m = Unit
  MessageFits request create_sdk_jwt m = Unit
  MessageFits request get_auth_details_for_sdk m = Unit
  MessageFits response register_user m = RegisterUserResponseFits x sound m
  MessageFits response login m = LoginResponseFits x sound m
  MessageFits response get_user_profile m = GetUserProfileResponseFits x sound m
  MessageFits response update_user_profile m = UpdateUserProfileResponseFits x sound m
  MessageFits response delete_user m = Unit
  MessageFits response refresh_token m = RefreshTokenResponseFits x sound m
  MessageFits response create_api_key m = CreateApiKeyResponseFits x sound m
  MessageFits response list_api_keys m = ListApiKeysResponseFits x sound m
  MessageFits response delete_api_key m = Unit
  MessageFits response validate_api_key m = Unit
  MessageFits response create_sdk_jwt m = Unit
  MessageFits response get_auth_details_for_sdk m = GetAuthDetailsForSdkResponseFits x sound m

  serialize-Returns :
      (side : Side) (method : Method) (m : MessageOf side method)
      → MessageFits side method m
      → Returns (serialize x side method m)
  unfolding serialize
  serialize-Returns request register_user m h = register_user_request-Returns x sound m
  serialize-Returns request login m h = login_request-Returns x sound m
  serialize-Returns request get_user_profile m h = get_user_profile_request-Returns x sound m
  serialize-Returns request update_user_profile m h =
      update_user_profile_request-Returns x sound m h
  serialize-Returns request delete_user m h = delete_user_request-Returns x sound m
  serialize-Returns request refresh_token m h = refresh_token_request-Returns x sound m
  serialize-Returns request create_api_key m h = create_api_key_request-Returns x sound m
  serialize-Returns request list_api_keys m h = list_api_keys_request-Returns x sound m
  serialize-Returns request delete_api_key m h = delete_api_key_request-Returns x sound m
  serialize-Returns request validate_api_key m h = validate_api_key_request-Returns x sound m
  serialize-Returns request create_sdk_jwt m h = create_sdk_jwt_request-Returns x sound m
  serialize-Returns request get_auth_details_for_sdk m h =
      get_auth_details_for_sdk_request-Returns x sound m
  serialize-Returns response register_user m h = register_user_response-Returns x sound m h
  serialize-Returns response login m h = login_response-Returns x sound m h
  serialize-Returns response get_user_profile m h = get_user_profile_response-Returns x sound m h
  serialize-Returns response update_user_profile m h =
      update_user_profile_response-Returns x sound m h
  serialize-Returns response delete_user m h = delete_user_response-Returns x sound m
  serialize-Returns response refresh_token m h = refresh_token_response-Returns x sound m h
  serialize-Returns response create_api_key m h = create_api_key_response-Returns x sound m h
  serialize-Returns response list_api_keys m h = list_api_keys_response-Returns x sound m h
  serialize-Returns response delete_api_key m h = delete_api_key_response-Returns x sound m
  serialize-Returns response validate_api_key m h = validate_api_key_response-Returns x sound m
  serialize-Returns response create_sdk_jwt m h = create_sdk_jwt_response-Returns x sound m
  serialize-Returns response get_auth_details_for_sdk m h =
      get_auth_details_for_sdk_response-Returns x sound m h

  -- With a sound wire format, for every method of the auth service and each request or response
  -- that the writer accepts, with its int32 numbers in range, its times texts of an int64 and its
  -- inner messages below 4 GiB: serializing it returns bytes, and deserializing them returns the
  -- same message, but that the times are in decimal form.
  pub auth_call_survives :
      (side : Side) (method : Method) (m : MessageOf side method)
      → MessageFits side method m
      → (bs : Bytes) × (serialize x side method m ≡ some bs)
        × (deserialize x side method bs ≡ some (message_as_read side method m))
  auth_call_survives side method m fits =
      let (bs, e) = serialize-Returns side method m fits in
      (bs, e, auth_deserialize-serialize side method m bs e)
