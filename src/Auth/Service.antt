-- ===== src/Auth/Service.antt =====
-- `AuthServiceService` of clientlibs/js/proto/auth/auth.ts: the methods of the auth service, with the
-- messages that they take and return.
pub mod Calls
use vectron.Prelude.{Option}
use vectron.Gateway.Wire.{Bytes, Wire}
use vectron.Auth.Accounts.{
  RegisterUserRequest, encode_register_user_request, decode_register_user_request,
  RegisterUserResponse, encode_register_user_response, decode_register_user_response, LoginRequest,
  encode_login_request, decode_login_request, LoginResponse, encode_login_response,
  decode_login_response, DeleteUserRequest, encode_delete_user_request, decode_delete_user_request,
  DeleteUserResponse, encode_delete_user_response, decode_delete_user_response,
}
use vectron.Auth.Profiles.{
  GetUserProfileRequest, encode_get_user_profile_request, decode_get_user_profile_request,
  GetUserProfileResponse, encode_get_user_profile_response, decode_get_user_profile_response,
  UpdateUserProfileRequest, encode_update_user_profile_request, decode_update_user_profile_request,
  UpdateUserProfileResponse, encode_update_user_profile_response,
  decode_update_user_profile_response, RefreshTokenRequest, encode_refresh_token_request,
  decode_refresh_token_request, RefreshTokenResponse, encode_refresh_token_response,
  decode_refresh_token_response,
}
use vectron.Auth.Keys.{
  CreateApiKeyRequest, encode_create_api_key_request, decode_create_api_key_request,
  CreateApiKeyResponse, encode_create_api_key_response, decode_create_api_key_response,
  ListApiKeysRequest, encode_list_api_keys_request, decode_list_api_keys_request,
  ListApiKeysResponse, encode_list_api_keys_response, decode_list_api_keys_response,
  DeleteApiKeyRequest, encode_delete_api_key_request, decode_delete_api_key_request,
  DeleteApiKeyResponse, encode_delete_api_key_response, decode_delete_api_key_response,
}
use vectron.Auth.Tokens.{
  ValidateApiKeyRequest, encode_validate_api_key_request, decode_validate_api_key_request,
  ValidateApiKeyResponse, encode_validate_api_key_response, decode_validate_api_key_response,
  CreateSdkJwtRequest, encode_create_sdk_jwt_request, decode_create_sdk_jwt_request,
  CreateSdkJwtResponse, encode_create_sdk_jwt_response, decode_create_sdk_jwt_response,
  GetAuthDetailsForSdkRequest, encode_get_auth_details_for_sdk_request,
  decode_get_auth_details_for_sdk_request, GetAuthDetailsForSdkResponse,
  encode_get_auth_details_for_sdk_response, decode_get_auth_details_for_sdk_response,
}

pub data Method : Type 0 where
  register_user : Method
  login : Method
  get_user_profile : Method
  update_user_profile : Method
  delete_user : Method
  refresh_token : Method
  create_api_key : Method
  list_api_keys : Method
  delete_api_key : Method
  validate_api_key : Method
  create_sdk_jwt : Method
  get_auth_details_for_sdk : Method

-- What a method takes and what it returns.
pub data Side : Type 0 where
  request : Side
  response : Side

abbrev pub MessageOf : Side → Method → Type 0
MessageOf request register_user = RegisterUserRequest
MessageOf request login = LoginRequest
MessageOf request get_user_profile = GetUserProfileRequest
MessageOf request update_user_profile = UpdateUserProfileRequest
MessageOf request delete_user = DeleteUserRequest
MessageOf request refresh_token = RefreshTokenRequest
MessageOf request create_api_key = CreateApiKeyRequest
MessageOf request list_api_keys = ListApiKeysRequest
MessageOf request delete_api_key = DeleteApiKeyRequest
MessageOf request validate_api_key = ValidateApiKeyRequest
MessageOf request create_sdk_jwt = CreateSdkJwtRequest
MessageOf request get_auth_details_for_sdk = GetAuthDetailsForSdkRequest
MessageOf response register_user = RegisterUserResponse
MessageOf response login = LoginResponse
MessageOf response get_user_profile = GetUserProfileResponse
MessageOf response update_user_profile = UpdateUserProfileResponse
MessageOf response delete_user = DeleteUserResponse
MessageOf response refresh_token = RefreshTokenResponse
MessageOf response create_api_key = CreateApiKeyResponse
MessageOf response list_api_keys = ListApiKeysResponse
MessageOf response delete_api_key = DeleteApiKeyResponse
MessageOf response validate_api_key = ValidateApiKeyResponse
MessageOf response create_sdk_jwt = CreateSdkJwtResponse
MessageOf response get_auth_details_for_sdk = GetAuthDetailsForSdkResponse

module _ {F : Type 0} (x : Wire F) where
  -- `requestSerialize` and `responseSerialize`
  unfoldable pub serialize : (side : Side) (method : Method) → MessageOf side method → Option Bytes
  serialize request register_user m = encode_register_user_request x m
  serialize request login m = encode_login_request x m
  serialize request get_user_profile m = encode_get_user_profile_request x m
  serialize request update_user_profile m = encode_update_user_profile_request x m
  serialize request delete_user m = encode_delete_user_request x m
  serialize request refresh_token m = encode_refresh_token_request x m
  serialize request create_api_key m = encode_create_api_key_request x m
  serialize request list_api_keys m = encode_list_api_keys_request x m
  serialize request delete_api_key m = encode_delete_api_key_request x m
  serialize request validate_api_key m = encode_validate_api_key_request x m
  serialize request create_sdk_jwt m = encode_create_sdk_jwt_request x m
  serialize request get_auth_details_for_sdk m = encode_get_auth_details_for_sdk_request x m
  serialize response register_user m = encode_register_user_response x m
  serialize response login m = encode_login_response x m
  serialize response get_user_profile m = encode_get_user_profile_response x m
  serialize response update_user_profile m = encode_update_user_profile_response x m
  serialize response delete_user m = encode_delete_user_response x m
  serialize response refresh_token m = encode_refresh_token_response x m
  serialize response create_api_key m = encode_create_api_key_response x m
  serialize response list_api_keys m = encode_list_api_keys_response x m
  serialize response delete_api_key m = encode_delete_api_key_response x m
  serialize response validate_api_key m = encode_validate_api_key_response x m
  serialize response create_sdk_jwt m = encode_create_sdk_jwt_response x m
  serialize response get_auth_details_for_sdk m = encode_get_auth_details_for_sdk_response x m

  -- `requestDeserialize` and `responseDeserialize`
  unfoldable pub deserialize :
      (side : Side) (method : Method) → Bytes → Option (MessageOf side method)
  deserialize request register_user bs = decode_register_user_request x bs
  deserialize request login bs = decode_login_request x bs
  deserialize request get_user_profile bs = decode_get_user_profile_request x bs
  deserialize request update_user_profile bs = decode_update_user_profile_request x bs
  deserialize request delete_user bs = decode_delete_user_request x bs
  deserialize request refresh_token bs = decode_refresh_token_request x bs
  deserialize request create_api_key bs = decode_create_api_key_request x bs
  deserialize request list_api_keys bs = decode_list_api_keys_request x bs
  deserialize request delete_api_key bs = decode_delete_api_key_request x bs
  deserialize request validate_api_key bs = decode_validate_api_key_request x bs
  deserialize request create_sdk_jwt bs = decode_create_sdk_jwt_request x bs
  deserialize request get_auth_details_for_sdk bs = decode_get_auth_details_for_sdk_request x bs
  deserialize response register_user bs = decode_register_user_response x bs
  deserialize response login bs = decode_login_response x bs
  deserialize response get_user_profile bs = decode_get_user_profile_response x bs
  deserialize response update_user_profile bs = decode_update_user_profile_response x bs
  deserialize response delete_user bs = decode_delete_user_response x bs
  deserialize response refresh_token bs = decode_refresh_token_response x bs
  deserialize response create_api_key bs = decode_create_api_key_response x bs
  deserialize response list_api_keys bs = decode_list_api_keys_response x bs
  deserialize response delete_api_key bs = decode_delete_api_key_response x bs
  deserialize response validate_api_key bs = decode_validate_api_key_response x bs
  deserialize response create_sdk_jwt bs = decode_create_sdk_jwt_response x bs
  deserialize response get_auth_details_for_sdk bs = decode_get_auth_details_for_sdk_response x bs
