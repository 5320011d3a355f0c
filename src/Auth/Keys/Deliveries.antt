-- ===== src/Auth/Keys/Deliveries.antt =====
-- The messages of clientlibs/js/proto/auth/auth.ts about API keys that are written without an
-- exception.
use vectron.Prelude.{◌≡◌, refl, true, All, arith, []}
use vectron.Gateway.Wire.{Wire, IsSound}
use vectron.Gateway.Wire.Returns.{
  Returns, IsInner, IsOptional, Returns-then, Returns-string, Returns-bool, Returns-int64,
  Returns-optional, Returns-messages,
}
use vectron.Auth.Keys.{
  ApiKey, encode_api_key, CreateApiKeyRequest, encode_create_api_key_request, CreateApiKeyResponse,
  encode_create_api_key_response, ListApiKeysRequest, encode_list_api_keys_request,
  ListApiKeysResponse, encode_list_api_keys_response, DeleteApiKeyRequest,
  encode_delete_api_key_request, DeleteApiKeyResponse, encode_delete_api_key_response,
}

module _ {F : Type 0} (x : Wire F) (sound : IsSound x) where
  -- What the writer asks of a `APIKey`.
  abbrev pub ApiKeyFits : ApiKey → Type 0
  ApiKeyFits m = (x.is_int64 m.created_at ≡ true)

  pub api_key-Returns : (m : ApiKey) → ApiKeyFits m → Returns (encode_api_key x m)
  unfolding encode_api_key
  api_key-Returns m h0 = Returns-then _ _ (Returns-string x sound 10 m.key_prefix (omega arith)) (
      Returns-then _ _ (Returns-string x sound 18 m.user_id (omega arith)) (
        Returns-then _ _ (Returns-int64 x sound 24 m.created_at (omega arith) h0)
          (Returns-string x sound 34 m.name (omega arith))))

  pub create_api_key_request-Returns :
      (m : CreateApiKeyRequest) → Returns (encode_create_api_key_request x m)
  unfolding encode_create_api_key_request
  create_api_key_request-Returns m = Returns-string x sound 10 m.name (omega arith)

  -- What the writer asks of a `CreateAPIKeyResponse`.
  abbrev pub CreateApiKeyResponseFits : CreateApiKeyResponse → Type 0
  CreateApiKeyResponseFits m = IsOptional ApiKeyFits (encode_api_key x) m.key_info

  pub create_api_key_response-Returns :
      (m : CreateApiKeyResponse)
      → CreateApiKeyResponseFits m
      → Returns (encode_create_api_key_response x m)
  unfolding encode_create_api_key_response
  create_api_key_response-Returns m h0 =
      Returns-then _ _ (Returns-string x sound 10 m.full_key (omega arith)) (
        Returns-optional x sound 18 ApiKeyFits (encode_api_key x) m.key_info (omega arith)
          api_key-Returns h0)

  pub list_api_keys_request-Returns :
      (m : ListApiKeysRequest) → Returns (encode_list_api_keys_request x m)
  unfolding encode_list_api_keys_request
  list_api_keys_request-Returns m = ([], refl)

  -- What the writer asks of a `ListAPIKeysResponse`.
  abbrev pub ListApiKeysResponseFits : ListApiKeysResponse → Type 0
  ListApiKeysResponseFits m = All (IsInner ApiKeyFits (encode_api_key x)) m.keys

  pub list_api_keys_response-Returns :
      (m : ListApiKeysResponse)
      → ListApiKeysResponseFits m
      → Returns (encode_list_api_keys_response x m)
  unfolding encode_list_api_keys_response
  list_api_keys_response-Returns m h0 =
      Returns-messages x sound 10 ApiKeyFits (encode_api_key x) m.keys (omega arith) api_key-Returns
        h0

  pub delete_api_key_request-Returns :
      (m : DeleteApiKeyRequest) → Returns (encode_delete_api_key_request x m)
  unfolding encode_delete_api_key_request
  delete_api_key_request-Returns m = Returns-string x sound 10 m.key_prefix (omega arith)

  pub delete_api_key_response-Returns :
      (m : DeleteApiKeyResponse) → Returns (encode_delete_api_key_response x m)
  unfolding encode_delete_api_key_response
  delete_api_key_response-Returns m = Returns-bool x sound 8 m.success (omega arith)
