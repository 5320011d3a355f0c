-- ===== src/Auth/Keys/Trips.antt =====
-- The messages of clientlibs/js/proto/auth/auth.ts about API keys are decoded as they were
-- encoded.
use vectron.Prelude.{◌≡◌, refl, map, String, Option, none, some}
use vectron.Gateway.Wire.{Bytes, Wire, IsSound}
use vectron.Gateway.Wire.Reads.{Writes, Writes-then, Writes-nil, decode_all-Reads}
use vectron.Gateway.Wire.Fields.{
  string_field-Writes, bool_field-Writes, int64_field-Writes, optional-Writes, messages-Writes,
  read_option,
}
use vectron.Auth.Keys.{
  ApiKey, api_key_field, base_api_key, encode_api_key, CreateApiKeyRequest,
  create_api_key_request_field, base_create_api_key_request, encode_create_api_key_request,
  decode_create_api_key_request, CreateApiKeyResponse, create_api_key_response_field,
  base_create_api_key_response, encode_create_api_key_response, decode_create_api_key_response,
  ListApiKeysRequest, list_api_keys_request_field, base_list_api_keys_request,
  encode_list_api_keys_request, decode_list_api_keys_request, list_api_keys_request,
  ListApiKeysResponse, list_api_keys_response_field, base_list_api_keys_response,
  encode_list_api_keys_response, decode_list_api_keys_response, DeleteApiKeyRequest,
  delete_api_key_request_field, base_delete_api_key_request, encode_delete_api_key_request,
  decode_delete_api_key_request, DeleteApiKeyResponse, delete_api_key_response_field,
  base_delete_api_key_response, encode_delete_api_key_response, decode_delete_api_key_response,
}

module _ {F : Type 0} (x : Wire F) (sound : IsSound x) where
  -- What is read of a `APIKey`.
  abbrev pub api_key_as_read : ApiKey → ApiKey
  api_key_as_read m = record m { created_at = x.to_int64 m.created_at }

  pub api_key-Writes :
      (m : ApiKey)
      → Writes x (api_key_field x) (encode_api_key x m) (base_api_key x) (api_key_as_read m)
  unfolding encode_api_key api_key_field
  api_key-Writes m =
      let switch = api_key_field x in
      let made : String → String → String → String → ApiKey =
        λ a b c d. record { key_prefix = a; user_id = b; created_at = c; name = d } in
      Writes-then x switch _ _ _ (made m.key_prefix "" "0" "") _
        (string_field-Writes x switch sound 10 (λ v. made v "" "0" "") m.key_prefix (λ r. refl))
        (Writes-then x switch _ _ _ (made m.key_prefix m.user_id "0" "") _
          (string_field-Writes x switch sound 18 (λ v. made m.key_prefix v "0" "") m.user_id
            (λ r. refl))
          (Writes-then x switch _ _ _ (made m.key_prefix m.user_id (x.to_int64 m.created_at) "") _
            (int64_field-Writes x switch sound 24 (λ v. made m.key_prefix m.user_id v "")
              m.created_at (λ r. refl))
            (string_field-Writes x switch sound 34
              (λ v. made m.key_prefix m.user_id (x.to_int64 m.created_at) v) m.name (λ r. refl))))

  pub create_api_key_request-Writes :
      (m : CreateApiKeyRequest)
      → Writes x
          (create_api_key_request_field x)
          (encode_create_api_key_request x m)
          (base_create_api_key_request x)
          m
  unfolding encode_create_api_key_request create_api_key_request_field
  create_api_key_request-Writes m =
      let switch = create_api_key_request_field x in
      string_field-Writes x switch sound 10 (λ v. record { name = v }) m.name (λ r. refl)

  pub decode_create_api_key_request-encode :
      (m : CreateApiKeyRequest) (bs : Bytes)
      → encode_create_api_key_request x m ≡ some bs
      → decode_create_api_key_request x bs ≡ some m
  unfolding decode_create_api_key_request
  decode_create_api_key_request-encode m bs e =
      decode_all-Reads x (create_api_key_request_field x) bs _ m
        (create_api_key_request-Writes m bs e)

  -- What is read of a `CreateAPIKeyResponse`.
  abbrev pub create_api_key_response_as_read : CreateApiKeyResponse → CreateApiKeyResponse
  create_api_key_response_as_read m = record m {
    key_info = read_option (api_key_as_read) m.key_info;
  }

  pub create_api_key_response-Writes :
      (m : CreateApiKeyResponse)
      → Writes x
          (create_api_key_response_field x)
          (encode_create_api_key_response x m)
          (base_create_api_key_response x)
          (create_api_key_response_as_read m)
  unfolding encode_create_api_key_response create_api_key_response_field
  create_api_key_response-Writes m =
      let switch = create_api_key_response_field x in
      let made : String → (Option ApiKey) → CreateApiKeyResponse =
        λ a b. record { full_key = a; key_info = b } in
      Writes-then x switch _ _ _ (made m.full_key none) _
        (string_field-Writes x switch sound 10 (λ v. made v none) m.full_key (λ r. refl))
        (optional-Writes x switch sound (api_key_field x) 18 (base_api_key x)
          (λ v. made m.full_key v) (encode_api_key x) api_key_as_read m.key_info (λ r. refl)
          api_key-Writes)

  pub decode_create_api_key_response-encode :
      (m : CreateApiKeyResponse) (bs : Bytes)
      → encode_create_api_key_response x m ≡ some bs
      → decode_create_api_key_response x bs ≡ some (create_api_key_response_as_read m)
  unfolding decode_create_api_key_response
  decode_create_api_key_response-encode m bs e =
      decode_all-Reads x (create_api_key_response_field x) bs _ (create_api_key_response_as_read m)
        (create_api_key_response-Writes m bs e)

  pub list_api_keys_request-Writes :
      (m : ListApiKeysRequest)
      → Writes x
          (list_api_keys_request_field x)
          (encode_list_api_keys_request x m)
          (base_list_api_keys_request x)
          m
  unfolding encode_list_api_keys_request list_api_keys_request_field
  list_api_keys_request-Writes list_api_keys_request =
      Writes-nil x (list_api_keys_request_field x) list_api_keys_request

  pub decode_list_api_keys_request-encode :
      (m : ListApiKeysRequest) (bs : Bytes)
      → encode_list_api_keys_request x m ≡ some bs
      → decode_list_api_keys_request x bs ≡ some m
  unfolding decode_list_api_keys_request
  decode_list_api_keys_request-encode m bs e =
      decode_all-Reads x (list_api_keys_request_field x) bs _ m
        (list_api_keys_request-Writes m bs e)

  -- What is read of a `ListAPIKeysResponse`.
  abbrev pub list_api_keys_response_as_read : ListApiKeysResponse → ListApiKeysResponse
  list_api_keys_response_as_read m = record m { keys = map (api_key_as_read) m.keys }

  pub list_api_keys_response-Writes :
      (m : ListApiKeysResponse)
      → Writes x
          (list_api_keys_response_field x)
          (encode_list_api_keys_response x m)
          (base_list_api_keys_response x)
          (list_api_keys_response_as_read m)
  unfolding encode_list_api_keys_response list_api_keys_response_field
  list_api_keys_response-Writes m =
      let switch = list_api_keys_response_field x in
      messages-Writes x switch sound (api_key_field x) 10 (base_api_key x)
        (λ v. record { keys = v }) (encode_api_key x) api_key_as_read m.keys (λ us r. refl)
        api_key-Writes

  pub decode_list_api_keys_response-encode :
      (m : ListApiKeysResponse) (bs : Bytes)
      → encode_list_api_keys_response x m ≡ some bs
      → decode_list_api_keys_response x bs ≡ some (list_api_keys_response_as_read m)
  unfolding decode_list_api_keys_response
  decode_list_api_keys_response-encode m bs e =
      decode_all-Reads x (list_api_keys_response_field x) bs _ (list_api_keys_response_as_read m)
        (list_api_keys_response-Writes m bs e)

  pub delete_api_key_request-Writes :
      (m : DeleteApiKeyRequest)
      → Writes x
          (delete_api_key_request_field x)
          (encode_delete_api_key_request x m)
          (base_delete_api_key_request x)
          m
  unfolding encode_delete_api_key_request delete_api_key_request_field
  delete_api_key_request-Writes m =
      let switch = delete_api_key_request_field x in
      string_field-Writes x switch sound 10 (λ v. record { key_prefix = v }) m.key_prefix
        (λ r. refl)

  pub decode_delete_api_key_request-encode :
      (m : DeleteApiKeyRequest) (bs : Bytes)
      → encode_delete_api_key_request x m ≡ some bs
      → decode_delete_api_key_request x bs ≡ some m
  unfolding decode_delete_api_key_request
  decode_delete_api_key_request-encode m bs e =
      decode_all-Reads x (delete_api_key_request_field x) bs _ m
        (delete_api_key_request-Writes m bs e)

  pub delete_api_key_response-Writes :
      (m : DeleteApiKeyResponse)
      → Writes x
          (delete_api_key_response_field x)
          (encode_delete_api_key_response x m)
          (base_delete_api_key_response x)
          m
  unfolding encode_delete_api_key_response delete_api_key_response_field
  delete_api_key_response-Writes m =
      let switch = delete_api_key_response_field x in
      bool_field-Writes x switch sound 8 (λ v. record { success = v }) m.success (λ r. refl)

  pub decode_delete_api_key_response-encode :
      (m : DeleteApiKeyResponse) (bs : Bytes)
      → encode_delete_api_key_response x m ≡ some bs
      → decode_delete_api_key_response x bs ≡ some m
  unfolding decode_delete_api_key_response
  decode_delete_api_key_response-encode m bs e =
      decode_all-Reads x (delete_api_key_response_field x) bs _ m
        (delete_api_key_response-Writes m bs e)
