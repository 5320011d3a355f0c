-- ===== src/Gateway/Codec/Collections/Trips.antt =====
-- The messages of clientlibs/js/proto/apigateway/apigateway.ts about the deletion of collections
-- are decoded as they were encoded.
use vectron.Gateway.Messages.{
  ListCollectionsRequest, list_collections_request, DeleteResponse, delete_response,
}
use vectron.Prelude.{◌≡◌, refl, some}
use vectron.Gateway.Wire.{Bytes, Wire, IsSound}
use vectron.Gateway.Wire.Reads.{Writes, Writes-nil, decode_all-Reads}
use vectron.Gateway.Wire.Fields.{string_field-Writes, bool_field-Writes}
use vectron.Gateway.Codec.Collections.{
  delete_response_field, encode_delete_response, decode_delete_response, base_delete_response,
  list_collections_request_field, encode_list_collections_request, decode_list_collections_request,
  base_list_collections_request, DeleteCollectionRequest, delete_collection_request_field,
  base_delete_collection_request, encode_delete_collection_request,
  decode_delete_collection_request, DeleteCollectionResponse, delete_collection_response_field,
  base_delete_collection_response, encode_delete_collection_response,
  decode_delete_collection_response,
}

module _ {F : Type 0} (x : Wire F) (sound : IsSound x) where
  pub delete_collection_request-Writes :
      (m : DeleteCollectionRequest)
      → Writes x
          (delete_collection_request_field x)
          (encode_delete_collection_request x m)
          (base_delete_collection_request x)
          m
  unfolding encode_delete_collection_request delete_collection_request_field
  delete_collection_request-Writes m =
      let switch = delete_collection_request_field x in
      string_field-Writes x switch sound 10 (λ v. record { name = v }) m.name (λ r. refl)

  pub decode_delete_collection_request-encode :
      (m : DeleteCollectionRequest) (bs : Bytes)
      → encode_delete_collection_request x m ≡ some bs
      → decode_delete_collection_request x bs ≡ some m
  unfolding decode_delete_collection_request
  decode_delete_collection_request-encode m bs e =
      decode_all-Reads x (delete_collection_request_field x) bs _ m
        (delete_collection_request-Writes m bs e)

  pub delete_collection_response-Writes :
      (m : DeleteCollectionResponse)
      → Writes x
          (delete_collection_response_field x)
          (encode_delete_collection_response x m)
          (base_delete_collection_response x)
          m
  unfolding encode_delete_collection_response delete_collection_response_field
  delete_collection_response-Writes m =
      let switch = delete_collection_response_field x in
      bool_field-Writes x switch sound 8 (λ v. record { success = v }) m.success (λ r. refl)

  pub decode_delete_collection_response-encode :
      (m : DeleteCollectionResponse) (bs : Bytes)
      → encode_delete_collection_response x m ≡ some bs
      → decode_delete_collection_response x bs ≡ some m
  unfolding decode_delete_collection_response
  decode_delete_collection_response-encode m bs e =
      decode_all-Reads x (delete_collection_response_field x) bs _ m
        (delete_collection_response-Writes m bs e)

  pub delete_response-Writes :
      (m : DeleteResponse)
      → Writes x (delete_response_field x) (encode_delete_response x m) (base_delete_response x) m
  unfolding encode_delete_response delete_response_field
  delete_response-Writes delete_response = Writes-nil x (delete_response_field x) delete_response

  pub decode_delete_response-encode :
      (m : DeleteResponse) (bs : Bytes)
      → encode_delete_response x m ≡ some bs
      → decode_delete_response x bs ≡ some m
  unfolding decode_delete_response
  decode_delete_response-encode m bs e =
      decode_all-Reads x (delete_response_field x) bs _ m (delete_response-Writes m bs e)

  pub list_collections_request-Writes :
      (m : ListCollectionsRequest)
      → Writes x
          (list_collections_request_field x)
          (encode_list_collections_request x m)
          (base_list_collections_request x)
          m
  unfolding encode_list_collections_request list_collections_request_field
  list_collections_request-Writes list_collections_request =
      Writes-nil x (list_collections_request_field x) list_collections_request

  pub decode_list_collections_request-encode :
      (m : ListCollectionsRequest) (bs : Bytes)
      → encode_list_collections_request x m ≡ some bs
      → decode_list_collections_request x bs ≡ some m
  unfolding decode_list_collections_request
  decode_list_collections_request-encode m bs e =
      decode_all-Reads x (list_collections_request_field x) bs _ m
        (list_collections_request-Writes m bs e)
