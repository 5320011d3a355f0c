-- ===== src/Gateway/Codec/Plain.antt =====
-- Messages of clientlibs/js/proto/apigateway/apigateway.ts without points that are written
-- without an exception.
use vectron.Prelude.{arith}
use vectron.Gateway.Wire.{Wire, IsSound}
use vectron.Gateway.Wire.Returns.{
  Returns, IsInt32, Returns-then, Returns-string, Returns-bool, Returns-int32, Returns-strings,
}
use vectron.Gateway.Messages.{
  CreateCollectionRequest, GetCollectionStatusRequest, GetRequest, DeleteRequest,
  CreateCollectionResponse, UpsertResponse, ListCollectionsResponse,
}
use vectron.Gateway.Codec.Requests.{
  encode_create_collection_request, encode_get_collection_status_request, encode_get_request,
  encode_delete_request,
}
use vectron.Gateway.Codec.Replies.{
  encode_create_collection_response, encode_upsert_response, encode_list_collections_response,
}

module _ {F : Type 0} (x : Wire F) (sound : IsSound x) where
  -- What the writer asks of a `CreateCollectionRequest`.
  abbrev pub CreateCollectionRequestFits : CreateCollectionRequest → Type 0
  CreateCollectionRequestFits m = IsInt32 m.dimension

  pub create_collection_request-Returns :
      (m : CreateCollectionRequest)
      → CreateCollectionRequestFits m
      → Returns (encode_create_collection_request x m)
  unfolding encode_create_collection_request
  create_collection_request-Returns m h0 =
      Returns-then _ _ (Returns-string x sound 10 m.name (omega arith)) (
        Returns-then _ _ (Returns-int32 x sound 16 m.dimension (omega arith) h0)
          (Returns-string x sound 26 m.distance (omega arith)))

  pub get_collection_status_request-Returns :
      (m : GetCollectionStatusRequest) → Returns (encode_get_collection_status_request x m)
  unfolding encode_get_collection_status_request
  get_collection_status_request-Returns m = Returns-string x sound 10 m.name (omega arith)

  pub get_request-Returns : (m : GetRequest) → Returns (encode_get_request x m)
  unfolding encode_get_request
  get_request-Returns m =
      Returns-then _ _ (Returns-string x sound 10 m.collection (omega arith))
        (Returns-string x sound 18 m.id (omega arith))

  pub delete_request-Returns : (m : DeleteRequest) → Returns (encode_delete_request x m)
  unfolding encode_delete_request
  delete_request-Returns m =
      Returns-then _ _ (Returns-string x sound 10 m.collection (omega arith))
        (Returns-string x sound 18 m.id (omega arith))

  pub create_collection_response-Returns :
      (m : CreateCollectionResponse) → Returns (encode_create_collection_response x m)
  unfolding encode_create_collection_response
  create_collection_response-Returns m = Returns-bool x sound 8 m.success (omega arith)

  -- What the writer asks of a `UpsertResponse`.
  abbrev pub UpsertResponseFits : UpsertResponse → Type 0
  UpsertResponseFits m = IsInt32 m.upserted

  pub upsert_response-Returns :
      (m : UpsertResponse) → UpsertResponseFits m → Returns (encode_upsert_response x m)
  unfolding encode_upsert_response
  upsert_response-Returns m h0 = Returns-int32 x sound 8 m.upserted (omega arith) h0

  pub list_collections_response-Returns :
      (m : ListCollectionsResponse) → Returns (encode_list_collections_response x m)
  unfolding encode_list_collections_response
  list_collections_response-Returns m = Returns-strings x sound 10 m.collections (omega arith)
