-- ===== src/Gateway/Codec/Collections/Deliveries.antt =====
-- The messages of clientlibs/js/proto/apigateway/apigateway.ts to delete a collection, and those
-- without fields, are written without an exception.
use vectron.Prelude.{refl, arith, []}
use vectron.Gateway.Wire.{Wire, IsSound}
use vectron.Gateway.Wire.Returns.{Returns, Returns-string, Returns-bool}
use vectron.Gateway.Messages.{DeleteResponse, ListCollectionsRequest}
use vectron.Gateway.Codec.Collections.{
  DeleteCollectionRequest, DeleteCollectionResponse, encode_delete_collection_request,
  encode_delete_collection_response, encode_delete_response, encode_list_collections_request,
}

module _ {F : Type 0} (x : Wire F) (sound : IsSound x) where
  pub delete_collection_request-Returns :
      (m : DeleteCollectionRequest) → Returns (encode_delete_collection_request x m)
  unfolding encode_delete_collection_request
  delete_collection_request-Returns m = Returns-string x sound 10 m.name (omega arith)

  pub delete_collection_response-Returns :
      (m : DeleteCollectionResponse) → Returns (encode_delete_collection_response x m)
  unfolding encode_delete_collection_response
  delete_collection_response-Returns m = Returns-bool x sound 8 m.success (omega arith)

  pub delete_response-Returns : (m : DeleteResponse) → Returns (encode_delete_response x m)
  unfolding encode_delete_response
  delete_response-Returns m = ([], refl)

  pub list_collections_request-Returns :
      (m : ListCollectionsRequest) → Returns (encode_list_collections_request x m)
  unfolding encode_list_collections_request
  list_collections_request-Returns m = ([], refl)
