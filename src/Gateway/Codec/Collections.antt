-- ===== src/Gateway/Codec/Collections.antt =====
-- The messages of clientlibs/js/proto/apigateway/apigateway.ts about the deletion of collections,
-- and their bytes.
pub mod Trips
pub mod Deliveries
use vectron.Gateway.Wire.{
  Bytes, Wire, Reader, Switch, unmatched, ◌then_write◌, write_all, take_into, take_message, field,
  string_field, bool_field, int32_field, int64_field, uint32_field, optional_field, message_field,
  decode_all,
}
use vectron.Gateway.Messages.{
  ListCollectionsRequest, list_collections_request, DeleteResponse, delete_response,
}
use vectron.Prelude.{
  ℕ, String, Bool, false, Option, none, some, List, [], ◌∷◌, ◌++◌, ℤ, pos, ◌==◌, if◌then◌else◌,
}

pub record DeleteCollectionRequest : Type 0 where
  pub name : String

pub record DeleteCollectionResponse : Type 0 where
  pub success : Bool

module _ {F : Type 0} (x : Wire F) where
  unfoldable pub encode_delete_collection_request : DeleteCollectionRequest → Option Bytes
  encode_delete_collection_request m = string_field x 10 m.name

  abbrev pub base_delete_collection_request : DeleteCollectionRequest
  base_delete_collection_request = record { name = "" }

  unfoldable pub delete_collection_request_field :
      ℕ → DeleteCollectionRequest → Reader → Switch DeleteCollectionRequest
  delete_collection_request_field tag m r =
      if tag == 10 then take_into x.take_string (λ v. record m { name = v }) r else unmatched

  unfoldable pub decode_delete_collection_request : Bytes → Option DeleteCollectionRequest
  unfolding delete_collection_request_field
  decode_delete_collection_request bs =
      decode_all x delete_collection_request_field base_delete_collection_request bs

  unfoldable pub encode_delete_collection_response : DeleteCollectionResponse → Option Bytes
  encode_delete_collection_response m = bool_field x 8 m.success

  abbrev pub base_delete_collection_response : DeleteCollectionResponse
  base_delete_collection_response = record { success = false }

  unfoldable pub delete_collection_response_field :
      ℕ → DeleteCollectionResponse → Reader → Switch DeleteCollectionResponse
  delete_collection_response_field tag m r =
      if tag == 8 then take_into x.take_bool (λ v. record m { success = v }) r else unmatched

  unfoldable pub decode_delete_collection_response : Bytes → Option DeleteCollectionResponse
  unfolding delete_collection_response_field
  decode_delete_collection_response bs =
      decode_all x delete_collection_response_field base_delete_collection_response bs

  unfoldable pub encode_delete_response : DeleteResponse → Option Bytes
  encode_delete_response m = some []

  abbrev pub base_delete_response : DeleteResponse
  base_delete_response = delete_response

  unfoldable pub delete_response_field : ℕ → DeleteResponse → Reader → Switch DeleteResponse
  delete_response_field tag m r = unmatched

  unfoldable pub decode_delete_response : Bytes → Option DeleteResponse
  unfolding delete_response_field
  decode_delete_response bs = decode_all x delete_response_field base_delete_response bs

  unfoldable pub encode_list_collections_request : ListCollectionsRequest → Option Bytes
  encode_list_collections_request m = some []

  abbrev pub base_list_collections_request : ListCollectionsRequest
  base_list_collections_request = list_collections_request

  unfoldable pub list_collections_request_field :
      ℕ → ListCollectionsRequest → Reader → Switch ListCollectionsRequest
  list_collections_request_field tag m r = unmatched

  unfoldable pub decode_list_collections_request : Bytes → Option ListCollectionsRequest
  unfolding list_collections_request_field
  decode_list_collections_request bs =
      decode_all x list_collections_request_field base_list_collections_request bs
