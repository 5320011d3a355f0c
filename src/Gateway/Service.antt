-- ===== src/Gateway/Service.antt =====
-- `VectronServiceService` of clientlibs/js/proto/apigateway/apigateway.ts: the methods of the gateway,
-- with the messages that they take and return.
pub mod Calls
use vectron.Prelude.{Option}
use vectron.Gateway.Wire.{Bytes, Wire}
use vectron.Gateway.Messages.{
  CreateCollectionRequest, CreateCollectionResponse, UpsertRequest, UpsertResponse, SearchRequest,
  SearchResponse, GetRequest, GetResponse, DeleteRequest, DeleteResponse, ListCollectionsRequest,
  ListCollectionsResponse, GetCollectionStatusRequest, GetCollectionStatusResponse,
}
use vectron.Gateway.Codec.Requests.{
  encode_create_collection_request, decode_create_collection_request, encode_search_request,
  decode_search_request, encode_get_request, decode_get_request, encode_delete_request,
  decode_delete_request, encode_get_collection_status_request, decode_get_collection_status_request,
}
use vectron.Gateway.Codec.Replies.{
  encode_create_collection_response, decode_create_collection_response, encode_upsert_response,
  decode_upsert_response, encode_list_collections_response, decode_list_collections_response,
  encode_get_collection_status_response, decode_get_collection_status_response,
}
use vectron.Gateway.Codec.Points.{
  encode_upsert_request, decode_upsert_request, encode_search_response, decode_search_response,
  encode_get_response, decode_get_response, Zero,
}
use vectron.Gateway.Codec.Collections.{
  DeleteCollectionRequest, encode_delete_collection_request, decode_delete_collection_request,
  DeleteCollectionResponse, encode_delete_collection_response, decode_delete_collection_response,
  encode_delete_response, decode_delete_response, encode_list_collections_request,
  decode_list_collections_request,
}
use vectron.Gateway.Codec.Profiles.{
  UpdateUserProfileRequest, encode_update_user_profile_request, decode_update_user_profile_request,
  UpdateUserProfileResponse, encode_update_user_profile_response,
  decode_update_user_profile_response,
}
use vectron.Gateway.Codec.Feedback.{
  SubmitFeedbackRequest, encode_submit_feedback_request, decode_submit_feedback_request,
  SubmitFeedbackResponse, encode_submit_feedback_response, decode_submit_feedback_response,
}

pub data Method : Type 0 where
  create_collection : Method
  delete_collection : Method
  upsert : Method
  search : Method
  search_stream : Method
  get : Method
  delete : Method
  list_collections : Method
  get_collection_status : Method
  update_user_profile : Method
  submit_feedback : Method

-- What a method takes and what it returns; for a stream, each of its messages.
pub data Side : Type 0 where
  request : Side
  response : Side

abbrev pub MessageOf : Type 0 → Side → Method → Type 0
MessageOf F request create_collection = CreateCollectionRequest
MessageOf F request delete_collection = DeleteCollectionRequest
MessageOf F request upsert = UpsertRequest F
MessageOf F request search = SearchRequest F
MessageOf F request search_stream = SearchRequest F
MessageOf F request get = GetRequest
MessageOf F request delete = DeleteRequest
MessageOf F request list_collections = ListCollectionsRequest
MessageOf F request get_collection_status = GetCollectionStatusRequest
MessageOf F request update_user_profile = UpdateUserProfileRequest
MessageOf F request submit_feedback = SubmitFeedbackRequest
MessageOf F response create_collection = CreateCollectionResponse
MessageOf F response delete_collection = DeleteCollectionResponse
MessageOf F response upsert = UpsertResponse
MessageOf F response search = SearchResponse F
MessageOf F response search_stream = SearchResponse F
MessageOf F response get = GetResponse F
MessageOf F response delete = DeleteResponse
MessageOf F response list_collections = ListCollectionsResponse
MessageOf F response get_collection_status = GetCollectionStatusResponse
MessageOf F response update_user_profile = UpdateUserProfileResponse
MessageOf F response submit_feedback = SubmitFeedbackResponse

module _ {F : Type 0} (x : Wire F) (z : Zero F) where
  -- `requestSerialize` and `responseSerialize`
  unfoldable pub serialize :
      (side : Side) (method : Method) → MessageOf F side method → Option Bytes
  serialize request create_collection m = encode_create_collection_request x m
  serialize request delete_collection m = encode_delete_collection_request x m
  serialize request upsert m = encode_upsert_request x m
  serialize request search m = encode_search_request x m
  serialize request search_stream m = encode_search_request x m
  serialize request get m = encode_get_request x m
  serialize request delete m = encode_delete_request x m
  serialize request list_collections m = encode_list_collections_request x m
  serialize request get_collection_status m = encode_get_collection_status_request x m
  serialize request update_user_profile m = encode_update_user_profile_request x m
  serialize request submit_feedback m = encode_submit_feedback_request x m
  serialize response create_collection m = encode_create_collection_response x m
  serialize response delete_collection m = encode_delete_collection_response x m
  serialize response upsert m = encode_upsert_response x m
  serialize response search m = encode_search_response x z m
  serialize response search_stream m = encode_search_response x z m
  serialize response get m = encode_get_response x m
  serialize response delete m = encode_delete_response x m
  serialize response list_collections m = encode_list_collections_response x m
  serialize response get_collection_status m = encode_get_collection_status_response x m
  serialize response update_user_profile m = encode_update_user_profile_response x m
  serialize response submit_feedback m = encode_submit_feedback_response x m

  -- `requestDeserialize` and `responseDeserialize`
  unfoldable pub deserialize :
      (side : Side) (method : Method) → Bytes → Option (MessageOf F side method)
  deserialize request create_collection bs = decode_create_collection_request x bs
  deserialize request delete_collection bs = decode_delete_collection_request x bs
  deserialize request upsert bs = decode_upsert_request x bs
  deserialize request search bs = decode_search_request x bs
  deserialize request search_stream bs = decode_search_request x bs
  deserialize request get bs = decode_get_request x bs
  deserialize request delete bs = decode_delete_request x bs
  deserialize request list_collections bs = decode_list_collections_request x bs
  deserialize request get_collection_status bs = decode_get_collection_status_request x bs
  deserialize request update_user_profile bs = decode_update_user_profile_request x bs
  deserialize request submit_feedback bs = decode_submit_feedback_request x bs
  deserialize response create_collection bs = decode_create_collection_response x bs
  deserialize response delete_collection bs = decode_delete_collection_response x bs
  deserialize response upsert bs = decode_upsert_response x bs
  deserialize response search bs = decode_search_response x z bs
  deserialize response search_stream bs = decode_search_response x z bs
  deserialize response get bs = decode_get_response x bs
  deserialize response delete bs = decode_delete_response x bs
  deserialize response list_collections bs = decode_list_collections_response x bs
  deserialize response get_collection_status bs = decode_get_collection_status_response x bs
  deserialize response update_user_profile bs = decode_update_user_profile_response x bs
  deserialize response submit_feedback bs = decode_submit_feedback_response x bs
