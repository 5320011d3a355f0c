-- ===== src/Gateway/Service/Calls.antt =====
-- What one side of the gateway in clientlibs/js/proto/apigateway/apigateway.ts sends, the other reads.
use vectron.Prelude.{◌≡◌, some, map, All}
use vectron.Gateway.Wire.{Bytes, Wire, IsSound}
use vectron.Gateway.Codec.Points.{Zero}
use vectron.Gateway.Codec.RequestTrips.{
  decode_create_collection_request-encode, decode_search_request-encode, decode_get_request-encode,
  decode_delete_request-encode, decode_get_collection_status_request-encode, search_as_read,
}
use vectron.Gateway.Codec.ReplyTrips.{
  decode_create_collection_response-encode, decode_upsert_response-encode,
  decode_list_collections_response-encode, decode_get_collection_status_response-encode,
  status_as_read,
}
use vectron.Gateway.Codec.PointTrips.{
  decode_upsert_request-encode, decode_search_response-encode, decode_get_response-encode,
  upsert_as_read, found_as_read, result_as_read,
}
use vectron.Gateway.Codec.Collections.Trips.{
  decode_delete_collection_request-encode, decode_delete_collection_response-encode,
  decode_delete_response-encode, decode_list_collections_request-encode,
}
use vectron.Gateway.Codec.Profiles.Trips.{
  decode_update_user_profile_request-encode, decode_update_user_profile_response-encode,
  update_user_profile_response_as_read,
}
use vectron.Gateway.Codec.Feedback.Trips.{
  decode_submit_feedback_request-encode, decode_submit_feedback_response-encode,
  submit_feedback_request_as_read,
}
use vectron.Gateway.Wire.Returns.{Returns}
use vectron.Gateway.Codec.Deliveries.{
  SearchFits, PointFits, search_request-Returns, upsert_request-Returns,
}
use vectron.Gateway.Codec.Plain.{
  CreateCollectionRequestFits, create_collection_request-Returns,
  get_collection_status_request-Returns, get_request-Returns, delete_request-Returns,
  create_collection_response-Returns, UpsertResponseFits, upsert_response-Returns,
  list_collections_response-Returns,
}
use vectron.Gateway.Codec.Answers.{
  StatusFits, get_collection_status_response-Returns, FoundFits, get_response-Returns, ResultsFit,
  search_response-Returns,
}
use vectron.Gateway.Codec.Collections.Deliveries.{
  delete_collection_request-Returns, delete_collection_response-Returns, delete_response-Returns,
  list_collections_request-Returns,
}
use vectron.Gateway.Codec.Profiles.Deliveries.{
  UpdateUserProfileRequestFits, update_user_profile_request-Returns, UpdateUserProfileResponseFits,
  update_user_profile_response-Returns,
}
use vectron.Gateway.Codec.Feedback.Deliveries.{
  SubmitFeedbackRequestFits, submit_feedback_request-Returns, submit_feedback_response-Returns,
}
use vectron.Gateway.Service.{
  Method, Side, MessageOf, request, response, serialize, deserialize, create_collection,
  delete_collection, upsert, search, search_stream, get, delete, list_collections,
  get_collection_status, update_user_profile, submit_feedback,
}

module _ {F : Type 0} (x : Wire F) (z : Zero F) (sound : IsSound x) where
  -- What is read of a message: floats of 32 bits, a score that tests as zero as the number 0, large
  -- integers in their decimal form, and the last of the entries with one key.
  abbrev pub message_as_read :
      (side : Side) (method : Method) → MessageOf F side method → MessageOf F side method
  message_as_read request create_collection m = m
  message_as_read request delete_collection m = m
  message_as_read request upsert m = upsert_as_read x sound m
  message_as_read request search m = search_as_read x sound m
  message_as_read request search_stream m = search_as_read x sound m
  message_as_read request get m = m
  message_as_read request delete m = m
  message_as_read request list_collections m = m
  message_as_read request get_collection_status m = m
  message_as_read request update_user_profile m = m
  message_as_read request submit_feedback m = submit_feedback_request_as_read x sound m
  message_as_read response create_collection m = m
  message_as_read response delete_collection m = m
  message_as_read response upsert m = m
  message_as_read response search m = record { results = map (result_as_read x sound z) m.results }
  message_as_read response search_stream m = record {
    results = map (result_as_read x sound z) m.results;
  }
  message_as_read response get m = found_as_read x sound m
  message_as_read response delete m = m
  message_as_read response list_collections m = m
  message_as_read response get_collection_status m = status_as_read x sound m
  message_as_read response update_user_profile m = update_user_profile_response_as_read x sound m
  message_as_read response submit_feedback m = m

  -- What was serialized is deserialized to the message as it is read.
  gateway_deserialize-serialize :
      (side : Side) (method : Method) (m : MessageOf F side method) (bs : Bytes)
      → serialize x z side method m ≡ some bs
      → deserialize x z side method bs ≡ some (message_as_read side method m)
  unfolding serialize deserialize
  gateway_deserialize-serialize request create_collection m bs e =
      decode_create_collection_request-encode x sound m bs e
  gateway_deserialize-serialize request delete_collection m bs e =
      decode_delete_collection_request-encode x sound m bs e
  gateway_deserialize-serialize request upsert m bs e = decode_upsert_request-encode x sound m bs e
  gateway_deserialize-serialize request search m bs e = decode_search_request-encode x sound m bs e
  gateway_deserialize-serialize request search_stream m bs e =
      decode_search_request-encode x sound m bs e
  gateway_deserialize-serialize request get m bs e = decode_get_request-encode x sound m bs e
  gateway_deserialize-serialize request delete m bs e = decode_delete_request-encode x sound m bs e
  gateway_deserialize-serialize request list_collections m bs e =
      decode_list_collections_request-encode x sound m bs e
  gateway_deserialize-serialize request get_collection_status m bs e =
      decode_get_collection_status_request-encode x sound m bs e
  gateway_deserialize-serialize request update_user_profile m bs e =
      decode_update_user_profile_request-encode x sound m bs e
  gateway_deserialize-serialize request submit_feedback m bs e =
      decode_submit_feedback_request-encode x sound m bs e
  gateway_deserialize-serialize response create_collection m bs e =
      decode_create_collection_response-encode x sound m bs e
  gateway_deserialize-serialize response delete_collection m bs e =
      decode_delete_collection_response-encode x sound m bs e
  gateway_deserialize-serialize response upsert m bs e =
      decode_upsert_response-encode x sound m bs e
  gateway_deserialize-serialize response search m bs e =
      decode_search_response-encode x sound z m bs e
  gateway_deserialize-serialize response search_stream m bs e =
      decode_search_response-encode x sound z m bs e
  gateway_deserialize-serialize response get m bs e = decode_get_response-encode x sound m bs e
  gateway_deserialize-serialize response delete m bs e =
      decode_delete_response-encode x sound m bs e
  gateway_deserialize-serialize response list_collections m bs e =
      decode_list_collections_response-encode x sound m bs e
  gateway_deserialize-serialize response get_collection_status m bs e =
      decode_get_collection_status_response-encode x sound m bs e
  gateway_deserialize-serialize response update_user_profile m bs e =
      decode_update_user_profile_response-encode x sound m bs e
  gateway_deserialize-serialize response submit_feedback m bs e =
      decode_submit_feedback_response-encode x sound m bs e

  -- What the writer asks of a message.
  abbrev pub MessageFits : (side : Side) (method : Method) → MessageOf F side method → Type 0
  MessageFits request create_collection m = CreateCollectionRequestFits x sound m
  MessageFits request delete_collection m = Unit
  MessageFits request upsert m = All (PointFits x sound) m.points
  MessageFits request search m = SearchFits x sound m
  MessageFits request search_stream m = SearchFits x sound m
  MessageFits request get m = Unit
  MessageFits request delete m = Unit
  MessageFits request list_collections m = Unit
  MessageFits request get_collection_status m = Unit
  MessageFits request update_user_profile m = UpdateUserProfileRequestFits x sound m
  MessageFits request submit_feedback m = SubmitFeedbackRequestFits x sound m
  MessageFits response create_collection m = Unit
  MessageFits response delete_collection m = Unit
  MessageFits response upsert m = UpsertResponseFits x sound m
  MessageFits response search m = ResultsFit x sound z m
  MessageFits response search_stream m = ResultsFit x sound z m
  MessageFits response get m = FoundFits x sound m.point
  MessageFits response delete m = Unit
  MessageFits response list_collections m = Unit
  MessageFits response get_collection_status m = StatusFits x sound m
  MessageFits response update_user_profile m = UpdateUserProfileResponseFits x sound m
  MessageFits response submit_feedback m = Unit

  serialize-Returns :
      (side : Side) (method : Method) (m : MessageOf F side method)
      → MessageFits side method m
      → Returns (serialize x z side method m)
  unfolding serialize
  serialize-Returns request create_collection m h = create_collection_request-Returns x sound m h
  serialize-Returns request delete_collection m h = delete_collection_request-Returns x sound m
  serialize-Returns request upsert m h = upsert_request-Returns x sound m h
  serialize-Returns request search m h = search_request-Returns x sound m h
  serialize-Returns request search_stream m h = search_request-Returns x sound m h
  serialize-Returns request get m h = get_request-Returns x sound m
  serialize-Returns request delete m h = delete_request-Returns x sound m
  serialize-Returns request list_collections m h = list_collections_request-Returns x sound m
  serialize-Returns request get_collection_status m h =
      get_collection_status_request-Returns x sound m
  serialize-Returns request update_user_profile m h =
      update_user_profile_request-Returns x sound m h
  serialize-Returns request submit_feedback m h = submit_feedback_request-Returns x sound m h
  serialize-Returns response create_collection m h = create_collection_response-Returns x sound m
  serialize-Returns response delete_collection m h = delete_collection_response-Returns x sound m
  serialize-Returns response upsert m h = upsert_response-Returns x sound m h
  serialize-Returns response search m h = search_response-Returns x sound z m h
  serialize-Returns response search_stream m h = search_response-Returns x sound z m h
  serialize-Returns response get m h = get_response-Returns x sound m h
  serialize-Returns response delete m h = delete_response-Returns x sound m
  serialize-Returns response list_collections m h = list_collections_response-Returns x sound m
  serialize-Returns response get_collection_status m h =
      get_collection_status_response-Returns x sound m h
  serialize-Returns response update_user_profile m h =
      update_user_profile_response-Returns x sound m h
  serialize-Returns response submit_feedback m h = submit_feedback_response-Returns x sound m

  -- With a sound wire format, for every method of the gateway: a request, or a response, whose
  -- numbers the writer takes and whose parts are not too long is serialized, and deserialized to
  -- the same message, but that floats are rounded to 32 bits, a score that tests as zero is the
  -- number 0, large integers are in decimal form, and of map entries with one key the last
  -- counts.
  pub gateway_call_survives :
      (side : Side) (method : Method) (m : MessageOf F side method)
      → MessageFits side method m
      → (bs : Bytes) × (serialize x z side method m ≡ some bs)
        × (deserialize x z side method bs ≡ some (message_as_read side method m))
  gateway_call_survives side method m fits =
      let (bs, e) = serialize-Returns side method m fits in
      (bs, e, gateway_deserialize-serialize side method m bs e)
