-- ===== src/Gateway/Codec/Feedback.antt =====
-- The messages of clientlibs/js/proto/apigateway/apigateway.ts about feedback, and their bytes.
pub mod Trips
pub mod Deliveries
use vectron.Gateway.Wire.{
  Bytes, Wire, Reader, Switch, unmatched, ◌then_write◌, write_all, take_into, take_message, field,
  string_field, bool_field, int32_field, int64_field, uint32_field, optional_field, message_field,
  decode_all,
}
use vectron.Prelude.{
  ℕ, String, Bool, false, Option, none, some, List, [], ◌∷◌, ◌++◌, ℤ, pos, ◌==◌, if◌then◌else◌,
}
use vectron.Gateway.Payload.{Payload, put}

pub record ContextEntry : Type 0 where
  pub key : String
  pub value : String

pub record FeedbackItem : Type 0 where
  pub result_id : String
  pub relevance_score : ℤ
  pub clicked : Bool
  pub position : ℤ
  pub comment : String

pub record SubmitFeedbackRequest : Type 0 where
  pub collection : String
  pub query : String
  pub result_ids : List String
  pub feedback_items : List FeedbackItem
  pub context : Payload

pub record SubmitFeedbackResponse : Type 0 where
  pub success : Bool
  pub feedback_id : String

module _ {F : Type 0} (x : Wire F) where
  unfoldable pub encode_context_entry : ContextEntry → Option Bytes
  encode_context_entry m = string_field x 10 m.key then_write string_field x 18 m.value

  abbrev pub base_context_entry : ContextEntry
  base_context_entry = record { key = ""; value = "" }

  unfoldable pub context_entry_field : ℕ → ContextEntry → Reader → Switch ContextEntry
  context_entry_field tag m r =
      if tag == 10
      then take_into x.take_string (λ v. record m { key = v }) r
      else if tag == 18
      then take_into x.take_string (λ v. record m { value = v }) r
      else unmatched

  unfoldable pub decode_context_entry : Bytes → Option ContextEntry
  unfolding context_entry_field
  decode_context_entry bs = decode_all x context_entry_field base_context_entry bs

  unfoldable pub encode_feedback_item : FeedbackItem → Option Bytes
  encode_feedback_item m = string_field x 10 m.result_id then_write (
      int32_field x 16 m.relevance_score then_write (
        bool_field x 24 m.clicked
        then_write (int32_field x 32 m.position then_write string_field x 42 m.comment)))

  abbrev pub base_feedback_item : FeedbackItem
  base_feedback_item = record {
    result_id = "";
    relevance_score = pos 0;
    clicked = false;
    position = pos 0;
    comment = "";
  }

  unfoldable pub feedback_item_field : ℕ → FeedbackItem → Reader → Switch FeedbackItem
  feedback_item_field tag m r =
      if tag == 10
      then take_into x.take_string (λ v. record m { result_id = v }) r
      else if tag == 16
      then take_into x.take_int32 (λ v. record m { relevance_score = v }) r
      else if tag == 24
      then take_into x.take_bool (λ v. record m { clicked = v }) r
      else if tag == 32
      then take_into x.take_int32 (λ v. record m { position = v }) r
      else if tag == 42
      then take_into x.take_string (λ v. record m { comment = v }) r
      else unmatched

  unfoldable pub decode_feedback_item : Bytes → Option FeedbackItem
  unfolding feedback_item_field
  decode_feedback_item bs = decode_all x feedback_item_field base_feedback_item bs

  unfoldable pub encode_submit_feedback_request : SubmitFeedbackRequest → Option Bytes
  unfolding encode_feedback_item encode_context_entry
  encode_submit_feedback_request m = string_field x 10 m.collection then_write (
      string_field x 18 m.query then_write (
        write_all (λ s. field x 26 (some (x.put_string s))) m.result_ids then_write (
          write_all (λ v. message_field x 34 (encode_feedback_item v)) m.feedback_items
          then_write write_all
              (λ e. message_field x 42 (encode_context_entry (record { key = e.0; value = e.1 })))
              m.context)))

  abbrev pub base_submit_feedback_request : SubmitFeedbackRequest
  base_submit_feedback_request = record {
    collection = "";
    query = "";
    result_ids = [];
    feedback_items = [];
    context = [];
  }

  unfoldable pub submit_feedback_request_field :
      ℕ → SubmitFeedbackRequest → Reader → Switch SubmitFeedbackRequest
  submit_feedback_request_field tag m r =
      if tag == 10
      then take_into x.take_string (λ v. record m { collection = v }) r
      else if tag == 18
      then take_into x.take_string (λ v. record m { query = v }) r
      else if tag == 26
      then take_into x.take_string (λ v. record m { result_ids = m.result_ids ++ (v ∷ []) }) r
      else if tag == 34
      then take_message x feedback_item_field base_feedback_item
          (λ v. record m { feedback_items = m.feedback_items ++ (v ∷ []) }) r
      else if tag == 42
      then take_message x context_entry_field base_context_entry
          (λ v. record m { context = put m.context v.key v.value }) r
      else unmatched

  unfoldable pub decode_submit_feedback_request : Bytes → Option SubmitFeedbackRequest
  unfolding submit_feedback_request_field
  decode_submit_feedback_request bs =
      decode_all x submit_feedback_request_field base_submit_feedback_request bs

  unfoldable pub encode_submit_feedback_response : SubmitFeedbackResponse → Option Bytes
  encode_submit_feedback_response m =
      bool_field x 8 m.success then_write string_field x 18 m.feedback_id

  abbrev pub base_submit_feedback_response : SubmitFeedbackResponse
  base_submit_feedback_response = record { success = false; feedback_id = "" }

  unfoldable pub submit_feedback_response_field :
      ℕ → SubmitFeedbackResponse → Reader → Switch SubmitFeedbackResponse
  submit_feedback_response_field tag m r =
      if tag == 8
      then take_into x.take_bool (λ v. record m { success = v }) r
      else if tag == 18
      then take_into x.take_string (λ v. record m { feedback_id = v }) r
      else unmatched

  unfoldable pub decode_submit_feedback_response : Bytes → Option SubmitFeedbackResponse
  unfolding submit_feedback_response_field
  decode_submit_feedback_response bs =
      decode_all x submit_feedback_response_field base_submit_feedback_response bs
