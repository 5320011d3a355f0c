-- ===== src/Gateway/Codec/Feedback/Trips.antt =====
-- The messages of clientlibs/js/proto/apigateway/apigateway.ts about feedback are decoded as they
-- were encoded.
use vectron.Prelude.{◌≡◌, refl, map, ℕ, String, Bool, false, some, List, [], ◌∷◌, ℤ, pos}
use vectron.Gateway.Wire.{
  Bytes, Wire, IsSound, Reader, Switch, take_message, message_field, write_all,
}
use vectron.Gateway.Wire.Reads.{Writes, Writes-then, Writes-nil, decode_all-Reads}
use vectron.Gateway.Wire.Fields.{
  string_field-Writes, bool_field-Writes, int32_field-Writes, messages-Writes, message-Writes,
  strings-Writes,
}
use vectron.Gateway.Payload.{Payload, put, put_all}
use vectron.Gateway.Codec.Feedback.{
  ContextEntry, context_entry_field, base_context_entry, encode_context_entry, FeedbackItem,
  feedback_item_field, base_feedback_item, encode_feedback_item, SubmitFeedbackRequest,
  submit_feedback_request_field, base_submit_feedback_request, encode_submit_feedback_request,
  decode_submit_feedback_request, SubmitFeedbackResponse, submit_feedback_response_field,
  base_submit_feedback_response, encode_submit_feedback_response, decode_submit_feedback_response,
}

module _ {F : Type 0} (x : Wire F) (sound : IsSound x) where
  pub context_entry-Writes :
      (m : ContextEntry)
      → Writes x (context_entry_field x) (encode_context_entry x m) (base_context_entry x) m
  unfolding encode_context_entry context_entry_field
  context_entry-Writes m =
      let switch = context_entry_field x in
      let made : String → String → ContextEntry = λ a b. record { key = a; value = b } in
      Writes-then x switch _ _ _ (made m.key "") _
        (string_field-Writes x switch sound 10 (λ v. made v "") m.key (λ r. refl))
        (string_field-Writes x switch sound 18 (λ v. made m.key v) m.value (λ r. refl))

  pub feedback_item-Writes :
      (m : FeedbackItem)
      → Writes x (feedback_item_field x) (encode_feedback_item x m) (base_feedback_item x) m
  unfolding encode_feedback_item feedback_item_field
  feedback_item-Writes m =
      let switch = feedback_item_field x in
      let made : String → ℤ → Bool → ℤ → String → FeedbackItem = λ a b c d f. record {
        result_id = a;
        relevance_score = b;
        clicked = c;
        position = d;
        comment = f;
      } in
      Writes-then x switch _ _ _ (made m.result_id (pos 0) false (pos 0) "") _
        (string_field-Writes x switch sound 10 (λ v. made v (pos 0) false (pos 0) "") m.result_id
          (λ r. refl))
        (Writes-then x switch _ _ _ (made m.result_id m.relevance_score false (pos 0) "") _
          (int32_field-Writes x switch sound 16 (λ v. made m.result_id v false (pos 0) "")
            m.relevance_score (λ r. refl))
          (Writes-then x switch _ _ _ (made m.result_id m.relevance_score m.clicked (pos 0) "") _
            (bool_field-Writes x switch sound 24
              (λ v. made m.result_id m.relevance_score v (pos 0) "") m.clicked (λ r. refl))
            (Writes-then x switch _ _ _ (made m.result_id m.relevance_score m.clicked m.position "")
              _
              (int32_field-Writes x switch sound 32
                (λ v. made m.result_id m.relevance_score m.clicked v "") m.position (λ r. refl))
              (string_field-Writes x switch sound 42
                (λ v. made m.result_id m.relevance_score m.clicked m.position v) m.comment
                (λ r. refl)))))

  -- The entries of the context are put into it one by one.
  entries-Writes :
      {M : Type 0} (switch : ℕ → M → Reader → Switch M) (set : Payload → M)
      → ((acc : Payload) (r : Reader)
          → switch 42 (set acc) r
            ≡ take_message x
                (context_entry_field x)
                (base_context_entry x)
                (λ e. set (put acc e.key e.value))
                r)
      → (context acc : Payload)
      → Writes x switch
          (write_all
            (λ e. message_field x 42 (encode_context_entry x (record { key = e.0; value = e.1 })))
            context)
          (set acc)
          (set (put_all acc context))
  unfolding write_all put_all
  entries-Writes switch set steps [] acc = Writes-nil x switch (set acc)
  entries-Writes switch set steps ((key, value) ∷ rest) acc =
      let entry : ContextEntry = record { key = key; value = value } in
      Writes-then x switch (message_field x 42 (encode_context_entry x entry)) _ (set acc)
        (set (put acc key value)) _
        (message-Writes x switch sound (context_entry_field x) 42 (set acc) (base_context_entry x)
          entry (λ e. set (put acc e.key e.value)) (encode_context_entry x entry) (steps acc)
          (context_entry-Writes entry))
        (entries-Writes switch set steps rest (put acc key value))

  -- What is read of a `SubmitFeedbackRequest`.
  abbrev pub submit_feedback_request_as_read : SubmitFeedbackRequest → SubmitFeedbackRequest
  submit_feedback_request_as_read m = record m {
    feedback_items = map (λ v. v) m.feedback_items;
    context = put_all [] m.context;
  }

  pub submit_feedback_request-Writes :
      (m : SubmitFeedbackRequest)
      → Writes x
          (submit_feedback_request_field x)
          (encode_submit_feedback_request x m)
          (base_submit_feedback_request x)
          (submit_feedback_request_as_read m)
  unfolding encode_submit_feedback_request submit_feedback_request_field
  submit_feedback_request-Writes m =
      let switch = submit_feedback_request_field x in
      let made : String
          → String
          → (List String)
          → (List FeedbackItem)
          → Payload
          → SubmitFeedbackRequest =
        λ a b c d f. record {
          collection = a;
          query = b;
          result_ids = c;
          feedback_items = d;
          context = f;
        } in
      Writes-then x switch _ _ _ (made m.collection "" [] [] []) _
        (string_field-Writes x switch sound 10 (λ v. made v "" [] [] []) m.collection (λ r. refl))
        (Writes-then x switch _ _ _ (made m.collection m.query [] [] []) _
          (string_field-Writes x switch sound 18 (λ v. made m.collection v [] [] []) m.query
            (λ r. refl))
          (Writes-then x switch _ _ _ (made m.collection m.query m.result_ids [] []) _
            (strings-Writes x switch sound 26 (λ v. made m.collection m.query v [] []) m.result_ids
              (λ us r. refl))
            (Writes-then x switch _ _ _
              (made m.collection m.query m.result_ids (map (λ v. v) m.feedback_items) []) _
              (messages-Writes x switch sound (feedback_item_field x) 34 (base_feedback_item x)
                (λ v. made m.collection m.query m.result_ids v []) (encode_feedback_item x) (λ v. v)
                m.feedback_items (λ us r. refl) feedback_item-Writes)
              (entries-Writes switch
                (λ v. made m.collection m.query m.result_ids (map (λ v. v) m.feedback_items) v)
                (λ acc r. refl) m.context []))))

  pub decode_submit_feedback_request-encode :
      (m : SubmitFeedbackRequest) (bs : Bytes)
      → encode_submit_feedback_request x m ≡ some bs
      → decode_submit_feedback_request x bs ≡ some (submit_feedback_request_as_read m)
  unfolding decode_submit_feedback_request
  decode_submit_feedback_request-encode m bs e =
      decode_all-Reads x (submit_feedback_request_field x) bs _ (submit_feedback_request_as_read m)
        (submit_feedback_request-Writes m bs e)

  pub submit_feedback_response-Writes :
      (m : SubmitFeedbackResponse)
      → Writes x
          (submit_feedback_response_field x)
          (encode_submit_feedback_response x m)
          (base_submit_feedback_response x)
          m
  unfolding encode_submit_feedback_response submit_feedback_response_field
  submit_feedback_response-Writes m =
      let switch = submit_feedback_response_field x in
      let made : Bool → String → SubmitFeedbackResponse =
        λ a b. record { success = a; feedback_id = b } in
      Writes-then x switch _ _ _ (made m.success "") _
        (bool_field-Writes x switch sound 8 (λ v. made v "") m.success (λ r. refl))
        (string_field-Writes x switch sound 18 (λ v. made m.success v) m.feedback_id (λ r. refl))

  pub decode_submit_feedback_response-encode :
      (m : SubmitFeedbackResponse) (bs : Bytes)
      → encode_submit_feedback_response x m ≡ some bs
      → decode_submit_feedback_response x bs ≡ some m
  unfolding decode_submit_feedback_response
  decode_submit_feedback_response-encode m bs e =
      decode_all-Reads x (submit_feedback_response_field x) bs _ m
        (submit_feedback_response-Writes m bs e)
