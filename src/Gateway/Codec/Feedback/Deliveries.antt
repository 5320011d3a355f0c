-- ===== src/Gateway/Codec/Feedback/Deliveries.antt =====
-- The messages of clientlibs/js/proto/apigateway/apigateway.ts about feedback that are written
-- without an exception.
use vectron.Prelude.{All, arith, [], ◌∷◌}
use vectron.Gateway.Wire.{Wire, IsSound}
use vectron.Gateway.Wire.Returns.{
  Returns, IsInt32, IsInner, IsShort, Returns-then, Returns-string, Returns-bool, Returns-int32,
  Returns-messages, Returns-strings,
}
use vectron.Gateway.Payload.{Payload}
use vectron.Gateway.Codec.Feedback.{
  ContextEntry, FeedbackItem, SubmitFeedbackRequest, SubmitFeedbackResponse, encode_context_entry,
  encode_feedback_item, encode_submit_feedback_request, encode_submit_feedback_response,
}

module _ {F : Type 0} (x : Wire F) (sound : IsSound x) where
  pub context_entry-Returns : (m : ContextEntry) → Returns (encode_context_entry x m)
  unfolding encode_context_entry
  context_entry-Returns m =
      Returns-then _ _ (Returns-string x sound 10 m.key (omega arith))
        (Returns-string x sound 18 m.value (omega arith))

  -- What the writer asks of a `FeedbackItem`.
  abbrev pub FeedbackItemFits : FeedbackItem → Type 0
  FeedbackItemFits m = IsInt32 m.relevance_score × IsInt32 m.position

  pub feedback_item-Returns :
      (m : FeedbackItem) → FeedbackItemFits m → Returns (encode_feedback_item x m)
  unfolding encode_feedback_item
  feedback_item-Returns m (h0, h1) =
      Returns-then _ _ (Returns-string x sound 10 m.result_id (omega arith)) (
        Returns-then _ _ (Returns-int32 x sound 16 m.relevance_score (omega arith) h0) (
          Returns-then _ _ (Returns-bool x sound 24 m.clicked (omega arith)) (
            Returns-then _ _ (Returns-int32 x sound 32 m.position (omega arith) h1)
              (Returns-string x sound 42 m.comment (omega arith)))))

  entries-IsInner :
      (context : Payload)
      → All (λ e. IsShort (encode_context_entry x (record { key = e.0; value = e.1 }))) context
      → All
          (IsInner (λ e. Unit) (λ e. encode_context_entry x (record { key = e.0; value = e.1 })))
          context
  entries-IsInner [] h = tt
  entries-IsInner (e ∷ es) (h, hs) = ((tt, h), entries-IsInner es hs)

  -- What the writer asks of a `SubmitFeedbackRequest`.
  abbrev pub SubmitFeedbackRequestFits : SubmitFeedbackRequest → Type 0
  SubmitFeedbackRequestFits m =
      All (IsInner FeedbackItemFits (encode_feedback_item x)) m.feedback_items
      × All (λ e. IsShort (encode_context_entry x (record { key = e.0; value = e.1 }))) m.context

  pub submit_feedback_request-Returns :
      (m : SubmitFeedbackRequest)
      → SubmitFeedbackRequestFits m
      → Returns (encode_submit_feedback_request x m)
  unfolding encode_submit_feedback_request
  submit_feedback_request-Returns m (h0, h1) =
      Returns-then _ _ (Returns-string x sound 10 m.collection (omega arith)) (
        Returns-then _ _ (Returns-string x sound 18 m.query (omega arith)) (
          Returns-then _ _ (Returns-strings x sound 26 m.result_ids (omega arith)) (
            Returns-then _ _
              (Returns-messages x sound 34 FeedbackItemFits (encode_feedback_item x)
                m.feedback_items (omega arith) feedback_item-Returns h0)
              (Returns-messages x sound 42 (λ e. Unit)
                (λ e. encode_context_entry x (record { key = e.0; value = e.1 })) m.context
                (omega arith) (λ e h. context_entry-Returns (record { key = e.0; value = e.1 }))
                (entries-IsInner m.context h1)))))

  pub submit_feedback_response-Returns :
      (m : SubmitFeedbackResponse) → Returns (encode_submit_feedback_response x m)
  unfolding encode_submit_feedback_response
  submit_feedback_response-Returns m =
      Returns-then _ _ (Returns-bool x sound 8 m.success (omega arith))
        (Returns-string x sound 18 m.feedback_id (omega arith))
