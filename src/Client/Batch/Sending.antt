-- ===== src/Client/Batch/Sending.antt =====
-- `upsert` and `upsertBatch` of clientlibs/js/src/client.ts against a server that accepts points.
use vectron.Prelude.{
  ℕ, suc, ◌+◌, ◌≡◌, ◌≢◌, ◌∙◌, refl, ap, true, some, List, [], ◌∷◌, arith, length, String,
  length-append, concat, All, is_empty_str-false, ℤ, pos, pos-+ℤ, ok, map,
}
use vectron.Gateway.Messages.{Point as ProtoPoint, UpsertRequest, create_upsert_request}
use vectron.Client.Errors.{Platform}
use vectron.Client.World.{Request, World, Async, timers}
use vectron.Client.Retry.Attempts.{call_with_retry_returns}
use vectron.Client.Session.{get_metadata, Client, rpc, call_write}
use vectron.Client.Calls.{Point, send_upsert, upsert}
use vectron.Client.Calls.Validation.{IsValid, message_of, proto_points_valid}
use vectron.Client.Batch.{upsert_all}

module _ {A B : Type 0} where
  length-map : (f : A → B) (xs : List A) → length (map f xs) ≡ length xs
  length-map f [] = refl
  length-map f (x ∷ xs) = ap suc (length-map f xs)

module _ {F : Type 0} where
  -- The server accepts the points of every upsert and answers with their number.
  pub record Accepts (w : World F) : Type 0 where
    pub counts :
        (k : ℕ) (r : UpsertRequest F)
        → w.replies k (Request.upsert r) ≡ ok (record { upserted = pos (length r.points) })

  module _ (pf : Platform) (c : Client) (collection : String) where
    upsert_rpc : List (ProtoPoint F) → Async F ℤ
    upsert_rpc qs =
        rpc c (get_metadata c) (Request.upsert (create_upsert_request (some collection) (some qs)))
          (λ r. ok r.upserted)

    upsert_rpc-Accepts :
        (qs : List (ProtoPoint F)) (w : World F)
        → Accepts w
        → ((upsert_rpc qs w).0 ≡ ok (pos (length qs))) × Accepts (upsert_rpc qs w).1
    unfolding upsert_rpc rpc create_upsert_request
    upsert_rpc-Accepts qs w accepts = (
      rw (accepts.counts (length w.sent) (create_upsert_request (some collection) (some qs)))
          (ap (λ n. ok (pos n)) (length-map _ qs)),
      record { counts = accepts.counts },
    )

    send_upsert-Accepts :
        (qs : List (ProtoPoint F)) (w : World F)
        → Accepts w
        → ((send_upsert pf c collection qs w).0 ≡ ok (pos (length qs)))
          × Accepts (send_upsert pf c collection qs w).1
    unfolding send_upsert call_write upsert_rpc
    send_upsert-Accepts qs w accepts =
        let (value, after) = upsert_rpc-Accepts qs w accepts in
        rw
          (call_with_retry_returns timers pf c.options true (upsert_rpc qs) w (pos (length qs))
            value)
          (refl, after)

    -- One request is enough, and the answer is the number of the points.
    pub upsert-Accepts :
        (ps : List (Point F)) (w : World F)
        → collection ≢ ""
        → All (IsValid c) ps
        → Accepts w
        → ((upsert pf c collection ps w).0 ≡ ok (pos (length ps)))
          × Accepts (upsert pf c collection ps w).1
    unfolding upsert
    upsert-Accepts [] w named valid accepts =
        rw (is_empty_str-false collection named) (refl, accepts)
    upsert-Accepts (p ∷ ps) w named valid accepts =
        let qs = map (message_of pf c) (p ∷ ps) in
        let (value, after) = send_upsert-Accepts qs w accepts in
        rw (is_empty_str-false collection named, proto_points_valid pf c (p ∷ ps) valid)
          (value ∙ ap (λ n. ok (pos n)) (length-map (message_of pf c) (p ∷ ps)), after)

    upsert_all_step :
        (b : List (Point F)) (bs : List (List (Point F))) (n m : ℕ) (w : World F)
        → (upsert pf c collection b w).0 ≡ ok (pos m)
        → upsert_all pf c collection (pos n) (b ∷ bs) w
          ≡ upsert_all pf c collection (pos (n + m)) bs (upsert pf c collection b w).1
    unfolding upsert_all
    upsert_all_step b bs n m w h = cc (h, pos-+ℤ n m)

    -- All points of a list of batches, one batch after the other.
    pub upsert_all-Accepts :
        (bs : List (List (Point F))) (n : ℕ) (w : World F)
        → collection ≢ ""
        → All (All (IsValid c)) bs
        → Accepts w
        → ((upsert_all pf c collection (pos n) bs w).0 ≡ ok (pos (n + length (concat bs))))
          × Accepts (upsert_all pf c collection (pos n) bs w).1
    unfolding upsert_all
    upsert_all-Accepts [] n w named valid accepts = (ap (λ k. ok (pos k)) (omega arith), accepts)
    upsert_all-Accepts (b ∷ bs) n w named valid accepts =
        let (value, after) = upsert-Accepts b w named valid.0 accepts in
        let (rest, last) =
          upsert_all-Accepts bs (n + length b) (upsert pf c collection b w).1 named valid.1 after in
        rw (upsert_all_step b bs n (length b) w value)
          (rest ∙ ap (λ k. ok (pos k)) (omega (arith, length-append b (concat bs))), last)
