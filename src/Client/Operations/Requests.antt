-- ===== src/Client/Operations/Requests.antt =====
-- What the requests of `search` and `upsert` of clientlibs/js/src/client.ts carry.
use vectron.Prelude.{
  ◌≡◌, refl, ap, ap, String, false, Option, some, List, [], ◌∷◌, map, All, ℤ, pos, or_else, inl,
  inr, Outcome, Bool-cases, is_empty, is_empty_str,
}
use vectron.Gateway.Messages.{
  UpsertRequest, Point as ProtoPoint, create_search_request, create_upsert_request, create_point,
}
use vectron.Client.Errors.{Platform, Thrown}
use vectron.Client.World.{World, Sent, Request, ResponseOf}
use vectron.Client.Session.{Client, validate_vector_dim, mismatches, rpc}
use vectron.Client.Calls.{Point, search_points, send_search, upsert, proto_points, send_upsert}
use vectron.Client.Calls.Validation.{
  message_of, proto_points_cases, proto_points_valid, refused_err,
}
use vectron.Client.Operations.Safety.{Keeps, call_read-Keeps, call_write-Keeps}

module _ {F : Type 0} (c : Client) (Q : Request F → Type 0) where
  -- Every request in the log is such a one.
  abbrev pub AllAre : List (Sent F) → Type 0
  AllAre = All (λ s. Q s.request)

  pub rpc-AllAre :
      {A : Type 0} (metadata : List (String × String)) (r : Request F)
      (resolve : ResponseOf r → Outcome Thrown A)
      → Q r
      → Keeps c AllAre (rpc c metadata r resolve)
  unfolding rpc
  rpc-AllAre metadata r resolve q w h = (q, h)

module _ {F : Type 0} (pf : Platform) (c : Client) where
  -- The request that `search` means.
  abbrev pub IsSearch : String → List F → Option ℤ → Request F → Type 0
  IsSearch collection vector top_k r =
      r
      ≡ Request.search (record {
        collection = collection;
        vector = vector;
        top_k = or_else top_k (pos 10);
        query = "";
        timeout_ms = pos 0;
        include_vectors = false;
        include_metadata = false;
      })

  send_search-IsSearch :
      (collection : String) (vector : List F) (top_k : Option ℤ)
      → Keeps c
          (AllAre c (IsSearch collection vector top_k))
          (send_search pf c collection vector (or_else top_k (pos 10)))
  unfolding send_search create_search_request
  send_search-IsSearch collection vector top_k =
      call_read-Keeps c (AllAre c (IsSearch collection vector top_k)) pf _
        (rpc-AllAre c (IsSearch collection vector top_k) _ _ _ refl)

  -- If the log holds no request but the one with this collection, vector and number of results
  -- (10 unless given), and without the flag for payloads, then so it is after `search`.
  pub search_points-IsSearch :
      (collection : String) (vector : List F) (top_k : Option ℤ)
      → Keeps c
          (AllAre c (IsSearch collection vector top_k))
          (search_points pf c collection vector top_k)
  unfolding search_points validate_vector_dim
  search_points-IsSearch collection vector top_k w h = elim (Bool-cases (is_empty_str collection)) [
    | inl e ↦ rw e h
    | inr named ↦ elim (Bool-cases (is_empty vector)) [
      | inl e ↦ rw (named, e) h
      | inr filled ↦ elim (Bool-cases (mismatches c.options.expected_vector_dim vector)) [
        | inl e ↦ rw (named, filled, e) h
        | inr fits ↦ rw (named, filled, fits) (send_search-IsSearch collection vector top_k w h)
      ]
    ]
  ]

  -- The request carries these points, in this order: their ids and their vectors.
  pub record IsUpsert (collection : String) (points : List (Point F)) (r : Request F) : Type 0 where
    pub message : UpsertRequest F
    pub is_upsert : r ≡ Request.upsert message
    pub to_collection : message.collection ≡ collection
    pub ids : map (λ q. q.id) message.points ≡ map (λ p. p.id) points
    pub vectors : map (λ q. q.vector) message.points ≡ map (λ p. p.vector) points

  -- Creating a message from a message keeps its id and its vector.
  again : ProtoPoint F → ProtoPoint F
  again q = create_point (some q.id) (some q.vector) (some q.payload)

  messages : List (Point F) → List (ProtoPoint F)
  unfolding again
  messages points = map again (map (message_of pf c) points)

  ids-messages : (ps : List (Point F)) → map (λ q. q.id) (messages ps) ≡ map (λ p. p.id) ps
  unfolding messages create_point
  ids-messages [] = refl
  ids-messages (p ∷ ps) = ap (λ xs. p.id ∷ xs) (ids-messages ps)

  vectors-messages :
      (ps : List (Point F)) → map (λ q. q.vector) (messages ps) ≡ map (λ p. p.vector) ps
  unfolding messages create_point
  vectors-messages [] = refl
  vectors-messages (p ∷ ps) = ap (λ xs. p.vector ∷ xs) (vectors-messages ps)

  send_upsert-IsUpsert :
      (collection : String) (points : List (Point F))
      → Keeps c
          (AllAre c (IsUpsert collection points))
          (send_upsert pf c collection (map (message_of pf c) points))
  unfolding send_upsert create_upsert_request messages
  send_upsert-IsUpsert collection points =
      call_write-Keeps c (AllAre c (IsUpsert collection points)) pf _ (
        rpc-AllAre c (IsUpsert collection points) _ _ _ (record {
          message = record { collection = collection; points = messages points };
          is_upsert = refl;
          to_collection = refl;
          ids = ids-messages points;
          vectors = vectors-messages points;
        }))

  -- If the log holds no request but upserts to this collection with the ids and vectors of
  -- exactly these points in their order, then so it is after `upsert`.
  pub upsert-IsUpsert :
      (collection : String) (points : List (Point F)) (w : World F)
      → AllAre c (IsUpsert collection points) w.sent
      → AllAre c (IsUpsert collection points) (upsert pf c collection points w).1.sent
  unfolding upsert
  upsert-IsUpsert collection points w h = elim (Bool-cases (is_empty_str collection)) [
    | inl e ↦ rw e h
    | inr named ↦ elim (Bool-cases (is_empty points)) [
      | inl e ↦ rw (named, e) h
      | inr filled ↦ elim (proto_points_cases pf c points) [
        | inl valid ↦
            rw (named, filled, proto_points_valid pf c points valid)
              (send_upsert-IsUpsert collection points w h)
        | inr refused ↦
            let (v, e) = refused_err (proto_points pf c points) refused in rw (named, filled, e) h
      ]
    ]
  ]
