-- ===== src/Client/Operations/Cases.antt =====
-- Each operation of clientlibs/js/src/client.ts ends on the spot or makes one call with retries.
use vectron.Prelude.{
  ◌≡◌, ◌⊎◌, inl, inr, refl, String, Bool, true, false, Bool-cases, Option, some, List, is_empty,
  is_empty_str, leb_ℤ, ℤ, pos, Outcome, ok, or_else, ◌||◌, map,
}
use vectron.Gateway.Messages.{
  create_collection_request, list_collections_request, create_get_collection_status_request,
  create_get_request, create_delete_request, create_upsert_request, create_search_request,
}
use vectron.Client.Errors.{Platform, Thrown}
use vectron.Client.World.{World, Request, ResponseOf, Async}
use vectron.Client.Session.{
  Client, get_metadata, rpc, call_write, call_read, validate_vector_dim, mismatches,
}
use vectron.Client.Retry.Limits.{IsTranslated}
use vectron.Client.Calls.{
  Point, create_collection, list_collections, get_collection_status, upsert, search_points, get,
  delete, search_results, found_point, proto_points, send_upsert, send_search,
}
use vectron.Client.Calls.Validation.{
  refused_err, proto_points_cases, proto_points_valid, message_of,
}
use vectron.Client.Operations.{
  Operation, creates, lists, asks_status, upserts, searches, gets, deletes, is_write, perform,
}

module _ {F : Type 0} (pf : Platform) (c : Client) where
  abbrev pub call : {A : Type 0} → Bool → Async F A → Async F A
  call true fn = call_write pf c fn
  call false fn = call_read pf c fn

  -- How a method ends: on the spot, with nothing done to the world and none but the client's own
  -- errors, or as one call with retries of one request.
  abbrev pub Ends : {A : Type 0} → Bool → Async F A → World F → Type 0
  Ends {A} write m w =
      (((m w).1 ≡ w) × IsTranslated (m w).0)
      ⊎ ((r : Request F) × (resolve : ResponseOf r → Outcome Thrown A) × (m w
            ≡ call write (rpc c (get_metadata c) r resolve) w))

  create-Ends :
      (name : String) (dimension : ℤ) (distance : Option String) (w : World F)
      → Ends true (create_collection pf c name dimension distance) w
  unfolding create_collection
  create-Ends name dimension distance w = elim (Bool-cases (is_empty_str name)) [
    | inl e ↦ inl (rw e (refl, tt))
    | inr named ↦ elim (Bool-cases (leb_ℤ dimension (pos 0))) [
      | inl e ↦ inl (rw (named, e) (refl, tt))
      | inr positive ↦ inr (
        Request.create_collection (
            create_collection_request (some name) (some dimension)
              (some (or_else distance "euclidean"))),
        (λ _. ok tt),
        rw (named, positive) refl,
      )
    ]
  ]

  status-Ends : (name : String) (w : World F) → Ends false (get_collection_status pf c name) w
  unfolding get_collection_status
  status-Ends name w = elim (Bool-cases (is_empty_str name)) [
    | inl e ↦ inl (rw e (refl, tt))
    | inr named ↦ inr (
      Request.get_collection_status (create_get_collection_status_request (some name)),
      (λ r. ok r),
      rw named refl,
    )
  ]

  upsert-Ends :
      (collection : String) (points : List (Point F)) (w : World F)
      → Ends true (upsert pf c collection points) w
  unfolding upsert send_upsert
  upsert-Ends collection points w = elim (Bool-cases (is_empty_str collection)) [
    | inl e ↦ inl (rw e (refl, tt))
    | inr named ↦ elim (Bool-cases (is_empty points)) [
      | inl e ↦ inl (rw (named, e) (refl, tt))
      | inr filled ↦ elim (proto_points_cases pf c points) [
        | inl valid ↦ inr (
          Request.upsert
              (create_upsert_request (some collection) (some (map (message_of pf c) points))),
          (λ r. ok r.upserted),
          rw (named, filled, proto_points_valid pf c points valid) refl,
        )
        | inr refused ↦
            let (v, e) = refused_err (proto_points pf c points) refused in
            inl (rw (named, filled, e) (refl, tt))
      ]
    ]
  ]

  search-Ends :
      (collection : String) (vector : List F) (top_k : Option ℤ) (w : World F)
      → Ends false (search_points pf c collection vector top_k) w
  unfolding search_points validate_vector_dim send_search
  search-Ends collection vector top_k w = elim (Bool-cases (is_empty_str collection)) [
    | inl e ↦ inl (rw e (refl, tt))
    | inr named ↦ elim (Bool-cases (is_empty vector)) [
      | inl e ↦ inl (rw (named, e) (refl, tt))
      | inr filled ↦ elim (Bool-cases (mismatches c.options.expected_vector_dim vector)) [
        | inl e ↦ inl (rw (named, filled, e) (refl, tt))
        | inr fits ↦ inr (
          Request.search (
              create_search_request (some collection) (some vector)
                (some (or_else top_k (pos 10)))),
          (λ r. ok (search_results pf c r.results)),
          rw (named, filled, fits) refl,
        )
      ]
    ]
  ]

  get-Ends :
      (collection point_id : String) (w : World F) → Ends false (get pf c collection point_id) w
  unfolding get
  get-Ends collection point_id w =
      elim (Bool-cases (is_empty_str collection || is_empty_str point_id)) [
        | inl e ↦ inl (rw e (refl, tt))
        | inr named ↦ inr (
          Request.get (create_get_request (some collection) (some point_id)),
          (λ r. found_point pf c point_id r.point),
          rw named refl,
        )
      ]

  delete-Ends :
      (collection point_id : String) (w : World F) → Ends true (delete pf c collection point_id) w
  unfolding delete
  delete-Ends collection point_id w =
      elim (Bool-cases (is_empty_str collection || is_empty_str point_id)) [
        | inl e ↦ inl (rw e (refl, tt))
        | inr named ↦ inr (
          Request.delete (create_delete_request (some collection) (some point_id)),
          (λ _. ok tt),
          rw named refl,
        )
      ]

  -- Every operation either leaves the world as it is and does not reject with a gRPC error, or is
  -- one call with retries of one request, as a write or as a read.
  pub perform-Ends : (op : Operation F) (w : World F) → Ends (is_write op) (perform pf c op) w
  unfolding perform list_collections
  perform-Ends (creates name dimension distance) w = create-Ends name dimension distance w
  perform-Ends lists w =
      inr (Request.list_collections list_collections_request, (λ r. ok r.collections), refl)
  perform-Ends (asks_status name) w = status-Ends name w
  perform-Ends (upserts collection points) w = upsert-Ends collection points w
  perform-Ends (searches collection vector top_k) w = search-Ends collection vector top_k w
  perform-Ends (gets collection point_id) w = get-Ends collection point_id w
  perform-Ends (deletes collection point_id) w = delete-Ends collection point_id w
