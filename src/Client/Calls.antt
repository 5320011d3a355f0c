-- ===== src/Client/Calls.antt =====
-- The public operations of `VectronClient` in clientlibs/js/src/client.ts, but for `upsertBatch`.
pub mod Validation
use Prim.Native.String.{◌++◌ as str_append}
use vectron.Prelude.{
  ℕ, String, Bool, true, false, Option, none, some, List, [], ◌∷◌, map, is_empty, is_empty_str,
  ltb_ℤ, leb_ℤ, ℤ, pos, ◌||◌, if◌then◌else◌, Outcome, ok, err, pending, or_else,
}
use vectron.Gateway.Payload.{Payload}
use vectron.Gateway.Messages.{
  Point as ProtoPoint, SearchResult as ProtoSearchResult, GetCollectionStatusResponse,
  create_collection_request, list_collections_request, create_get_collection_status_request,
  create_get_request, create_delete_request, create_point, create_upsert_request,
  create_search_request,
}
use vectron.Client.Errors.{Platform, Thrown, own, new_not_found_error, invalid_argument_thrown}
use vectron.Client.World.{Request, World, Async}
use vectron.Client.Session.{Client, validate_vector_dim, get_metadata, rpc, call_write, call_read}

-- The client's own `Point` and `SearchResult`.
pub record Point (F : Type 0) : Type 0 where
  pub id : String
  pub vector : List F
  pub payload : Option Payload

pub record SearchResult (F : Type 0) : Type 0 where
  pub id : String
  pub score : F
  pub payload : Option Payload

module _ {F : Type 0} (pf : Platform) (c : Client) where
  unfoldable pub create_collection : String → ℤ → Option String → Async F (Unit {0})
  create_collection name dimension distance w =
      if is_empty_str name
      then (invalid_argument_thrown "Collection name cannot be empty.", w)
      else if leb_ℤ dimension (pos 0)
      then (invalid_argument_thrown "Dimension must be a positive integer.", w)
      else call_write pf c
          (rpc c (get_metadata c)
            (Request.create_collection (
              create_collection_request (some name) (some dimension)
                (some (or_else distance "euclidean"))))
            (λ _. ok tt))
          w

  unfoldable pub list_collections : Async F (List String)
  list_collections = call_read pf c (
      rpc c (get_metadata c) (Request.list_collections list_collections_request)
        (λ r. ok r.collections))

  unfoldable pub get_collection_status : String → Async F GetCollectionStatusResponse
  get_collection_status name w =
      if is_empty_str name
      then (invalid_argument_thrown "Collection name cannot be empty.", w)
      else call_read pf c
          (rpc c (get_metadata c)
            (Request.get_collection_status (create_get_collection_status_request (some name)))
            (λ r. ok r))
          w

  -- The body of `points.map(...)`: the checks of one point, and its message.
  unfoldable pub proto_point : Point F → Outcome Thrown (ProtoPoint F)
  proto_point p =
      if is_empty_str p.id
      then invalid_argument_thrown "Point ID cannot be empty."
      else if is_empty p.vector
      then invalid_argument_thrown "Point vector cannot be empty."
      else elim (validate_vector_dim pf c p.vector) [
        | ok v ↦ ok (create_point (some p.id) (some p.vector) p.payload)
        | err e ↦ err e
        | pending ↦ pending
      ]

  -- `points.map(...)`: the first point that is refused throws.
  unfoldable pub proto_points : List (Point F) → Outcome Thrown (List (ProtoPoint F))
  proto_points [] = ok []
  proto_points (p ∷ ps) = elim (proto_point p) [
    | err e ↦ err e
    | pending ↦ pending
    | ok q ↦ elim (proto_points ps) [ err e ↦ err e | pending ↦ pending | ok qs ↦ ok (q ∷ qs) ]
  ]

  unfoldable pub send_upsert : String → List (ProtoPoint F) → Async F ℤ
  send_upsert collection points = call_write pf c (
      rpc c (get_metadata c)
        (Request.upsert (create_upsert_request (some collection) (some points)))
        (λ r. ok r.upserted))

  unfoldable pub upsert : String → List (Point F) → Async F ℤ
  upsert collection points w =
      if is_empty_str collection
      then (invalid_argument_thrown "Collection name cannot be empty.", w)
      else if is_empty points
      then (ok (pos 0), w)
      else elim (proto_points points) [
        | ok qs ↦ send_upsert collection qs w
        | err e ↦ (err e, w)
        | pending ↦ (pending, w)
      ]

  abbrev pub search_results : List (ProtoSearchResult F) → List (SearchResult F)
  search_results = map λ r. record { id = r.id; score = r.score; payload = some r.payload }

  unfoldable pub send_search : String → List F → ℤ → Async F (List (SearchResult F))
  send_search collection vector top_k = call_read pf c (
      rpc c (get_metadata c)
        (Request.search (create_search_request (some collection) (some vector) (some top_k)))
        (λ r. ok (search_results r.results)))

  unfoldable pub search_points : String → List F → Option ℤ → Async F (List (SearchResult F))
  search_points collection vector top_k w =
      if is_empty_str collection
      then (invalid_argument_thrown "Collection name cannot be empty.", w)
      else if is_empty vector
      then (invalid_argument_thrown "Query vector cannot be empty.", w)
      else elim (validate_vector_dim pf c vector) [
        | ok v ↦ send_search collection vector (or_else top_k (pos 10)) w
        | err e ↦ (err e, w)
        | pending ↦ (pending, w)
      ]

  -- The point of an answer; an answer without one rejects.
  abbrev pub found_point : String → Option (ProtoPoint F) → Outcome Thrown (Point F)
  found_point point_id none =
      err (
        own (new_not_found_error (str_append "Point with id " (str_append point_id " not found."))))
  found_point point_id (some p) =
      ok (record { id = p.id; vector = p.vector; payload = some p.payload })

  unfoldable pub get : String → String → Async F (Point F)
  get collection point_id w =
      if is_empty_str collection || is_empty_str point_id
      then (invalid_argument_thrown "Collection name and point ID cannot be empty.", w)
      else call_read pf c
          (rpc c (get_metadata c)
            (Request.get (create_get_request (some collection) (some point_id)))
            (λ r. found_point point_id r.point))
          w

  unfoldable pub delete : String → String → Async F (Unit {0})
  delete collection point_id w =
      if is_empty_str collection || is_empty_str point_id
      then (invalid_argument_thrown "Collection name and point ID cannot be empty.", w)
      else call_write pf c
          (rpc c (get_metadata c)
            (Request.delete (create_delete_request (some collection) (some point_id))) (λ _. ok tt))
          w
