-- ===== src/Gateway/Messages.antt =====
-- The messages of clientlibs/js/proto/apigateway/apigateway.ts that the client exchanges with the
-- gateway, and their `create`: a property that is left out takes its default. `F` is the type of
-- the floating-point numbers, which no code here computes with.
use vectron.Prelude.{String, Bool, false, Option, some, List, [], map, or_else, ℤ, pos}
use vectron.Gateway.Payload.{Payload, put_all}

pub record CreateCollectionRequest : Type 0 where
  pub name : String
  pub dimension : ℤ
  pub distance : String

pub record CreateCollectionResponse : Type 0 where
  pub success : Bool

pub data ListCollectionsRequest : Type 0 where
  list_collections_request : ListCollectionsRequest

pub record ListCollectionsResponse : Type 0 where
  pub collections : List String

pub record GetCollectionStatusRequest : Type 0 where
  pub name : String

pub record ShardStatus : Type 0 where
  pub shard_id : ℤ
  pub replicas : List String
  pub leader_id : String
  pub ready : Bool

pub record GetCollectionStatusResponse : Type 0 where
  pub name : String
  pub dimension : ℤ
  pub distance : String
  pub shards : List ShardStatus

pub record Point (F : Type 0) : Type 0 where
  pub id : String
  pub vector : List F
  pub payload : Payload

pub record UpsertRequest (F : Type 0) : Type 0 where
  pub collection : String
  pub points : List (Point F)

pub record UpsertResponse : Type 0 where
  pub upserted : ℤ

pub record SearchRequest (F : Type 0) : Type 0 where
  pub collection : String
  pub vector : List F
  pub top_k : ℤ
  pub query : String
  pub timeout_ms : ℤ
  pub include_vectors : Bool
  pub include_metadata : Bool

pub record SearchResult (F : Type 0) : Type 0 where
  pub id : String
  pub score : F
  pub payload : Payload
  pub vector : List F

pub record SearchResponse (F : Type 0) : Type 0 where
  pub results : List (SearchResult F)

pub record GetRequest : Type 0 where
  pub collection : String
  pub id : String

pub record GetResponse (F : Type 0) : Type 0 where
  pub point : Option (Point F)

pub record DeleteRequest : Type 0 where
  pub collection : String
  pub id : String

pub data DeleteResponse : Type 0 where
  delete_response : DeleteResponse

unfoldable pub create_collection_request :
    Option String → Option ℤ → Option String → CreateCollectionRequest
create_collection_request name dimension distance = record {
  name = or_else name "";
  dimension = or_else dimension (pos 0);
  distance = or_else distance "";
}

unfoldable pub create_get_collection_status_request : Option String → GetCollectionStatusRequest
create_get_collection_status_request name = record { name = or_else name "" }

unfoldable pub create_get_request : Option String → Option String → GetRequest
create_get_request collection id = record { collection = or_else collection ""; id = or_else id "" }

unfoldable pub create_delete_request : Option String → Option String → DeleteRequest
create_delete_request collection id = record {
  collection = or_else collection "";
  id = or_else id "";
}

module _ {F : Type 0} where
  unfoldable pub create_point : Option String → Option (List F) → Option Payload → Point F
  create_point id vector payload = record {
    id = or_else id "";
    vector = or_else vector [];
    payload = put_all [] (or_else payload []);
  }

  -- The points of a request pass through `Point.fromPartial` once more.
  unfoldable pub create_upsert_request : Option String → Option (List (Point F)) → UpsertRequest F
  unfolding create_point
  create_upsert_request collection points = record {
    collection = or_else collection "";
    points =
        map (λ p. create_point (some p.id) (some p.vector) (some p.payload)) (or_else points []);
  }

  -- The three properties that the client passes; the others are left out.
  unfoldable pub create_search_request :
      Option String → Option (List F) → Option ℤ → SearchRequest F
  create_search_request collection vector top_k = record {
    collection = or_else collection "";
    vector = or_else vector [];
    top_k = or_else top_k (pos 0);
    query = "";
    timeout_ms = pos 0;
    include_vectors = false;
    include_metadata = false;
  }
