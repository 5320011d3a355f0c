-- ===== src/Gateway/Codec/Answers.antt =====
-- The status of a collection, a point and the results of a search, as clientlibs/js/proto/apigateway/apigateway.ts
-- writes them without an exception.
use vectron.Prelude.{◌≡◌, refl, true, not, All, arith, Option, none, some, []}
use vectron.Gateway.Wire.{Wire, IsSound, write_all}
use vectron.Gateway.Wire.Returns.{
  Returns, IsInt32, IsUint32, IsShort, IsInner, Returns-then, Returns-if, Returns-field,
  Returns-string, Returns-bool, Returns-uint32, Returns-int32, Returns-uint64, Returns-uint64s,
  Returns-messages, Returns-packed, Returns-floats, Returns-join,
}
use vectron.Gateway.Messages.{
  ShardStatus, GetCollectionStatusResponse, GetResponse, Point, SearchResult, SearchResponse,
}
use vectron.Gateway.Codec.Replies.{encode_shard_status, encode_get_collection_status_response}
use vectron.Gateway.Codec.Points.{
  Zero, encode_payload_entry, encode_point, encode_get_response, encode_search_result,
  encode_search_response,
}
use vectron.Gateway.Codec.Deliveries.{Short, PointFits, point-Returns, payload-Returns}

module _ {F : Type 0} (x : Wire F) (sound : IsSound x) where
  -- What the writer asks of the status of a shard.
  pub record ShardFits (m : ShardStatus) : Type 0 where
    pub shard_id : IsUint32 m.shard_id
    pub replicas : All (λ s. x.is_uint64 s ≡ true) m.replicas
    pub packed : IsShort (write_all x.put_uint64 m.replicas)
    pub leader_id : x.is_uint64 m.leader_id ≡ true

  shard_status-Returns : (m : ShardStatus) → ShardFits m → Returns (encode_shard_status x m)
  unfolding encode_shard_status
  shard_status-Returns m fits =
      Returns-then _ _ (Returns-uint32 x sound 8 m.shard_id (omega arith) fits.shard_id) (
        Returns-then _ _
          (Returns-packed x sound 18 x.put_uint64 m.replicas (omega arith)
            (Returns-uint64s x sound m.replicas fits.replicas) fits.packed)
          (Returns-then _ _ (Returns-uint64 x sound 24 m.leader_id (omega arith) fits.leader_id)
            (Returns-bool x sound 32 m.ready (omega arith))))

  -- What the writer asks of the status of a collection.
  pub record StatusFits (m : GetCollectionStatusResponse) : Type 0 where
    pub dimension : IsInt32 m.dimension
    pub shards : All (IsInner ShardFits (encode_shard_status x)) m.shards

  pub get_collection_status_response-Returns :
      (m : GetCollectionStatusResponse)
      → StatusFits m
      → Returns (encode_get_collection_status_response x m)
  unfolding encode_get_collection_status_response
  get_collection_status_response-Returns m fits =
      Returns-then _ _ (Returns-string x sound 10 m.name (omega arith)) (
        Returns-then _ _ (Returns-int32 x sound 16 m.dimension (omega arith) fits.dimension) (
          Returns-then _ _ (Returns-string x sound 26 m.distance (omega arith)) (
            Returns-messages x sound 34 ShardFits (encode_shard_status x) m.shards (omega arith)
              shard_status-Returns fits.shards)))

  -- What the writer asks of the point of a reply, if there is one.
  abbrev pub FoundFits : Option (Point F) → Type 0
  FoundFits none = Unit
  FoundFits (some p) = PointFits x sound p

  found-Returns :
      (o : Option (Point F)) → FoundFits o → Returns (encode_get_response x (record { point = o }))
  unfolding encode_get_response
  found-Returns none h = ([], refl)
  found-Returns (some p) h =
      Returns-field x sound 10 _ (omega arith)
        (Returns-join x sound (encode_point x p) (point-Returns x sound p h) h.whole)

  pub get_response-Returns :
      (m : GetResponse F) → FoundFits m.point → Returns (encode_get_response x m)
  get_response-Returns m h = found-Returns m.point h

  module _ (z : Zero F) where
    -- What the writer asks of a search result: finite floats, and parts that are not too long.
    pub record ResultFits (m : SearchResult F) : Type 0 where
      pub score : x.is_float32 m.score ≡ true
      pub vector : All (λ v. x.is_float32 v ≡ true) m.vector
      pub packed : IsShort (write_all x.put_float m.vector)
      pub entries :
          All
            (λ e. Short x sound (encode_payload_entry x (record { key = e.0; value = e.1 })))
            m.payload

    search_result-Returns :
        (m : SearchResult F) → ResultFits m → Returns (encode_search_result x z m)
    unfolding encode_search_result
    search_result-Returns m fits = Returns-then _ _ (Returns-string x sound 10 m.id (omega arith)) (
        Returns-then _ _
          (Returns-if (not (z.is_zero_float m.score)) _ (
            Returns-field x sound 21 (x.put_float m.score) (omega arith)
              (sound.float_fits m.score fits.score)))
          (Returns-then _ _ (payload-Returns x sound m.payload fits.entries) (
            Returns-packed x sound 34 x.put_float m.vector (omega arith)
              (Returns-floats x sound m.vector fits.vector) fits.packed)))

    -- What the writer asks of the results of a search.
    abbrev pub ResultsFit : SearchResponse F → Type 0
    ResultsFit m = All (IsInner ResultFits (encode_search_result x z)) m.results

    pub search_response-Returns :
        (m : SearchResponse F) → ResultsFit m → Returns (encode_search_response x z m)
    unfolding encode_search_response
    search_response-Returns m h =
        Returns-messages x sound 10 ResultFits (encode_search_result x z) m.results (omega arith)
          search_result-Returns h
