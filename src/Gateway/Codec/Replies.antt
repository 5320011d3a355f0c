-- ===== src/Gateway/Codec/Replies.antt =====
-- The replies of clientlibs/js/proto/apigateway/apigateway.ts in bytes, but for those with points.
use vectron.Gateway.Wire.{
  Bytes, Wire, Reader, Switch, unmatched, ◌then_write◌, write_if, write_all, take_into, take_packed,
  take_message, field, join, string_field, bool_field, uint32_field, int32_field, decode_all,
}
use vectron.Prelude.{ℕ, false, Option, some, [], ◌∷◌, ◌++◌, pos, ◌==◌, if◌then◌else◌, not, str_eq}
use vectron.Gateway.Messages.{
  CreateCollectionResponse, UpsertResponse, ListCollectionsResponse, ShardStatus,
  GetCollectionStatusResponse,
}

module _ {F : Type 0} (x : Wire F) where
  unfoldable pub encode_create_collection_response : CreateCollectionResponse → Option Bytes
  encode_create_collection_response m = bool_field x 8 m.success

  abbrev pub base_create_collection_response : CreateCollectionResponse
  base_create_collection_response = record { success = false }

  unfoldable pub create_collection_response_field :
      ℕ → CreateCollectionResponse → Reader → Switch (CreateCollectionResponse)
  create_collection_response_field tag m r =
      if tag == 8 then take_into x.take_bool (λ v. record m { success = v }) r else unmatched

  unfoldable pub decode_create_collection_response : Bytes → Option (CreateCollectionResponse)
  unfolding create_collection_response_field
  decode_create_collection_response bs =
      decode_all x create_collection_response_field base_create_collection_response bs

  unfoldable pub encode_upsert_response : UpsertResponse → Option Bytes
  encode_upsert_response m = int32_field x 8 m.upserted

  abbrev pub base_upsert_response : UpsertResponse
  base_upsert_response = record { upserted = pos 0 }

  unfoldable pub upsert_response_field : ℕ → UpsertResponse → Reader → Switch (UpsertResponse)
  upsert_response_field tag m r =
      if tag == 8 then take_into x.take_int32 (λ v. record m { upserted = v }) r else unmatched

  unfoldable pub decode_upsert_response : Bytes → Option (UpsertResponse)
  unfolding upsert_response_field
  decode_upsert_response bs = decode_all x upsert_response_field base_upsert_response bs

  unfoldable pub encode_list_collections_response : ListCollectionsResponse → Option Bytes
  encode_list_collections_response m =
      write_all (λ v. field x 10 (some (x.put_string v))) m.collections

  abbrev pub base_list_collections_response : ListCollectionsResponse
  base_list_collections_response = record { collections = [] }

  unfoldable pub list_collections_response_field :
      ℕ → ListCollectionsResponse → Reader → Switch (ListCollectionsResponse)
  list_collections_response_field tag m r =
      if tag == 10
      then take_into x.take_string (λ v. record m { collections = m.collections ++ (v ∷ []) }) r
      else unmatched

  unfoldable pub decode_list_collections_response : Bytes → Option (ListCollectionsResponse)
  unfolding list_collections_response_field
  decode_list_collections_response bs =
      decode_all x list_collections_response_field base_list_collections_response bs

  unfoldable pub encode_shard_status : ShardStatus → Option Bytes
  encode_shard_status m = uint32_field x 8 m.shard_id then_write (
      field x 18 (join x (write_all x.put_uint64 m.replicas)) then_write (
        write_if (not (str_eq m.leader_id "0")) (field x 24 (x.put_uint64 m.leader_id))
        then_write bool_field x 32 m.ready))

  abbrev pub base_shard_status : ShardStatus
  base_shard_status = record { shard_id = pos 0; replicas = []; leader_id = "0"; ready = false }

  unfoldable pub shard_status_field : ℕ → ShardStatus → Reader → Switch (ShardStatus)
  shard_status_field tag m r =
      if tag == 8
      then take_into x.take_uint32 (λ v. record m { shard_id = pos v }) r
      else if tag == 16
      then take_into x.take_uint64 (λ v. record m { replicas = m.replicas ++ (v ∷ []) }) r
      else if tag == 18
      then take_packed x x.take_uint64 m.replicas (λ vs. record m { replicas = vs }) r
      else if tag == 24
      then take_into x.take_uint64 (λ v. record m { leader_id = v }) r
      else if tag == 32
      then take_into x.take_bool (λ v. record m { ready = v }) r
      else unmatched

  unfoldable pub decode_shard_status : Bytes → Option (ShardStatus)
  unfolding shard_status_field
  decode_shard_status bs = decode_all x shard_status_field base_shard_status bs

  unfoldable pub encode_get_collection_status_response : GetCollectionStatusResponse → Option Bytes
  encode_get_collection_status_response m = string_field x 10 m.name then_write (
      int32_field x 16 m.dimension then_write (
        string_field x 26 m.distance
        then_write write_all (λ s. field x 34 (join x (encode_shard_status s))) m.shards))

  abbrev pub base_get_collection_status_response : GetCollectionStatusResponse
  base_get_collection_status_response = record {
    name = "";
    dimension = pos 0;
    distance = "";
    shards = [];
  }

  unfoldable pub get_collection_status_response_field :
      ℕ → GetCollectionStatusResponse → Reader → Switch (GetCollectionStatusResponse)
  get_collection_status_response_field tag m r =
      if tag == 10
      then take_into x.take_string (λ v. record m { name = v }) r
      else if tag == 16
      then take_into x.take_int32 (λ v. record m { dimension = v }) r
      else if tag == 26
      then take_into x.take_string (λ v. record m { distance = v }) r
      else if tag == 34
      then take_message x shard_status_field base_shard_status
          (λ s. record m { shards = m.shards ++ (s ∷ []) }) r
      else unmatched

  unfoldable pub decode_get_collection_status_response :
      Bytes → Option (GetCollectionStatusResponse)
  unfolding get_collection_status_response_field
  decode_get_collection_status_response bs =
      decode_all x get_collection_status_response_field base_get_collection_status_response bs
