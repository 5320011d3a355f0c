-- ===== src/Gateway/Codec/ReplyTrips.antt =====
-- Replies of clientlibs/js/proto/apigateway/apigateway.ts are decoded as they were encoded.
use vectron.Prelude.{
  ◌≡◌, refl, ap, subst, String, Bool, false, not, some, List, [], ◌∷◌, ◌++◌, map, ℤ, pos, arith,
  str_eq, eq_iff,
}
use vectron.Gateway.Wire.{Bytes, Wire, IsSound, field, join, write_all}
use vectron.Gateway.Wire.Reads.{Writes, Writes-then, Writes-if, decode_all-Reads}
use vectron.Gateway.Wire.Fields.{
  one_value, string_field-Writes, int32_field-Writes, uint32_field-Writes, bool_field-Writes,
  write_all-Writes, packed-Writes, message-Writes,
}
use vectron.Gateway.Messages.{
  CreateCollectionResponse, UpsertResponse, ListCollectionsResponse, ShardStatus,
  GetCollectionStatusResponse,
}
use vectron.Gateway.Codec.Replies.{
  create_collection_response_field, base_create_collection_response,
  encode_create_collection_response, decode_create_collection_response, upsert_response_field,
  base_upsert_response, encode_upsert_response, decode_upsert_response,
  list_collections_response_field, base_list_collections_response, encode_list_collections_response,
  decode_list_collections_response, shard_status_field, base_shard_status, encode_shard_status,
  get_collection_status_response_field, base_get_collection_status_response,
  encode_get_collection_status_response, decode_get_collection_status_response,
}

map_same : {A : Type 0} (xs : List A) → map (λ v. v) xs ≡ xs
map_same [] = refl
map_same (a ∷ xs) = ap (λ ys. a ∷ ys) (map_same xs)

module _ {F : Type 0} (x : Wire F) (sound : IsSound x) where
  create_collection_response-Writes :
      (m : CreateCollectionResponse)
      → Writes x
          (create_collection_response_field x)
          (encode_create_collection_response x m)
          (base_create_collection_response x)
          m
  unfolding create_collection_response_field encode_create_collection_response
  create_collection_response-Writes m =
      bool_field-Writes x (create_collection_response_field x) sound 8 (λ b. record { success = b })
        m.success (λ r. refl)

  upsert_response-Writes :
      (m : UpsertResponse)
      → Writes x (upsert_response_field x) (encode_upsert_response x m) (base_upsert_response x) m
  unfolding upsert_response_field encode_upsert_response
  upsert_response-Writes m =
      int32_field-Writes x (upsert_response_field x) sound 8 (λ z. record { upserted = z })
        m.upserted (λ r. refl)

  list_collections_response-Writes :
      (m : ListCollectionsResponse)
      → Writes x
          (list_collections_response_field x)
          (encode_list_collections_response x m)
          (base_list_collections_response x)
          m
  unfolding list_collections_response_field encode_list_collections_response
  list_collections_response-Writes m =
      let switch = list_collections_response_field x in
      subst
        (λ cs.
          Writes x switch (write_all (λ v. field x 10 (some (x.put_string v))) m.collections)
            (base_list_collections_response x) (record { collections = cs }))
        (map_same m.collections)
        (write_all-Writes x switch sound (λ v. field x 10 (some (x.put_string v))) (λ v. v)
          (λ us. record { collections = us })
          (λ v us.
            one_value x switch sound 10 (record { collections = us }) x.take_string
              (λ u. record { collections = us ++ (u ∷ []) }) v (some (x.put_string v)) (λ r. refl)
              (λ bs rest e. ground (arith, e, sound.string v rest)))
          m.collections [])

  -- A reply to a creation comes back as it was encoded.
  pub decode_create_collection_response-encode :
      (m : CreateCollectionResponse) (bs : Bytes)
      → encode_create_collection_response x m ≡ some bs
      → decode_create_collection_response x bs ≡ some m
  unfolding decode_create_collection_response
  decode_create_collection_response-encode m bs e =
      decode_all-Reads x (create_collection_response_field x) bs _ m
        (create_collection_response-Writes m bs e)

  -- A reply to an upsert comes back as it was encoded.
  pub decode_upsert_response-encode :
      (m : UpsertResponse) (bs : Bytes)
      → encode_upsert_response x m ≡ some bs
      → decode_upsert_response x bs ≡ some m
  unfolding decode_upsert_response
  decode_upsert_response-encode m bs e =
      decode_all-Reads x (upsert_response_field x) bs _ m (upsert_response-Writes m bs e)

  -- With a sound wire format, decoding the bytes that were encoded of the list of the collections
  -- returns it.
  pub decode_list_collections_response-encode :
      (m : ListCollectionsResponse) (bs : Bytes)
      → encode_list_collections_response x m ≡ some bs
      → decode_list_collections_response x bs ≡ some m
  unfolding decode_list_collections_response
  decode_list_collections_response-encode m bs e =
      decode_all-Reads x (list_collections_response_field x) bs _ m
        (list_collections_response-Writes m bs e)

  -- What the client reads of the status of a shard: the texts of its ids are in decimal form.
  abbrev pub shard_as_read : ShardStatus → ShardStatus
  shard_as_read m = record m {
    replicas = map x.to_uint64 m.replicas;
    leader_id = x.to_uint64 m.leader_id;
  }

  at_default : (s : String) → not (str_eq s "0") ≡ false → "0" ≡ x.to_uint64 s
  at_default s h = ground (arith, eq_iff s "0", sound.uint64_zero)

  shard_status-Writes :
      (m : ShardStatus)
      → Writes x
          (shard_status_field x)
          (encode_shard_status x m)
          (base_shard_status x)
          (shard_as_read m)
  unfolding shard_status_field encode_shard_status
  shard_status-Writes m =
      let switch = shard_status_field x in
      let made : ℤ → List String → String → Bool → ShardStatus =
        λ i rs l b. record { shard_id = i; replicas = rs; leader_id = l; ready = b } in
      let rs = map x.to_uint64 m.replicas in
      Writes-then x switch _ _ _ (made m.shard_id [] "0" false) _
        (uint32_field-Writes x switch sound 8 (λ i. made i [] "0" false) m.shard_id (λ r. refl))
        (Writes-then x switch _ _ _ (made m.shard_id rs "0" false) _
          (packed-Writes x switch sound 18 x.take_uint64 x.put_uint64 x.to_uint64
            (λ vs. made m.shard_id vs "0" false) m.replicas (λ r. refl) sound.uint64
            sound.uint64_nonempty)
          (Writes-then x switch _ _ _ (made m.shard_id rs (x.to_uint64 m.leader_id) false) _
            (Writes-if x switch (not (str_eq m.leader_id "0")) _ _ _
              (λ h. ap (λ l. made m.shard_id rs l false) (at_default m.leader_id h))
              (one_value x switch sound 24 (made m.shard_id rs "0" false) x.take_uint64
                (λ l. made m.shard_id rs l false) (x.to_uint64 m.leader_id)
                (x.put_uint64 m.leader_id) (λ r. refl) (sound.uint64 m.leader_id)))
            (bool_field-Writes x switch sound 32
              (λ b. made m.shard_id rs (x.to_uint64 m.leader_id) b) m.ready (λ r. refl))))

  -- What the client reads of the status of a collection.
  abbrev pub status_as_read : GetCollectionStatusResponse → GetCollectionStatusResponse
  status_as_read m = record m { shards = map shard_as_read m.shards }

  get_collection_status_response-Writes :
      (m : GetCollectionStatusResponse)
      → Writes x
          (get_collection_status_response_field x)
          (encode_get_collection_status_response x m)
          (base_get_collection_status_response x)
          (status_as_read m)
  unfolding get_collection_status_response_field encode_get_collection_status_response
  get_collection_status_response-Writes m =
      let switch = get_collection_status_response_field x in
      let made : String → ℤ → String → List ShardStatus → GetCollectionStatusResponse =
        λ n d k ss. record { name = n; dimension = d; distance = k; shards = ss } in
      Writes-then x switch _ _ _ (made m.name (pos 0) "" []) _
        (string_field-Writes x switch sound 10 (λ n. made n (pos 0) "" []) m.name (λ r. refl))
        (Writes-then x switch _ _ _ (made m.name m.dimension "" []) _
          (int32_field-Writes x switch sound 16 (λ d. made m.name d "" []) m.dimension (λ r. refl))
          (Writes-then x switch _ _ _ (made m.name m.dimension m.distance []) _
            (string_field-Writes x switch sound 26 (λ k. made m.name m.dimension k []) m.distance
              (λ r. refl))
            (write_all-Writes x switch sound (λ s. field x 34 (join x (encode_shard_status x s)))
              shard_as_read (λ ss. made m.name m.dimension m.distance ss)
              (λ s ss.
                message-Writes x switch sound (shard_status_field x) 34
                  (made m.name m.dimension m.distance ss) (base_shard_status x) (shard_as_read s)
                  (λ t. made m.name m.dimension m.distance (ss ++ (t ∷ [])))
                  (encode_shard_status x s) (λ r. refl) (shard_status-Writes s))
              m.shards [])))

  -- With a sound wire format, decoding the bytes that were encoded of the status of a collection
  -- returns it with its shards in their order, the ids of replicas and leaders in decimal form.
  pub decode_get_collection_status_response-encode :
      (m : GetCollectionStatusResponse) (bs : Bytes)
      → encode_get_collection_status_response x m ≡ some bs
      → decode_get_collection_status_response x bs ≡ some (status_as_read m)
  unfolding decode_get_collection_status_response
  decode_get_collection_status_response-encode m bs e =
      decode_all-Reads x (get_collection_status_response_field x) bs _ (status_as_read m)
        (get_collection_status_response-Writes m bs e)
