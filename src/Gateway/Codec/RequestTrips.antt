-- ===== src/Gateway/Codec/RequestTrips.antt =====
-- Requests of clientlibs/js/proto/apigateway/apigateway.ts are decoded as they were encoded.
use vectron.Prelude.{◌≡◌, refl, String, Bool, false, some, List, [], ◌∷◌, ◌++◌, map, ℤ, pos}
use vectron.Gateway.Wire.{Bytes, Wire, IsSound, field}
use vectron.Gateway.Wire.Reads.{Writes, Writes-then, decode_all-Reads}
use vectron.Gateway.Wire.Fields.{
  one_value, string_field-Writes, int32_field-Writes, uint32_field-Writes, bool_field-Writes,
  write_all-Writes,
}
use vectron.Gateway.Messages.{
  CreateCollectionRequest, GetCollectionStatusRequest, GetRequest, DeleteRequest, SearchRequest,
}
use vectron.Gateway.Codec.Requests.{
  create_collection_request_field, base_create_collection_request, encode_create_collection_request,
  decode_create_collection_request, get_collection_status_request_field,
  base_get_collection_status_request, encode_get_collection_status_request,
  decode_get_collection_status_request, get_request_field, base_get_request, encode_get_request,
  decode_get_request, delete_request_field, base_delete_request, encode_delete_request,
  decode_delete_request, search_request_field, base_search_request, encode_search_request,
  decode_search_request,
}

module _ {F : Type 0} (x : Wire F) (sound : IsSound x) where
  create_collection_request-Writes :
      (m : CreateCollectionRequest)
      → Writes x
          (create_collection_request_field x)
          (encode_create_collection_request x m)
          (base_create_collection_request x)
          m
  unfolding create_collection_request_field encode_create_collection_request
  create_collection_request-Writes m =
      let switch = create_collection_request_field x in
      Writes-then x switch _ _ _ _ _
        (string_field-Writes x switch sound 10
          (λ s. record { name = s; dimension = pos 0; distance = "" }) m.name (λ r. refl))
        (Writes-then x switch _ _ _ _ _
          (int32_field-Writes x switch sound 16
            (λ z. record { name = m.name; dimension = z; distance = "" }) m.dimension (λ r. refl))
          (string_field-Writes x switch sound 26
            (λ s. record { name = m.name; dimension = m.dimension; distance = s }) m.distance
            (λ r. refl)))

  -- With a sound wire format, decoding the bytes that were encoded of a request to create a
  -- collection returns it.
  pub decode_create_collection_request-encode :
      (m : CreateCollectionRequest) (bs : Bytes)
      → encode_create_collection_request x m ≡ some bs
      → decode_create_collection_request x bs ≡ some m
  unfolding decode_create_collection_request
  decode_create_collection_request-encode m bs e =
      decode_all-Reads x (create_collection_request_field x) bs _ m
        (create_collection_request-Writes m bs e)

  get_collection_status_request-Writes :
      (m : GetCollectionStatusRequest)
      → Writes x
          (get_collection_status_request_field x)
          (encode_get_collection_status_request x m)
          (base_get_collection_status_request x)
          m
  unfolding get_collection_status_request_field encode_get_collection_status_request
  get_collection_status_request-Writes m =
      string_field-Writes x (get_collection_status_request_field x) sound 10
        (λ s. record { name = s }) m.name (λ r. refl)

  get_request-Writes :
      (m : GetRequest)
      → Writes x (get_request_field x) (encode_get_request x m) (base_get_request x) m
  unfolding get_request_field encode_get_request
  get_request-Writes m =
      let switch = get_request_field x in
      Writes-then x switch _ _ _ _ _
        (string_field-Writes x switch sound 10 (λ s. record { collection = s; id = "" })
          m.collection (λ r. refl))
        (string_field-Writes x switch sound 18 (λ s. record { collection = m.collection; id = s })
          m.id (λ r. refl))

  delete_request-Writes :
      (m : DeleteRequest)
      → Writes x (delete_request_field x) (encode_delete_request x m) (base_delete_request x) m
  unfolding delete_request_field encode_delete_request
  delete_request-Writes m =
      let switch = delete_request_field x in
      Writes-then x switch _ _ _ _ _
        (string_field-Writes x switch sound 10 (λ s. record { collection = s; id = "" })
          m.collection (λ r. refl))
        (string_field-Writes x switch sound 18 (λ s. record { collection = m.collection; id = s })
          m.id (λ r. refl))

  -- A request for the status of a collection comes back as it was encoded.
  pub decode_get_collection_status_request-encode :
      (m : GetCollectionStatusRequest) (bs : Bytes)
      → encode_get_collection_status_request x m ≡ some bs
      → decode_get_collection_status_request x bs ≡ some m
  unfolding decode_get_collection_status_request
  decode_get_collection_status_request-encode m bs e =
      decode_all-Reads x (get_collection_status_request_field x) bs _ m
        (get_collection_status_request-Writes m bs e)

  -- A request for a point comes back as it was encoded.
  pub decode_get_request-encode :
      (m : GetRequest) (bs : Bytes)
      → encode_get_request x m ≡ some bs
      → decode_get_request x bs ≡ some m
  unfolding decode_get_request
  decode_get_request-encode m bs e =
      decode_all-Reads x (get_request_field x) bs _ m (get_request-Writes m bs e)

  -- A request to delete a point comes back as it was encoded.
  pub decode_delete_request-encode :
      (m : DeleteRequest) (bs : Bytes)
      → encode_delete_request x m ≡ some bs
      → decode_delete_request x bs ≡ some m
  unfolding decode_delete_request
  decode_delete_request-encode m bs e =
      decode_all-Reads x (delete_request_field x) bs _ m (delete_request-Writes m bs e)

  -- What is read of a search request: its floats have 32 bits.
  abbrev pub search_as_read : SearchRequest F → SearchRequest F
  search_as_read m = record m { vector = map x.to_float32 m.vector }

  search_request-Writes :
      (m : SearchRequest F)
      → Writes x
          (search_request_field x)
          (encode_search_request x m)
          (base_search_request x)
          (search_as_read m)
  unfolding search_request_field encode_search_request
  search_request-Writes m =
      let switch = search_request_field x in
      let made : String → List F → ℤ → String → ℤ → Bool → Bool → SearchRequest F =
        λ c v k q t iv im. record {
          collection = c;
          vector = v;
          top_k = k;
          query = q;
          timeout_ms = t;
          include_vectors = iv;
          include_metadata = im;
        } in
      let vs = map x.to_float32 m.vector in
      Writes-then x switch _ _ _ (made m.collection [] (pos 0) "" (pos 0) false false) _
        (string_field-Writes x switch sound 10 (λ s. made s [] (pos 0) "" (pos 0) false false)
          m.collection (λ r. refl))
        (Writes-then x switch _ _ _ (made m.collection vs (pos 0) "" (pos 0) false false) _
          (write_all-Writes x switch sound (λ v. field x 21 (x.put_float v)) x.to_float32
            (λ us. made m.collection us (pos 0) "" (pos 0) false false)
            (λ v us.
              one_value x switch sound 21 (made m.collection us (pos 0) "" (pos 0) false false)
                x.take_float
                (λ u. made m.collection (us ++ (u ∷ [])) (pos 0) "" (pos 0) false false)
                (x.to_float32 v) (x.put_float v) (λ r. refl) (λ bs rest e. sound.float v bs rest e))
            m.vector [])
          (Writes-then x switch _ _ _ (made m.collection vs m.top_k "" (pos 0) false false) _
            (uint32_field-Writes x switch sound 24
              (λ k. made m.collection vs k "" (pos 0) false false) m.top_k (λ r. refl))
            (Writes-then x switch _ _ _ (made m.collection vs m.top_k m.query (pos 0) false false) _
              (string_field-Writes x switch sound 34
                (λ q. made m.collection vs m.top_k q (pos 0) false false) m.query (λ r. refl))
              (Writes-then x switch _ _ _
                (made m.collection vs m.top_k m.query m.timeout_ms false false) _
                (uint32_field-Writes x switch sound 40
                  (λ t. made m.collection vs m.top_k m.query t false false) m.timeout_ms
                  (λ r. refl))
                (Writes-then x switch _ _ _
                  (made m.collection vs m.top_k m.query m.timeout_ms m.include_vectors false) _
                  (bool_field-Writes x switch sound 48
                    (λ b. made m.collection vs m.top_k m.query m.timeout_ms b false)
                    m.include_vectors (λ r. refl))
                  (bool_field-Writes x switch sound 56
                    (λ b. made m.collection vs m.top_k m.query m.timeout_ms m.include_vectors b)
                    m.include_metadata (λ r. refl)))))))

  -- With a sound wire format, decoding the bytes that were encoded of a search request returns
  -- it, with its vector rounded to 32-bit floats.
  pub decode_search_request-encode :
      (m : SearchRequest F) (bs : Bytes)
      → encode_search_request x m ≡ some bs
      → decode_search_request x bs ≡ some (search_as_read m)
  unfolding decode_search_request
  decode_search_request-encode m bs e =
      decode_all-Reads x (search_request_field x) bs _ (search_as_read m)
        (search_request-Writes m bs e)
