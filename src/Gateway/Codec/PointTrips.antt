-- ===== src/Gateway/Codec/PointTrips.antt =====
-- The messages with points or payloads of clientlibs/js/proto/apigateway/apigateway.ts are decoded
-- as they were encoded.
use vectron.Prelude.{
  ℕ, ◌≡◌, refl, String, Bool, true, false, not, Option, none, some, List, [], ◌∷◌, ◌++◌, map,
  if◌then◌else◌,
}
use vectron.Gateway.Wire.{
  Bytes, Wire, IsSound, Reader, Switch, field, join, write_if, write_all, take_message,
}
use vectron.Gateway.Wire.Reads.{Writes, Writes-then, Writes-nil, decode_all-Reads}
use vectron.Gateway.Wire.Fields.{
  one_value, string_field-Writes, write_all-Writes, packed-Writes, message-Writes,
}
use vectron.Gateway.Payload.{Payload, put, put_all}
use vectron.Gateway.Messages.{Point, UpsertRequest, GetResponse, SearchResult, SearchResponse}
use vectron.Gateway.Codec.Points.{
  PayloadEntry, Zero, payload_entry_field, base_payload_entry, encode_payload_entry, encode_payload,
  point_field, base_point, encode_point, upsert_request_field, base_upsert_request,
  encode_upsert_request, decode_upsert_request, get_response_field, base_get_response,
  encode_get_response, decode_get_response, search_result_field, base_search_result,
  encode_search_result, search_response_field, base_search_response, encode_search_response,
  decode_search_response,
}

module _ {F : Type 0} (x : Wire F) (sound : IsSound x) where
  payload_entry-Writes :
      (m : PayloadEntry)
      → Writes x (payload_entry_field x) (encode_payload_entry x m) (base_payload_entry x) m
  unfolding payload_entry_field encode_payload_entry
  payload_entry-Writes m =
      let switch = payload_entry_field x in
      Writes-then x switch _ _ _ _ _
        (string_field-Writes x switch sound 10 (λ s. record { key = s; value = "" }) m.key
          (λ r. refl))
        (string_field-Writes x switch sound 18 (λ s. record { key = m.key; value = s }) m.value
          (λ r. refl))

  -- The entries of a payload are put into the payload one by one.
  payload-Writes :
      {M : Type 0} (switch : ℕ → M → Reader → Switch M) (set : Payload → M)
      → ((acc : Payload) (r : Reader)
          → switch 26 (set acc) r
            ≡ take_message x
                (payload_entry_field x)
                (base_payload_entry x)
                (λ e. set (put acc e.key e.value))
                r)
      → (payload acc : Payload)
      → Writes x switch (encode_payload x payload) (set acc) (set (put_all acc payload))
  unfolding encode_payload write_all put_all
  payload-Writes switch set steps [] acc = Writes-nil x switch (set acc)
  payload-Writes switch set steps ((key, value) ∷ rest) acc =
      let entry : PayloadEntry = record { key = key; value = value } in
      Writes-then x switch (field x 26 (join x (encode_payload_entry x entry)))
        (encode_payload x rest) (set acc) (set (put acc key value)) _
        (message-Writes x switch sound (payload_entry_field x) 26 (set acc) (base_payload_entry x)
          entry (λ e. set (put acc e.key e.value)) (encode_payload_entry x entry) (steps acc)
          (payload_entry-Writes entry))
        (payload-Writes switch set steps rest (put acc key value))

  -- What is read of a point: its floats have 32 bits, and of entries with one key the last counts.
  abbrev pub point_as_read : Point F → Point F
  point_as_read m = record m { vector = map x.to_float32 m.vector; payload = put_all [] m.payload }

  point-Writes :
      (m : Point F) → Writes x (point_field x) (encode_point x m) (base_point x) (point_as_read m)
  unfolding point_field encode_point
  point-Writes m =
      let switch = point_field x in
      let made : String → List F → Payload → Point F =
        λ i v p. record { id = i; vector = v; payload = p } in
      let vs = map x.to_float32 m.vector in
      Writes-then x switch _ _ _ (made m.id [] []) _
        (string_field-Writes x switch sound 10 (λ i. made i [] []) m.id (λ r. refl))
        (Writes-then x switch _ _ _ (made m.id vs []) _
          (packed-Writes x switch sound 18 x.take_float x.put_float x.to_float32
            (λ us. made m.id us []) m.vector (λ r. refl) sound.float sound.float_nonempty)
          (payload-Writes switch (λ p. made m.id vs p) (λ acc r. refl) m.payload []))

  -- What is read of an upsert.
  abbrev pub upsert_as_read : UpsertRequest F → UpsertRequest F
  upsert_as_read m = record m { points = map point_as_read m.points }

  upsert_request-Writes :
      (m : UpsertRequest F)
      → Writes x
          (upsert_request_field x)
          (encode_upsert_request x m)
          (base_upsert_request x)
          (upsert_as_read m)
  unfolding upsert_request_field encode_upsert_request
  upsert_request-Writes m =
      let switch = upsert_request_field x in
      let made : String → List (Point F) → UpsertRequest F =
        λ c ps. record { collection = c; points = ps } in
      Writes-then x switch _ _ _ (made m.collection []) _
        (string_field-Writes x switch sound 10 (λ c. made c []) m.collection (λ r. refl))
        (write_all-Writes x switch sound (λ p. field x 18 (join x (encode_point x p))) point_as_read
          (λ ps. made m.collection ps)
          (λ p ps.
            message-Writes x switch sound (point_field x) 18 (made m.collection ps) (base_point x)
              (point_as_read p) (λ q. made m.collection (ps ++ (q ∷ []))) (encode_point x p)
              (λ r. refl) (point-Writes p))
          m.points [])

  -- With a sound wire format, decoding the bytes that were encoded of an upsert returns it: all
  -- points in their order with their ids, their vectors rounded to 32-bit floats, and their
  -- payloads, where of entries with one key the last counts.
  pub decode_upsert_request-encode :
      (m : UpsertRequest F) (bs : Bytes)
      → encode_upsert_request x m ≡ some bs
      → decode_upsert_request x bs ≡ some (upsert_as_read m)
  unfolding decode_upsert_request
  decode_upsert_request-encode m bs e =
      decode_all-Reads x (upsert_request_field x) bs _ (upsert_as_read m)
        (upsert_request-Writes m bs e)

  -- What is read of the reply to `get`.
  abbrev pub found_as_read : GetResponse F → GetResponse F
  found_as_read m = record {
    point = elim m.point [ none ↦ none | some p ↦ some (point_as_read p) ];
  }

  found-Writes :
      (o : Option (Point F))
      → Writes x
          (get_response_field x)
          (encode_get_response x (record { point = o }))
          (base_get_response x)
          (found_as_read (record { point = o }))
  unfolding get_response_field encode_get_response
  found-Writes none = Writes-nil x (get_response_field x) (base_get_response x)
  found-Writes (some p) =
      message-Writes x (get_response_field x) sound (point_field x) 10 (base_get_response x)
        (base_point x) (point_as_read p) (λ q. record { point = some q }) (encode_point x p)
        (λ r. refl) (point-Writes p)

  -- With a sound wire format, decoding the bytes that were encoded of the reply to `get` returns
  -- it, without a point or with one, its vector rounded to 32-bit floats and the last of payload
  -- entries with one key.
  pub decode_get_response-encode :
      (m : GetResponse F) (bs : Bytes)
      → encode_get_response x m ≡ some bs
      → decode_get_response x bs ≡ some (found_as_read m)
  unfolding decode_get_response
  decode_get_response-encode m bs e =
      decode_all-Reads x (get_response_field x) bs _ (found_as_read m) (found-Writes m.point bs e)

  module _ (z : Zero F) where
    -- What is read of a search result: a score that tests as zero is read as the number 0.
    abbrev pub result_as_read : SearchResult F → SearchResult F
    result_as_read m = record {
      id = m.id;
      score = if z.is_zero_float m.score then z.zero_float else x.to_float32 m.score;
      payload = put_all [] m.payload;
      vector = map x.to_float32 m.vector;
    }

    score-Writes :
        {M : Type 0} (switch : ℕ → M → Reader → Switch M) (set : F → M) (v : F) (b : Bool)
        → (writes : Writes x switch
            (field x 21 (x.put_float v))
            (set z.zero_float)
            (set (x.to_float32 v)))
        → Writes x switch
            (write_if (not b) (field x 21 (x.put_float v)))
            (set z.zero_float)
            (set (if b then z.zero_float else x.to_float32 v))
    score-Writes switch set v true writes = Writes-nil x switch (set z.zero_float)
    score-Writes switch set v false writes = writes

    search_result-Writes :
        (m : SearchResult F)
        → Writes x
            (search_result_field x z)
            (encode_search_result x z m)
            (base_search_result x z)
            (result_as_read m)
    unfolding search_result_field encode_search_result
    search_result-Writes m =
        let switch = search_result_field x z in
        let made : String → F → Payload → List F → SearchResult F =
          λ i s p v. record { id = i; score = s; payload = p; vector = v } in
        let read = result_as_read m in
        Writes-then x switch _ _ _ (made m.id z.zero_float [] []) _
          (string_field-Writes x switch sound 10 (λ i. made i z.zero_float [] []) m.id (λ r. refl))
          (Writes-then x switch _ _ _ (made m.id read.score [] []) _
            (score-Writes switch (λ s. made m.id s [] []) m.score (z.is_zero_float m.score)
              (one_value x switch sound 21 (made m.id z.zero_float [] []) x.take_float
                (λ s. made m.id s [] []) (x.to_float32 m.score) (x.put_float m.score) (λ r. refl)
                (sound.float m.score)))
            (Writes-then x switch _ _ _ (made m.id read.score read.payload []) _
              (payload-Writes switch (λ p. made m.id read.score p []) (λ acc r. refl) m.payload [])
              (packed-Writes x switch sound 34 x.take_float x.put_float x.to_float32
                (λ us. made m.id read.score read.payload us) m.vector (λ r. refl) sound.float
                sound.float_nonempty)))

    search_response-Writes :
        (m : SearchResponse F)
        → Writes x
            (search_response_field x z)
            (encode_search_response x z m)
            (base_search_response x z)
            (record { results = map result_as_read m.results })
    unfolding search_response_field encode_search_response
    search_response-Writes m =
        write_all-Writes x (search_response_field x z) sound
          (λ s. field x 10 (join x (encode_search_result x z s))) result_as_read
          (λ ss. record { results = ss })
          (λ s ss.
            message-Writes x (search_response_field x z) sound (search_result_field x z) 10
              (record { results = ss }) (base_search_result x z) (result_as_read s)
              (λ t. record { results = ss ++ (t ∷ []) }) (encode_search_result x z s) (λ r. refl)
              (search_result-Writes s))
          m.results []

    -- With a sound wire format, decoding the bytes that were encoded of the results of a search
    -- returns them in their order, with their scores and vectors rounded to 32-bit floats, a
    -- score that tests as zero as the number 0, and the last of payload entries with one key.
    pub decode_search_response-encode :
        (m : SearchResponse F) (bs : Bytes)
        → encode_search_response x z m ≡ some bs
        → decode_search_response x z bs ≡ some (record { results = map result_as_read m.results })
    unfolding decode_search_response
    decode_search_response-encode m bs e =
        decode_all-Reads x (search_response_field x z) bs _ _ (search_response-Writes m bs e)
