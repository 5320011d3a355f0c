-- ===== src/Gateway/Codec/Deliveries.antt =====
-- Requests of clientlibs/js/proto/apigateway/apigateway.ts that `encode` writes without throwing, and
-- what becomes of them.
use vectron.Prelude.{◌<◌, ◌≡◌, refl, true, All, arith, Option, some, List, [], ◌∷◌, length}
use vectron.Gateway.Wire.{Bytes, Wire, IsSound, field, join, write_all}
use vectron.Gateway.Wire.Returns.{
  Returns, IsUint32, Returns-then, Returns-All, Returns-field, Returns-string, Returns-bool,
  Returns-uint32, Returns-floats, Returns-join,
}
use vectron.Gateway.Payload.{Payload}
use vectron.Gateway.Messages.{SearchRequest, Point, UpsertRequest}
use vectron.Gateway.Codec.Requests.{encode_search_request}
use vectron.Gateway.Codec.Points.{
  PayloadEntry, encode_payload_entry, encode_payload, encode_point, encode_upsert_request,
  decode_upsert_request,
}
use vectron.Gateway.Codec.PointTrips.{upsert_as_read, decode_upsert_request-encode}

module _ {F : Type 0} (x : Wire F) (sound : IsSound x) where
  -- What the writer asks of a search request: numbers that are uint32, and finite floats.
  pub record SearchFits (m : SearchRequest F) : Type 0 where
    pub top_k : IsUint32 m.top_k
    pub timeout_ms : IsUint32 m.timeout_ms
    pub vector : All (λ v. x.is_float32 v ≡ true) m.vector

  float_fields :
      (vs : List F)
      → All (λ v. Returns (x.put_float v)) vs
      → All (λ v. Returns (field x 21 (x.put_float v))) vs
  float_fields [] h = tt
  float_fields (v ∷ vs) (h, hs) =
      (Returns-field x sound 21 (x.put_float v) (omega arith) h, float_fields vs hs)

  pub search_request-Returns :
      (m : SearchRequest F) → SearchFits m → Returns (encode_search_request x m)
  unfolding encode_search_request
  search_request-Returns m fits =
      Returns-then _ _ (Returns-string x sound 10 m.collection (omega arith)) (
        Returns-then _ _
          (Returns-All (λ v. field x 21 (x.put_float v)) m.vector
            (float_fields m.vector (Returns-floats x sound m.vector fits.vector)))
          (Returns-then _ _ (Returns-uint32 x sound 24 m.top_k (omega arith) fits.top_k) (
            Returns-then _ _ (Returns-string x sound 34 m.query (omega arith)) (
              Returns-then _ _
                (Returns-uint32 x sound 40 m.timeout_ms (omega arith) fits.timeout_ms)
                (Returns-then _ _ (Returns-bool x sound 48 m.include_vectors (omega arith))
                  (Returns-bool x sound 56 m.include_metadata (omega arith)))))))

  -- What is written has less than 4 GiB, so that its length is a uint32.
  abbrev pub Short : Option Bytes → Type 0
  Short o = (bs : Bytes) → o ≡ some bs → length bs < 4294967296

  -- What the writer asks of a point: finite floats, and parts that are not too long.
  pub record PointFits (p : Point F) : Type 0 where
    pub vector : All (λ v. x.is_float32 v ≡ true) p.vector
    pub packed : Short (write_all x.put_float p.vector)
    pub entries :
        All (λ e. Short (encode_payload_entry x (record { key = e.0; value = e.1 }))) p.payload
    pub whole : Short (encode_point x p)

  payload_entry-Returns : (e : PayloadEntry) → Returns (encode_payload_entry x e)
  unfolding encode_payload_entry
  payload_entry-Returns e =
      Returns-then _ _ (Returns-string x sound 10 e.key (omega arith))
        (Returns-string x sound 18 e.value (omega arith))

  pub payload-Returns :
      (payload : Payload)
      → All (λ e. Short (encode_payload_entry x (record { key = e.0; value = e.1 }))) payload
      → Returns (encode_payload x payload)
  unfolding encode_payload write_all
  payload-Returns [] h = ([], refl)
  payload-Returns ((key, value) ∷ rest) (short, hs) =
      let entry : PayloadEntry = record { key = key; value = value } in
      Returns-then _ _
        (Returns-field x sound 26 _ (omega arith)
          (Returns-join x sound (encode_payload_entry x entry) (payload_entry-Returns entry) short))
        (payload-Returns rest hs)

  pub point-Returns : (p : Point F) → PointFits p → Returns (encode_point x p)
  unfolding encode_point
  point-Returns p fits = Returns-then _ _ (Returns-string x sound 10 p.id (omega arith)) (
      Returns-then _ _
        (Returns-field x sound 18 _ (omega arith) (
          Returns-join x sound (write_all x.put_float p.vector)
            (Returns-All x.put_float p.vector (Returns-floats x sound p.vector fits.vector))
            fits.packed))
        (payload-Returns p.payload fits.entries))

  point_fields :
      (ps : List (Point F))
      → All PointFits ps
      → All (λ p. Returns (field x 18 (join x (encode_point x p)))) ps
  point_fields [] h = tt
  point_fields (p ∷ ps) (h, hs) = (
    Returns-field x sound 18 _ (omega arith)
        (Returns-join x sound (encode_point x p) (point-Returns p h) h.whole),
    point_fields ps hs,
  )

  pub upsert_request-Returns :
      (m : UpsertRequest F) → All PointFits m.points → Returns (encode_upsert_request x m)
  unfolding encode_upsert_request
  upsert_request-Returns m fits =
      Returns-then _ _ (Returns-string x sound 10 m.collection (omega arith)) (
        Returns-All (λ p. field x 18 (join x (encode_point x p))) m.points
          (point_fields m.points fits))

  -- With a sound wire format, and an upsert whose floats have the range of 32-bit floats and
  -- whose points, vectors and payload entries each take less than 4 GiB: encoding it returns
  -- bytes, and decoding them returns all points in their order with their ids, their vectors
  -- rounded to 32-bit floats, and their payloads, where of entries with one key the last counts.
  pub upsert_request_survives :
      (m : UpsertRequest F)
      → All PointFits m.points
      → (bs : Bytes) × (encode_upsert_request x m ≡ some bs)
        × (decode_upsert_request x bs ≡ some (upsert_as_read x sound m))
  upsert_request_survives m fits =
      let (bs, e) = upsert_request-Returns m fits in
      (bs, e, decode_upsert_request-encode x sound m bs e)
