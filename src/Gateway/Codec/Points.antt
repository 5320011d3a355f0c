-- ===== src/Gateway/Codec/Points.antt =====
-- The messages with points or payloads of clientlibs/js/proto/apigateway/apigateway.ts in bytes.
use vectron.Gateway.Wire.{
  Bytes, Wire, Reader, Switch, unmatched, ◌then_write◌, write_if, write_all, take_into, take_packed,
  take_message, field, join, string_field, decode_all,
}
use vectron.Prelude.{ℕ, String, Bool, Option, none, some, [], ◌∷◌, ◌++◌, ◌==◌, if◌then◌else◌, not}
use vectron.Gateway.Payload.{Payload, put}
use vectron.Gateway.Messages.{Point, UpsertRequest, GetResponse, SearchResult, SearchResponse}

-- `Point_PayloadEntry` and `SearchResult_PayloadEntry`: one property of a payload.
pub record PayloadEntry : Type 0 where
  pub key : String
  pub value : String

-- The number 0, and the test `score !== 0`.
pub record Zero (F : Type 0) : Type 0 where
  pub zero_float : F
  pub is_zero_float : F → Bool

module _ {F : Type 0} (x : Wire F) where
  unfoldable pub encode_payload_entry : PayloadEntry → Option Bytes
  encode_payload_entry m = string_field x 10 m.key then_write string_field x 18 m.value

  abbrev pub base_payload_entry : PayloadEntry
  base_payload_entry = record { key = ""; value = "" }

  unfoldable pub payload_entry_field : ℕ → PayloadEntry → Reader → Switch (PayloadEntry)
  payload_entry_field tag m r =
      if tag == 10
      then take_into x.take_string (λ v. record m { key = v }) r
      else if tag == 18
      then take_into x.take_string (λ v. record m { value = v }) r
      else unmatched

  unfoldable pub decode_payload_entry : Bytes → Option (PayloadEntry)
  unfolding payload_entry_field
  decode_payload_entry bs = decode_all x payload_entry_field base_payload_entry bs

  -- `Object.entries(payload).forEach(...)`
  unfoldable pub encode_payload : Payload → Option Bytes
  unfolding encode_payload_entry
  encode_payload payload =
      write_all
        (λ e. field x 26 (join x (encode_payload_entry (record { key = e.0; value = e.1 }))))
        payload

  unfoldable pub encode_point : Point F → Option Bytes
  encode_point m = string_field x 10 m.id then_write (
      field x 18 (join x (write_all x.put_float m.vector)) then_write encode_payload m.payload)

  abbrev pub base_point : Point F
  base_point = record { id = ""; vector = []; payload = [] }

  unfoldable pub point_field : ℕ → Point F → Reader → Switch (Point F)
  point_field tag m r =
      if tag == 10
      then take_into x.take_string (λ v. record m { id = v }) r
      else if tag == 21
      then take_into x.take_float (λ v. record m { vector = m.vector ++ (v ∷ []) }) r
      else if tag == 18
      then take_packed x x.take_float m.vector (λ vs. record m { vector = vs }) r
      else if tag == 26
      then take_message x payload_entry_field base_payload_entry
          (λ e. record m { payload = put m.payload e.key e.value }) r
      else unmatched

  unfoldable pub decode_point : Bytes → Option (Point F)
  unfolding point_field
  decode_point bs = decode_all x point_field base_point bs

  unfoldable pub encode_upsert_request : UpsertRequest F → Option Bytes
  encode_upsert_request m =
      string_field x 10 m.collection
      then_write write_all (λ p. field x 18 (join x (encode_point p))) m.points

  abbrev pub base_upsert_request : UpsertRequest F
  base_upsert_request = record { collection = ""; points = [] }

  unfoldable pub upsert_request_field : ℕ → UpsertRequest F → Reader → Switch (UpsertRequest F)
  upsert_request_field tag m r =
      if tag == 10
      then take_into x.take_string (λ v. record m { collection = v }) r
      else if tag == 18
      then take_message x point_field base_point (λ p. record m { points = m.points ++ (p ∷ []) }) r
      else unmatched

  unfoldable pub decode_upsert_request : Bytes → Option (UpsertRequest F)
  unfolding upsert_request_field
  decode_upsert_request bs = decode_all x upsert_request_field base_upsert_request bs

  unfoldable pub encode_get_response : GetResponse F → Option Bytes
  encode_get_response m = elim m.point [
    | none ↦ some []
    | some p ↦ field x 10 (join x (encode_point p))
  ]

  abbrev pub base_get_response : GetResponse F
  base_get_response = record { point = none }

  unfoldable pub get_response_field : ℕ → GetResponse F → Reader → Switch (GetResponse F)
  get_response_field tag m r =
      if tag == 10
      then take_message x point_field base_point (λ p. record m { point = some p }) r
      else unmatched

  unfoldable pub decode_get_response : Bytes → Option (GetResponse F)
  unfolding get_response_field
  decode_get_response bs = decode_all x get_response_field base_get_response bs

  module _ (z : Zero F) where
    unfoldable pub encode_search_result : SearchResult F → Option Bytes
    encode_search_result m = string_field x 10 m.id then_write (
        write_if (not (z.is_zero_float m.score)) (field x 21 (x.put_float m.score)) then_write (
          encode_payload m.payload then_write field x 34 (join x (write_all x.put_float m.vector))))

    abbrev pub base_search_result : SearchResult F
    base_search_result = record { id = ""; score = z.zero_float; payload = []; vector = [] }

    unfoldable pub search_result_field : ℕ → SearchResult F → Reader → Switch (SearchResult F)
    search_result_field tag m r =
        if tag == 10
        then take_into x.take_string (λ v. record m { id = v }) r
        else if tag == 21
        then take_into x.take_float (λ v. record m { score = v }) r
        else if tag == 26
        then take_message x payload_entry_field base_payload_entry
            (λ e. record m { payload = put m.payload e.key e.value }) r
        else if tag == 37
        then take_into x.take_float (λ v. record m { vector = m.vector ++ (v ∷ []) }) r
        else if tag == 34
        then take_packed x x.take_float m.vector (λ vs. record m { vector = vs }) r
        else unmatched

    unfoldable pub decode_search_result : Bytes → Option (SearchResult F)
    unfolding search_result_field
    decode_search_result bs = decode_all x search_result_field base_search_result bs

    unfoldable pub encode_search_response : SearchResponse F → Option Bytes
    encode_search_response m =
        write_all (λ s. field x 10 (join x (encode_search_result s))) m.results

    abbrev pub base_search_response : SearchResponse F
    base_search_response = record { results = [] }

    unfoldable pub search_response_field : ℕ → SearchResponse F → Reader → Switch (SearchResponse F)
    search_response_field tag m r =
        if tag == 10
        then take_message x search_result_field base_search_result
            (λ s. record m { results = m.results ++ (s ∷ []) }) r
        else unmatched

    unfoldable pub decode_search_response : Bytes → Option (SearchResponse F)
    unfolding search_response_field
    decode_search_response bs = decode_all x search_response_field base_search_response bs
