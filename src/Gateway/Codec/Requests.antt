-- ===== src/Gateway/Codec/Requests.antt =====
-- The requests of clientlibs/js/proto/apigateway/apigateway.ts in bytes, but for `UpsertRequest`.
use vectron.Gateway.Wire.{
  Bytes, Wire, Reader, Switch, unmatched, ◌then_write◌, write_all, take_into, take_packed, field,
  string_field, bool_field, uint32_field, int32_field, decode_all,
}
use vectron.Prelude.{ℕ, false, Option, [], ◌∷◌, ◌++◌, pos, ◌==◌, if◌then◌else◌}
use vectron.Gateway.Messages.{
  CreateCollectionRequest, GetCollectionStatusRequest, GetRequest, DeleteRequest, SearchRequest,
}

module _ {F : Type 0} (x : Wire F) where
  unfoldable pub encode_create_collection_request : CreateCollectionRequest → Option Bytes
  encode_create_collection_request m =
      string_field x 10 m.name
      then_write (int32_field x 16 m.dimension then_write string_field x 26 m.distance)

  abbrev pub base_create_collection_request : CreateCollectionRequest
  base_create_collection_request = record { name = ""; dimension = pos 0; distance = "" }

  unfoldable pub create_collection_request_field :
      ℕ → CreateCollectionRequest → Reader → Switch (CreateCollectionRequest)
  create_collection_request_field tag m r =
      if tag == 10
      then take_into x.take_string (λ v. record m { name = v }) r
      else if tag == 16
      then take_into x.take_int32 (λ v. record m { dimension = v }) r
      else if tag == 26
      then take_into x.take_string (λ v. record m { distance = v }) r
      else unmatched

  unfoldable pub decode_create_collection_request : Bytes → Option (CreateCollectionRequest)
  unfolding create_collection_request_field
  decode_create_collection_request bs =
      decode_all x create_collection_request_field base_create_collection_request bs

  unfoldable pub encode_get_collection_status_request : GetCollectionStatusRequest → Option Bytes
  encode_get_collection_status_request m = string_field x 10 m.name

  abbrev pub base_get_collection_status_request : GetCollectionStatusRequest
  base_get_collection_status_request = record { name = "" }

  unfoldable pub get_collection_status_request_field :
      ℕ → GetCollectionStatusRequest → Reader → Switch (GetCollectionStatusRequest)
  get_collection_status_request_field tag m r =
      if tag == 10 then take_into x.take_string (λ v. record m { name = v }) r else unmatched

  unfoldable pub decode_get_collection_status_request : Bytes → Option (GetCollectionStatusRequest)
  unfolding get_collection_status_request_field
  decode_get_collection_status_request bs =
      decode_all x get_collection_status_request_field base_get_collection_status_request bs

  unfoldable pub encode_get_request : GetRequest → Option Bytes
  encode_get_request m = string_field x 10 m.collection then_write string_field x 18 m.id

  abbrev pub base_get_request : GetRequest
  base_get_request = record { collection = ""; id = "" }

  unfoldable pub get_request_field : ℕ → GetRequest → Reader → Switch (GetRequest)
  get_request_field tag m r =
      if tag == 10
      then take_into x.take_string (λ v. record m { collection = v }) r
      else if tag == 18
      then take_into x.take_string (λ v. record m { id = v }) r
      else unmatched

  unfoldable pub decode_get_request : Bytes → Option (GetRequest)
  unfolding get_request_field
  decode_get_request bs = decode_all x get_request_field base_get_request bs

  unfoldable pub encode_delete_request : DeleteRequest → Option Bytes
  encode_delete_request m = string_field x 10 m.collection then_write string_field x 18 m.id

  abbrev pub base_delete_request : DeleteRequest
  base_delete_request = record { collection = ""; id = "" }

  unfoldable pub delete_request_field : ℕ → DeleteRequest → Reader → Switch (DeleteRequest)
  delete_request_field tag m r =
      if tag == 10
      then take_into x.take_string (λ v. record m { collection = v }) r
      else if tag == 18
      then take_into x.take_string (λ v. record m { id = v }) r
      else unmatched

  unfoldable pub decode_delete_request : Bytes → Option (DeleteRequest)
  unfolding delete_request_field
  decode_delete_request bs = decode_all x delete_request_field base_delete_request bs

  unfoldable pub encode_search_request : SearchRequest F → Option Bytes
  encode_search_request m = string_field x 10 m.collection then_write (
      write_all (λ v. field x 21 (x.put_float v)) m.vector then_write (
        uint32_field x 24 m.top_k then_write (
          string_field x 34 m.query then_write (
            uint32_field x 40 m.timeout_ms then_write (
              bool_field x 48 m.include_vectors then_write bool_field x 56 m.include_metadata)))))

  abbrev pub base_search_request : SearchRequest F
  base_search_request = record {
    collection = "";
    vector = [];
    top_k = pos 0;
    query = "";
    timeout_ms = pos 0;
    include_vectors = false;
    include_metadata = false;
  }

  unfoldable pub search_request_field : ℕ → SearchRequest F → Reader → Switch (SearchRequest F)
  search_request_field tag m r =
      if tag == 10
      then take_into x.take_string (λ v. record m { collection = v }) r
      else if tag == 21
      then take_into x.take_float (λ v. record m { vector = m.vector ++ (v ∷ []) }) r
      else if tag == 18
      then take_packed x x.take_float m.vector (λ vs. record m { vector = vs }) r
      else if tag == 24
      then take_into x.take_uint32 (λ v. record m { top_k = pos v }) r
      else if tag == 34
      then take_into x.take_string (λ v. record m { query = v }) r
      else if tag == 40
      then take_into x.take_uint32 (λ v. record m { timeout_ms = pos v }) r
      else if tag == 48
      then take_into x.take_bool (λ v. record m { include_vectors = v }) r
      else if tag == 56
      then take_into x.take_bool (λ v. record m { include_metadata = v }) r
      else unmatched

  unfoldable pub decode_search_request : Bytes → Option (SearchRequest F)
  unfolding search_request_field
  decode_search_request bs = decode_all x search_request_field base_search_request bs
