-- ===== src/Examples/Messages.antt =====
-- Messages of clientlibs/js/proto/apigateway/apigateway.ts in the bytes of the tests.
use vectron.Gateway.Codec.Deliveries.{PointFits, Short, upsert_request_survives}
use vectron.Prelude.{
  arith, length, subst, All, Option, ◌<◌, ◌≡◌, refl, true, false, some, [], ◌∷◌, pos, ℕ,
}
use vectron.Gateway.Messages.{
  SearchRequest, UpsertRequest, GetCollectionStatusResponse, ListCollectionsResponse,
}
use vectron.Gateway.Wire.{Bytes, write_all}
use vectron.Gateway.Codec.Requests.{encode_search_request}
use vectron.Gateway.Codec.Points.{
  encode_upsert_request, decode_upsert_request, encode_point, encode_payload, encode_payload_entry,
}
use vectron.Gateway.Codec.PointTrips.{upsert_as_read}
use vectron.Examples.Bytes.{wire, wire-IsSound}

abbrev request : SearchRequest ℕ
request = record {
  collection = "c";
  vector = 7 ∷ 8 ∷ [];
  top_k = pos 10;
  query = "";
  timeout_ms = pos 0;
  include_vectors = true;
  include_metadata = false;
}

abbrev request_bytes : Bytes
request_bytes = 10 ∷ 1 ∷ 99 ∷ 0 ∷ 21 ∷ 7 ∷ 21 ∷ 8 ∷ 24 ∷ 10 ∷ 48 ∷ 1 ∷ []

request_written : encode_search_request wire request ≡ some request_bytes
unfolding encode_search_request write_all
request_written = refl

abbrev names : ListCollectionsResponse
names = record { collections = "a" ∷ "" ∷ [] }

abbrev names_bytes : Bytes
names_bytes = 10 ∷ 1 ∷ 97 ∷ 0 ∷ 10 ∷ 0 ∷ []

abbrev status : GetCollectionStatusResponse
status = record {
  name = "c";
  dimension = pos 4;
  distance = "";
  shards =
      record { shard_id = pos 1; replicas = "2" ∷ "3" ∷ []; leader_id = "2"; ready = true } ∷ [];
}

abbrev status_bytes : Bytes
status_bytes =
    10 ∷ 1 ∷ 99 ∷ 0 ∷ 16 ∷ 0 ∷ 4 ∷ 34 ∷ 16 ∷ 8 ∷ 1 ∷ 18 ∷ 6 ∷ 1 ∷ 50 ∷ 0 ∷ 1 ∷ 51 ∷ 0 ∷ 24 ∷ 1 ∷ 50
    ∷ 0 ∷ 32 ∷ 1 ∷ []

abbrev upsert_of_two : UpsertRequest ℕ
upsert_of_two = record {
  collection = "c";
  points =
      record { id = "a"; vector = 1 ∷ []; payload = [] }
      ∷ record { id = "b"; vector = []; payload = ("k", "v") ∷ [] }
      ∷ [];
}

abbrev upsert_bytes : Bytes
upsert_bytes =
    10 ∷ 1 ∷ 99 ∷ 0 ∷ 18 ∷ 7 ∷ 10 ∷ 1 ∷ 97 ∷ 0 ∷ 18 ∷ 1 ∷ 1 ∷ 18 ∷ 16 ∷ 10 ∷ 1 ∷ 98 ∷ 0 ∷ 18 ∷ 0
    ∷ 26 ∷ 8 ∷ 10 ∷ 1 ∷ 107 ∷ 0 ∷ 18 ∷ 1 ∷ 118 ∷ 0 ∷ []

upsert_written : encode_upsert_request wire upsert_of_two ≡ some upsert_bytes
unfolding encode_upsert_request encode_point encode_payload encode_payload_entry write_all
upsert_written = refl

Short-bytes :
    (o : Option Bytes) (bs : Bytes)
    → o ≡ some bs
    → length bs < 4294967296
    → Short wire wire-IsSound o
Short-bytes o bs e h cs f = subst (λ zs. length zs < 4294967296) (ground (arith, e, f)) h

upsert_PointFits : All (PointFits wire wire-IsSound) upsert_of_two.points
unfolding encode_point encode_payload encode_payload_entry write_all
upsert_PointFits = (
  record {
    vector = (refl, tt);
    packed = Short-bytes _ (1 ∷ []) refl (omega arith);
    entries = tt;
    whole = Short-bytes _ (10 ∷ 1 ∷ 97 ∷ 0 ∷ 18 ∷ 1 ∷ 1 ∷ []) refl (omega arith);
  },
  (
    record {
      vector = tt;
      packed = Short-bytes _ [] refl (omega arith);
      entries = (Short-bytes _ (10 ∷ 1 ∷ 107 ∷ 0 ∷ 18 ∷ 1 ∷ 118 ∷ 0 ∷ []) refl (omega arith), tt);
      whole =
          Short-bytes _
            (10 ∷ 1 ∷ 98 ∷ 0 ∷ 18 ∷ 0 ∷ 26 ∷ 8 ∷ 10 ∷ 1 ∷ 107 ∷ 0 ∷ 18 ∷ 1 ∷ 118 ∷ 0 ∷ []) refl
            (omega arith);
    },
    tt,
  ),
)

upsert_request_survives_example :
    (bs : Bytes) × (encode_upsert_request wire upsert_of_two ≡ some bs)
    × (decode_upsert_request wire bs ≡ some (upsert_as_read wire wire-IsSound upsert_of_two))
upsert_request_survives_example =
    upsert_request_survives wire wire-IsSound upsert_of_two upsert_PointFits
