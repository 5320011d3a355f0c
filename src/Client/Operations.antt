-- ===== src/Client/Operations.antt =====
-- The operations of `VectronClient` in clientlibs/js/src/client.ts that make one call of the
-- service, as one type, for what holds of all of them.
pub mod Cases
pub mod Safety
pub mod Requests
pub mod Hangs
use vectron.Prelude.{String, Bool, true, false, Option, List, ℤ}
use vectron.Gateway.Messages.{GetCollectionStatusResponse}
use vectron.Client.Errors.{Platform}
use vectron.Client.World.{Async}
use vectron.Client.Session.{Client}
use vectron.Client.Calls.{
  Point, SearchResult, create_collection, list_collections, get_collection_status, upsert,
  search_points, get, delete,
}

pub data Operation (F : Type 0) : Type 0 where
  creates : String → ℤ → Option String → Operation F
  lists : Operation F
  asks_status : String → Operation F
  upserts : String → List (Point F) → Operation F
  searches : String → List F → Option ℤ → Operation F
  gets : String → String → Operation F
  deletes : String → String → Operation F

abbrev pub ResultOf : {F : Type 0} → Operation F → Type 0
ResultOf (creates name dimension distance) = Unit {0}
ResultOf lists = List String
ResultOf (asks_status name) = GetCollectionStatusResponse
ResultOf (upserts collection points) = ℤ
ResultOf {F} (searches collection vector top_k) = List (SearchResult F)
ResultOf {F} (gets collection point_id) = Point F
ResultOf (deletes collection point_id) = Unit {0}

-- The operations that go through `callWithRetry(true, ...)`.
abbrev pub is_write : {F : Type 0} → Operation F → Bool
is_write (creates name dimension distance) = true
is_write lists = false
is_write (asks_status name) = false
is_write (upserts collection points) = true
is_write (searches collection vector top_k) = false
is_write (gets collection point_id) = false
is_write (deletes collection point_id) = true

module _ {F : Type 0} (pf : Platform) (c : Client) where
  unfoldable pub perform : (op : Operation F) → Async F (ResultOf op)
  perform (creates name dimension distance) = create_collection pf c name dimension distance
  perform lists = list_collections pf c
  perform (asks_status name) = get_collection_status pf c name
  perform (upserts collection points) = upsert pf c collection points
  perform (searches collection vector top_k) = search_points pf c collection vector top_k
  perform (gets collection point_id) = get pf c collection point_id
  perform (deletes collection point_id) = delete pf c collection point_id
