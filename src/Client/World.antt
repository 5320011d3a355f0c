-- ===== src/Client/World.antt =====
-- The world of a client: the requests that `VectronServiceClient` sends and the answers it brings,
-- the timers and the clock; and the private helpers of `VectronClient` that prepare a request, in
-- clientlibs/js/src/client.ts.
use vectron.Prelude.{ℕ, suc, String, Option, List, ◌∷◌, length, ℤ, Outcome}
use vectron.Gateway.Messages.{
  CreateCollectionRequest, CreateCollectionResponse, ListCollectionsRequest,
  ListCollectionsResponse, GetCollectionStatusRequest, GetCollectionStatusResponse, UpsertRequest,
  UpsertResponse, SearchRequest, SearchResponse, GetRequest, GetResponse, DeleteRequest,
  DeleteResponse,
}
use vectron.Client.Errors.{Thrown, ServiceError}
use vectron.Client.Options.{Compression}
use vectron.Client.Hedge.{Order}
use vectron.Client.Retry.{Timers}

-- One request to a method of the service.
pub data Request (F : Type 0) : Type 0 where
  create_collection : CreateCollectionRequest → Request F
  list_collections : ListCollectionsRequest → Request F
  get_collection_status : GetCollectionStatusRequest → Request F
  upsert : UpsertRequest F → Request F
  search : SearchRequest F → Request F
  get : GetRequest → Request F
  delete : DeleteRequest → Request F

abbrev pub ResponseOf : {F : Type 0} → Request F → Type 0
ResponseOf (create_collection r) = CreateCollectionResponse
ResponseOf (list_collections r) = ListCollectionsResponse
ResponseOf (get_collection_status r) = GetCollectionStatusResponse
ResponseOf (upsert r) = UpsertResponse
ResponseOf {F} (search r) = SearchResponse F
ResponseOf {F} (get r) = GetResponse F
ResponseOf (delete r) = DeleteResponse

pub record CallOptions : Type 0 where
  pub deadline : Option ℤ
  pub compression : Option Compression

pub record Sent (F : Type 0) : Type 0 where
  pub request : Request F
  pub metadata : List (String × String)
  pub call_options : CallOptions

-- The answers, the random draws, the clock and the order of hedged answers are whatever the
-- environment makes them, given by the number of requests sent or of draws made before. The logs
-- have the newest entry first.
pub record World (F : Type 0) : Type 0 where
  pub replies : ℕ → (r : Request F) → Outcome ServiceError (ResponseOf r)
  pub draws : ℕ → ℕ
  pub clock : ℕ → ℤ
  pub orders : ℕ → Order
  pub sent : List (Sent F)
  pub slept : List ℤ
  pub drawn : ℕ

-- An asynchronous method that returns an `A`.
abbrev pub Async : Type 0 → Type 0 → Type 0
Async F A = World F → Outcome Thrown A × World F

module _ {F : Type 0} where
  abbrev pub order_now : World F → Order
  order_now w = w.orders (length w.sent)

  -- `setTimeout` and `Math.random`
  abbrev pub timers : Timers (World F)
  timers = record {
    sleep = λ ms w. record w { slept = ms ∷ w.slept };
    random = λ w. (w.draws w.drawn, record w { drawn = suc w.drawn });
  }
