-- ===== src/Lib.antt =====
-- The TypeScript programs of Vectron: a verification library for clientlibs/js and auth/frontend.
--
-- The program. An application makes a `VectronClient` (clientlibs/js/src/client.ts) for a host, with
-- an API key and options, or a `VectronClientPool` of several. Each method checks its arguments,
-- creates a request message (clientlibs/js/proto/apigateway/apigateway.ts), and sends it through
-- `callWithRetry`, for reads perhaps through `hedged`. gRPC errors leave as the classes of
-- clientlibs/js/src/errors.ts. `upsertBatch` cuts a list of points into batches and sends them one
-- after the other or by several workers. The messages travel in the protobuf wire format. Apart from
-- it, the web console (auth/frontend) keeps the session of a user, who signs up and logs in, manages
-- API keys and collections, works on vectors and looks after the health of the system.
--
-- The files, and the code that each is about:
-- - Prelude and its children: shared names, Boolean tests, lists, integers, outcomes of promises.
-- - Client/Errors, Client/Errors/Table: errors.ts, and `_handleError` of client.ts.
-- - Client/Options: `ClientOptions`, `defaultOptions` and `normalizeOptions`.
-- - Client/Retry: `getRetryableCodes`, `shouldRetry`, `computeBackoffMs`, `callWithRetry`.
--   Retry/Attempts: the attempts of a call; Retry/Limits: how many there are, and what they throw;
--   Retry/Backoff: how long a retry waits.
-- - Client/Hedge: `hedged`. Its promise and shared variables are the record `Race`, and each end of
--   `run` is a step on it. Hedge/Settling: when and how the promise settles.
-- - Client/World: what surrounds a client, which is the answers of the service, the random draws,
--   the clock, the order in which hedged reads end, and the logs of requests sent and of sleeps.
-- - Client/Session: the constructor, `getMetadata`, `getCallOptions`, `validateVectorDim`, the call
--   of a service method, and `callRead`.
-- - Client/Calls: the methods `createCollection` to `delete`. Calls/Validation: the points that
--   `upsert` accepts. Client/Operations: these methods as one type, and in its children what holds
--   of all of them.
-- - Client/Batch: the batches of `upsertBatch`. Batch/Cut, Batch/Shards, Batch/Each: what batches and
--   shards contain; Batch/Workers: `upsertBatch` itself, with its workers; Batch/Sending, Batch/Fleet,
--   Batch/Schedules, Batch/Counts: what it returns.
-- - Client/Pool, Pool/RoundRobin: `VectronClientPool`.
-- - Gateway/Payload, Gateway/Messages: the messages, and their `create`.
-- - Gateway/Wire: the calls of @bufbuild/protobuf/wire, as the parameter `Wire`, and the loop that
--   every `decode` is. Wire/Reads, Wire/Sized, Wire/Fields: how that loop reads what was written.
-- - Gateway/Codec/Requests, Replies, Points: `encode` and `decode` of the messages of the client, and
--   RequestTrips, ReplyTrips, PointTrips: the round trips. Wire/Returns, Codec/Deliveries,
--   Codec/Plain, Codec/Answers: which messages are written without an exception. Codec/Collections,
--   Codec/Profiles, Codec/Feedback: the messages that the client does not use, each with its round
--   trips in Trips and what is written without an exception in Deliveries.
-- - Gateway/Service, Service/Calls: `VectronServiceService`, the methods of the gateway.
-- - Auth/Accounts, Auth/Profiles, Auth/Keys, Auth/Tokens: the messages of
--   clientlibs/js/proto/auth/auth.ts, each file with its round trips in Trips and what is written
--   without an exception in Deliveries. Auth/Service, Service/Calls: `AuthServiceService`, the methods of the
--   auth service.
-- - Console/Profile: the profile of a user, normalized as in auth/frontend/src/contexts/AuthContext.tsx.
--   Console/Session: `AuthProvider` there, `handleConfirm` of pages/PlanChangePage.tsx and
--   components/ProtectedRoute.tsx. Session/Stages: the session as its user sees it; Session/Storage:
--   the token that is stored; Session/Spinner: when the session is loading.
-- - Console/Text: `trim`, `split` and the text of a number, as JavaScript has them.
-- - Console/Password, Password/Strength: pages/SignupPage.tsx.
-- - Console/Vectors: pages/VectorOperationsPage.tsx, its state and its list of collections.
--   Vectors/Actions: its handlers; Vectors/Machine: its events; Vectors/Parsing: the vectors that are
--   typed; Vectors/Guards: what is checked before a vector is sent; Vectors/Pending: one action at a
--   time; Vectors/Shown: what is shown and deleted.
-- - Console/Keys, Keys/Machine: components/ApiKeyManager.tsx. Keys/Flows: creating and revoking a key;
--   Keys/Awaited: what a busy button waits for.
-- - Console/Health, Health/Alerts: pages/SystemHealthPage.tsx.
-- - Console/Collections, Collections/Machine: pages/CollectionsManagement.tsx with its dialogs, and
--   `getCollections` of services/managementApi.ts. Collections/Search: the search field;
--   Collections/Confirmed with Backed, Inputs, Replies: which deletions are sent; Collections/Outcomes:
--   how a refresh ends, and what a deletion does to the dialog.
-- - Console/Format, Format/Exact: `toNumber` and `formatUptime` of utils/format.ts.
-- - Examples: tests, and each theorem at a concrete input.
--
-- How the code is modelled. An asynchronous method is a function from a world to an outcome and a
-- world; an outcome is a value, an error, or `pending` where the promise never settles. Numbers that
-- count or measure time are integers; the backoff multiplier, the jitter and `Math.random` are
-- numbers of thousandths. Floating-point numbers of vectors and scores are an abstract type, since
-- no code here computes with them; the wire format may round them. Objects from strings to strings
-- are lists of entries in the order of insertion. The answers of the service are arbitrary, given by
-- the number of requests sent before. Workers take turns at the granularity of one batch, in the
-- order of an explicit schedule.
--
-- A component of the console is a record of its state variables with the requests in flight, each with
-- what its handler closed over. An event is what the user does, where the button is enabled, or the
-- end of one of these requests, in any order; the setters of one event take effect together, and then
-- the effects whose dependencies changed.
--
-- Parameters and what is asked of them: `Platform` has the numbers of the gRPC statuses, which
-- differ from each other, and the text of a number; `Wire` has the writer and the reader of protobuf,
-- and `IsSound` says that what is written is read back, that a tag takes a byte at least, that
-- numbers in their range are written, and no negative one as a uint32; `Zero` has the number 0 and the
-- test for it; `type_error` is what is thrown when an answer has no user; `parse_float` and `to_lower`
-- are JavaScript's `parseFloat` and `toLowerCase`.
--
-- Fuel. `callWithRetry` has one unit for each attempt that `retryMaxAttempts` allows, one at least,
-- which is enough since an attempt is retried only below that limit. Batches are cut with one unit
-- for each point. The loop of a `decode` has one unit more than there are bytes, and each turn reads
-- one.
--
-- Not modelled: the gRPC channel itself, of which only the closing is kept; the text of `help`;
-- `fromJSON` and `toJSON`; the messages of the placement driver, the worker and the reranker; the
-- other pages of the web console, and what its pages look like; the services in Go, and the clients
-- in Go and Python.
pub mod Prelude
pub mod Gateway
pub mod Auth
pub mod Client
pub mod Console
pub mod Examples
