-- ===== src/Client/Operations/Safety.antt =====
-- What every operation of the client keeps to: how its requests look, how many it sends, and which
-- errors it throws.
use vectron.Prelude.{
  ℕ, suc, ◌+◌, ◌≤◌, ◌≡◌, refl, Bool, true, false, Bool-cases, inl, inr, List, arith, length, All,
  max_ℕ, Outcome, String, Option, none, some, [], ◌∷◌, ◌≢◌, eq_iff, is_empty_str, sym, ◌∙◌,
}
use Prim.Native.String.{◌++◌ as str_append}
use mathlib.Core.Bool.{true≢false}
use vectron.Client.Errors.{Platform, Thrown}
use vectron.Client.Hedge.{hedged}
use vectron.Client.Retry.{is_truthy, max_attempts, compute_backoff_ms, pause}
use vectron.Client.Retry.Limits.{
  IsTranslated, IsQuiet, call_with_retry-IsTranslated, call_with_retry_bounds,
  call_with_retry_write, call_with_retry_keeps,
}
use vectron.Client.World.{World, Sent, Request, ResponseOf, Async, timers, order_now}
use vectron.Client.Session.{Client, bearer, get_metadata, rpc, call_write, call_read}
use vectron.Client.Operations.Cases.{call, perform-Ends}
use vectron.Client.Operations.{Operation, is_write, perform}

module _ {F : Type 0} (c : Client) (P : List (Sent F) → Type 0) where
  -- A method keeps what holds of the log of sent requests.
  abbrev pub Keeps : {A : Type 0} → Async F A → Type 0
  Keeps m = (w : World F) → P w.sent → P (m w).1.sent

  pause-Keeps : (attempt : ℕ) (w : World F) → P w.sent → P (pause timers c.options attempt w).sent
  unfolding pause compute_backoff_ms
  pause-Keeps attempt w h = ground arith

  hedged-Keeps :
      {A : Type 0} (fn : Async F A) (delay : ℕ) → Keeps fn → Keeps (hedged order_now fn delay)
  unfolding hedged
  hedged-Keeps fn delay k w h = ground (arith, k w h, k (fn w).1)

  pub call_read-Keeps :
      {A : Type 0} (pf : Platform) (fn : Async F A) → Keeps fn → Keeps (call_read pf c fn)
  unfolding call_read
  call_read-Keeps pf fn k w h = elim (Bool-cases (is_truthy c.options.hedged_reads)) [
    | inl t ↦ rw t (
        call_with_retry_keeps timers pf c.options false _ (λ v. P v.sent) (hedged-Keeps fn _ k)
          pause-Keeps w h)
    | inr f ↦
        rw f (call_with_retry_keeps timers pf c.options false _ (λ v. P v.sent) k pause-Keeps w h)
  ]

  pub call_write-Keeps :
      {A : Type 0} (pf : Platform) (fn : Async F A) → Keeps fn → Keeps (call_write pf c fn)
  unfolding call_write
  call_write-Keeps pf fn k w h =
      call_with_retry_keeps timers pf c.options true fn (λ v. P v.sent) k pause-Keeps w h

-- The metadata that a request needs for an API key: none without a key, or with an empty one.
pub data Authorizes : Option String → List (String × String) → Type 0 where
  no_key : Authorizes none []
  empty_key : Authorizes (some "") []
  with_key :
      (key : String)
      → key ≢ ""
      → Authorizes (some key) (("authorization", str_append "Bearer " key) ∷ [])

bearer-Authorizes : (key : Option String) → Authorizes key (bearer key)
bearer-Authorizes none = no_key
bearer-Authorizes (some key) = elim (Bool-cases (is_empty_str key)) [
  | inl e ↦ rw ((eq_iff key "").0 e) empty_key
  | inr e ↦ rw e (with_key key (λ same. true≢false (sym ((eq_iff key "").1 same) ∙ e)))
]

get_metadata-Authorizes : (c : Client) → Authorizes c.api_key (get_metadata c)
unfolding get_metadata
get_metadata-Authorizes c = bearer-Authorizes c.api_key

module _ {F : Type 0} (pf : Platform) (c : Client) where
  -- Every request carries the metadata for the API key.
  abbrev pub IsAuthorized : List (Sent F) → Type 0
  IsAuthorized = All (λ s. Authorizes c.api_key s.metadata)

  rpc-Keeps :
      {A : Type 0} (r : Request F) (resolve : ResponseOf r → Outcome Thrown A)
      → Keeps c IsAuthorized (rpc c (get_metadata c) r resolve)
  unfolding rpc
  rpc-Keeps r resolve w h = (get_metadata-Authorizes c, h)

  call-Keeps :
      {A : Type 0} (write : Bool) (r : Request F) (resolve : ResponseOf r → Outcome Thrown A)
      → Keeps c IsAuthorized (call pf c write (rpc c (get_metadata c) r resolve))
  call-Keeps true r resolve =
      call_write-Keeps c IsAuthorized pf (rpc c (get_metadata c) r resolve) (rpc-Keeps r resolve)
  call-Keeps false r resolve =
      call_read-Keeps c IsAuthorized pf (rpc c (get_metadata c) r resolve) (rpc-Keeps r resolve)

  -- If every request in the log carries the authorization header with `Bearer ` and the API key
  -- of the client and nothing else, or nothing at all if the client has no key or an empty one,
  -- then so it is after any operation, with the retries and hedges that it sends.
  pub perform-IsAuthorized :
      (op : Operation F) (w : World F)
      → IsAuthorized w.sent
      → IsAuthorized (perform pf c op w).1.sent
  perform-IsAuthorized op w h = elim (perform-Ends pf c op w) [
    | inl (same, _) ↦ rw same h
    | inr (r, resolve, e) ↦ rw e (call-Keeps (is_write op) r resolve w h)
  ]

  call-IsTranslated :
      {A : Type 0} (write : Bool) (fn : Async F A) (w : World F)
      → IsTranslated (call pf c write fn w).0
  unfolding call_write call_read
  call-IsTranslated true fn w = call_with_retry-IsTranslated timers pf c.options true fn w
  call-IsTranslated false fn w = elim (Bool-cases (is_truthy c.options.hedged_reads)) [
    | inl t ↦ rw t (call_with_retry-IsTranslated timers pf c.options false _ w)
    | inr f ↦ rw f (call_with_retry-IsTranslated timers pf c.options false fn w)
  ]

  -- No operation rejects with a raw gRPC error.
  pub perform-IsTranslated : (op : Operation F) (w : World F) → IsTranslated (perform pf c op w).0
  perform-IsTranslated op w = elim (perform-Ends pf c op w) [
    | inl (_, local) ↦ local
    | inr (r, resolve, e) ↦
        rw e (call-IsTranslated (is_write op) (rpc c (get_metadata c) r resolve) w)
  ]

  rpc_sends :
      {A : Type 0} (r : Request F) (resolve : ResponseOf r → Outcome Thrown A) (w : World F)
      → length (rpc c (get_metadata c) r resolve w).1.sent ≡ suc (length w.sent)
  unfolding rpc
  rpc_sends r resolve w = refl

  -- Unless `retryOnWrites` is set, an operation that writes sends one request at most.
  pub perform_write_once :
      (op : Operation F) (w : World F)
      → is_write op ≡ true
      → is_truthy c.options.retry_on_writes ≡ false
      → length (perform pf c op w).1.sent ≤ length w.sent + 1
  unfolding call_write
  perform_write_once op w write off = elim (perform-Ends pf c op w) [
    | inl (same, _) ↦ rw same (omega arith)
    | inr (r, resolve, e) ↦
        rw
          (
            e,
            write,
            call_with_retry_write timers pf c.options (rpc c (get_metadata c) r resolve) w off,
          )
          (omega (arith, rpc_sends r resolve w))
  ]

  sent-IsQuiet : IsQuiet timers (λ (w : World F). length w.sent)
  sent-IsQuiet = record { sleeping = λ ms w. refl; drawing = λ w. refl }

  retried_sends :
      {A : Type 0} (write : Bool) (r : Request F) (resolve : ResponseOf r → Outcome Thrown A)
      (w : World F)
      → is_truthy c.options.hedged_reads ≡ false
      → length (call pf c write (rpc c (get_metadata c) r resolve) w).1.sent
        ≤ length w.sent + max_ℕ (max_attempts c.options) 1
  unfolding call_write call_read
  retried_sends true r resolve w off =
      (call_with_retry_bounds timers pf c.options true (rpc c (get_metadata c) r resolve)
        (λ (v : World F). length v.sent) w sent-IsQuiet (rpc_sends r resolve)).1
  retried_sends false r resolve w off =
      rw off
        (call_with_retry_bounds timers pf c.options false (rpc c (get_metadata c) r resolve)
          (λ (v : World F). length v.sent) w sent-IsQuiet (rpc_sends r resolve)).1

  -- Unless hedged reads are set, an operation sends no more requests than `retryMaxAttempts`, or
  -- than one if that is larger.
  pub perform_sends :
      (op : Operation F) (w : World F)
      → is_truthy c.options.hedged_reads ≡ false
      → length (perform pf c op w).1.sent ≤ length w.sent + max_ℕ (max_attempts c.options) 1
  perform_sends op w off = elim (perform-Ends pf c op w) [
    | inl (same, _) ↦ rw same (omega arith)
    | inr (r, resolve, e) ↦ rw e (retried_sends (is_write op) r resolve w off)
  ]
