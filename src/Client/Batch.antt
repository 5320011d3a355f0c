-- ===== src/Client/Batch.antt =====
-- `upsertBatch` of clientlibs/js/src/client.ts: how the points are cut into batches, and how the
-- batches are sent, one after the other or by several workers.
pub mod Cut
pub mod Shards
pub mod Each
pub mod Workers
pub mod Sending
pub mod Fleet
pub mod Schedules
pub mod Counts
use Prim.Native.Char.{code}
use vectron.Prelude.{
  ℕ, zero, suc, ◌+◌, ◌*◌, ◌%◌, String, Bool, true, false, Option, none, some, List, [], ◌∷◌, ◌++◌,
  length, take, drop, is_empty, ltb, leb, ltb_ℤ, leb_ℤ, ◌==◌, ◌||◌, ◌&&◌, ℤ, pos, ◌+ℤ◌,
  if◌then◌else◌, Outcome, ok, err, pending, or_else, pos_part,
}
use vectron.Gateway.Payload.{Payload}
use vectron.Client.Errors.{Platform, Thrown}
use vectron.Client.World.{World, Async}
use vectron.Client.Session.{Client}
use vectron.Client.Calls.{Point, upsert}

-- `s.length` of a JavaScript string: its UTF-16 code units.
unfoldable pub utf16_length : String → ℕ
utf16_length String.[] = 0
utf16_length (String.◌∷◌ ch s) = (if ltb (code ch) 65536 then 1 else 2) + utf16_length s

unfoldable pub payload_bytes : Payload → ℕ
payload_bytes [] = 0
payload_bytes ((k, v) ∷ rest) = utf16_length k + utf16_length v + payload_bytes rest

module _ {F : Type 0} where
  unfoldable pub estimate_point_bytes : Point F → ℕ
  estimate_point_bytes p =
      let size : ℕ = utf16_length p.id + length p.vector * 4 in
      elim p.payload [ none ↦ size | some payload ↦ size + payload_bytes payload ] + 16

-- The two loops that cut, for items of any type with an estimate of their bytes.
module _ {A : Type 0} where
  -- The inner loop, from the number of items in the batch so far and their bytes: the items that it
  -- adds, and the points that are left. An item is taken if the batch is empty or the bytes still
  -- fit.
  unfoldable pub fill : (A → ℕ) → ℕ → ℕ → List A → ℕ → ℕ → List A × List A
  fill bytes_of size max_bytes [] count bytes = ([], [])
  fill bytes_of size max_bytes (p ∷ ps) count bytes =
      let more = fill bytes_of size max_bytes ps (suc count) (bytes + bytes_of p) in
      if ltb count size && (count == 0 || leb (bytes + bytes_of p) max_bytes)
      then (p ∷ more.0, more.1)
      else ([], p ∷ ps)

  -- `while (idx < points.length)`, by bytes.
  unfoldable pub cut_by_bytes : ℕ → (A → ℕ) → ℕ → ℕ → List A → List (List A)
  cut_by_bytes zero bytes_of size max_bytes points = []
  cut_by_bytes (suc fuel) bytes_of size max_bytes points =
      let (batch, rest) = fill bytes_of size max_bytes points 0 0 in
      let others = cut_by_bytes fuel bytes_of size max_bytes rest in
      if is_empty points then [] else batch ∷ others

  -- `for (let i = 0; i < points.length; i += batchSize)`: slices.
  unfoldable pub cut_by_count : ℕ → ℕ → List A → List (List A)
  cut_by_count zero size points = []
  cut_by_count (suc fuel) size points =
      let others = cut_by_count fuel size (drop size points) in
      if is_empty points then [] else take size points ∷ others

  -- The points with their positions whose position is `i` modulo `n`.
  unfoldable pub shard_from : ℕ → ℕ → ℕ → List A → List A
  shard_from n i idx [] = []
  shard_from n i idx (b ∷ bs) =
      let rest = shard_from n i (suc idx) bs in if idx % n == i then b ∷ rest else rest

  -- `batches.filter((_, idx) => idx % concurrency === i)`
  unfoldable pub shard : ℕ → ℕ → List A → List A
  shard n i bs = shard_from n i 0 bs

-- `if (n <= 0) n = fallback`, with the default for a missing argument.
abbrev pub positive_or : Option ℤ → ℕ → ℕ
positive_or none fallback = fallback
positive_or (some z) fallback = if leb_ℤ z (pos 0) then fallback else pos_part z

module _ {F : Type 0} where
  unfoldable pub batches_of : Client → ℕ → List (Point F) → List (List (Point F))
  batches_of c size points =
      let max_batch_bytes : ℤ = or_else c.options.max_batch_bytes (pos 0) in
      if ltb_ℤ (pos 0) max_batch_bytes
      then cut_by_bytes (length points) estimate_point_bytes size (pos_part max_batch_bytes) points
      else cut_by_count (length points) size points

  module _ (pf : Platform) (c : Client) (collection : String) where
    -- `for (const batch of shard) subtotal += await this.upsert(collection, batch)`
    unfoldable pub upsert_all : ℤ → List (List (Point F)) → Async F ℤ
    upsert_all total [] w = (ok total, w)
    upsert_all total (b ∷ bs) w =
        let (r, w₁) = upsert pf c collection b w in
        elim r [
          | ok n ↦ upsert_all (total +ℤ n) bs w₁
          | err e ↦ (err e, w₁)
          | pending ↦ (pending, w₁)
        ]
