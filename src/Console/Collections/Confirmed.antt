-- ===== src/Console/Collections/Confirmed.antt =====
-- Which deletions auth/frontend/src/pages/CollectionsManagement.tsx asks for.
pub mod Backed
pub mod Inputs
pub mod Replies
use vectron.Prelude.{
  ℕ, zero, suc, String, ◌≡◌, ◌≢◌, refl, Bool, true, false, Option, none, some, List, [], ◌∷◌, ◌++◌,
  arith, any, any_after, any_none-remove_at, get_elem?, remove_at, if◌then◌else◌, is_empty_str,
  str_eq, not, ◌||◌, ◌&&◌, eq_iff, ◌==◌, is_empty_str-false, or_else,
}
use vectron.Console.Text.{trim}
use vectron.Console.Collections.{
  Collection, CollectionCall, list_admin, list_public, create_call, delete_call, CollectionsPage,
  CreateModal, DeleteModal, Purpose, refresh, after_deletion, Reply, succeeded, failed, mounted,
  call, fetch_collections, open_create, submit, ask_deletion, confirm, then_after, delete_settled,
  call_ended,
}
use vectron.Console.Collections.Machine.{
  includes, matching, filtered_collections, Input, refreshes, toggles, searches, opens_create,
  closes_create, types_name, types_dimension, picks_distance, submits, views, closes_details,
  asks_deletion, types_confirmation, cancels_deletion, confirms, Event, does, ticks, replies,
  listed_at, act, handle, run,
}
use vectron.Console.Collections.Confirmed.Backed.{
  deletes, types, text_is, named, lists, is_about, implies, IsBacked, called, fetch-IsBacked,
  if-IsBacked,
}
use vectron.Console.Collections.Confirmed.Inputs.{act-IsBacked}
use vectron.Console.Collections.Confirmed.Replies.{replied}

module _ (to_lower : String → String) (name : String) (nonempty : name ≢ "")
    (typed listed : Bool) where
  handle-IsBacked :
      (e : Event) (p : CollectionsPage)
      → implies (types name e) typed ≡ true
      → implies (lists name e) listed ≡ true
      → IsBacked name typed listed p
      → IsBacked name typed listed (handle to_lower e p)
  unfolding handle
  handle-IsBacked (does i) p text list h =
      if-IsBacked name typed listed p.loading p (act to_lower i p) h
        (act-IsBacked to_lower name nonempty typed listed i p text h)
  handle-IsBacked ticks p text list h =
      if-IsBacked name typed listed p.auto_refresh _ p
        (fetch-IsBacked name typed listed refresh p h) h
  handle-IsBacked (replies i (succeeded none)) p text list h =
      replied name typed listed (get_elem? p.calls i) i _ p refl h
  handle-IsBacked (replies i (succeeded (some cs))) p text list h =
      replied name typed listed (get_elem? p.calls i) i _ p list h
  handle-IsBacked (replies i (failed message)) p text list h =
      replied name typed listed (get_elem? p.calls i) i _ p refl h

  run-IsBacked :
      (es : List Event) (p : CollectionsPage)
      → implies (any (types name) es) typed ≡ true
      → implies (any (lists name) es) listed ≡ true
      → IsBacked name typed listed p
      → IsBacked name typed listed (run to_lower es p)
  unfolding run
  run-IsBacked [] p text list h = h
  run-IsBacked (e ∷ es) p text list h =
      run-IsBacked es (handle to_lower e p) (ground (arith, text)) (ground (arith, list))
        (handle-IsBacked e p (ground (arith, text)) (ground (arith, list)) h)

-- For any events from the first render on: while the deletion of a collection is in flight whose
-- name is not empty, that name was typed into the dialog, and an answer has listed a collection
-- of that name.
pub deletion_confirmed :
    (to_lower : String → String) (es : List Event) (name : String)
    → name ≢ ""
    → any (deletes name) (run to_lower es mounted).calls ≡ true
    → (any (types name) es ≡ true) × (any (lists name) es ≡ true)
unfolding mounted fetch_collections
deletion_confirmed to_lower es name nonempty sent =
    let backed =
      run-IsBacked to_lower name nonempty (any (types name) es) (any (lists name) es) es mounted
        (ground arith) (ground arith)
        (record { in_flight = refl; in_text = refl; in_dialog = refl; in_list = refl }) in
    (ground (arith, sent, backed.in_flight), ground (arith, sent, backed.in_flight))
