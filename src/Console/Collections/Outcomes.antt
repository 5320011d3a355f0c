-- ===== src/Console/Collections/Outcomes.antt =====
-- How a refresh of auth/frontend/src/pages/CollectionsManagement.tsx ends, and a deletion whose dialog
-- was left.
use vectron.Prelude.{
  zero, ℕ, String, ◌≡◌, false, Option, none, some, List, [], ◌∷◌, arith, eq_iff, or_else,
}
use vectron.Console.Collections.{
  Collection, CollectionsPage, DeleteModal, Reply, succeeded, failed, fetch_collections,
  ask_deletion, call_ended, then_after,
}
use vectron.Console.Collections.Machine.{
  refreshes, asks_deletion, types_confirmation, cancels_deletion, confirms, Event, does, replies,
  filtered_collections, listed_at, act, handle, run,
}

-- The list that the service for administrators answers, or else the public one.
abbrev pub first_answer : Reply → Reply → Option (List Collection)
first_answer (succeeded cs) r = some (or_else cs [])
first_answer (failed message) (succeeded cs) = some (or_else cs [])
first_answer (failed message) (failed other) = none

abbrev pub shown : Option (List Collection) → CollectionsPage → CollectionsPage
shown none p = record p { error = some "Failed to fetch collections" }
shown (some cs) p = record p { collections = cs; error = none }

-- The dialog to delete a collection is opened, confirmed and left, and another one is opened.
abbrev pub left_behind : ℕ → ℕ → String → List Event
left_behind i j name =
    does (asks_deletion i)
    ∷ does (types_confirmation name)
    ∷ does confirms
    ∷ does cancels_deletion
    ∷ does (asks_deletion j)
    ∷ []

abbrev pub collection_asked : Option DeleteModal → Option Collection
collection_asked none = none
collection_asked (some m) = some m.collection

module _ (to_lower : String → String) where
  -- On a page that has loaded, with nothing in flight: after a refresh and the answers to it, the
  -- page has the list of the service for administrators, or else the public one, and no error; if
  -- both fail it has an error, and the list that it had; all else is unchanged.
  pub refresh_outcome :
      (p : CollectionsPage) (first second : Reply)
      → p.loading ≡ false
      → p.calls ≡ []
      → run to_lower (does refreshes ∷ replies zero first ∷ replies zero second ∷ []) p
        ≡ shown (first_answer first second) p
  unfolding run handle act fetch_collections call_ended then_after
  refresh_outcome p (succeeded cs) second loaded idle = ground (arith, loaded, idle)
  refresh_outcome p (failed message) (succeeded cs) loaded idle = ground (arith, loaded, idle)
  refresh_outcome p (failed message) (failed other) loaded idle = ground (arith, loaded, idle)

  -- On a page that has loaded, with nothing in flight and no dialog to delete: a deletion is
  -- confirmed and its dialog is left, and the dialog for another collection is opened. That
  -- dialog is about the other collection, and it is closed when the deletion has succeeded and
  -- the list has come.
  pub other_dialog_closed :
      (p : CollectionsPage) (c d : Collection) (i j : ℕ) (answer list : Option (List Collection))
      → p.loading ≡ false
      → p.calls ≡ []
      → p.delete_modal ≡ none
      → listed_at to_lower i p ≡ some c
      → listed_at to_lower j p ≡ some d
      → (collection_asked (run to_lower (left_behind i j c.name) p).delete_modal ≡ some d)
        × ((run to_lower
              (replies zero (succeeded answer) ∷ replies zero (succeeded list) ∷ [])
              (run to_lower (left_behind i j c.name) p)).delete_modal
            ≡ none)
  unfolding run handle act ask_deletion listed_at filtered_collections call_ended then_after
      fetch_collections
  other_dialog_closed p c d i j answer list loaded idle closed at_i at_j = (
    ground (arith, loaded, idle, closed, at_i, at_j),
    ground (arith, loaded, idle, closed, at_i, at_j, eq_iff c.name c.name),
  )
