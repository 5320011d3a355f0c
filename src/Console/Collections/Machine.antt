-- ===== src/Console/Collections/Machine.antt =====
-- The page of auth/frontend/src/pages/CollectionsManagement.tsx as a machine: an event is something
-- that its user does, the interval, or the end of a request.
use text.Mathlib.Text.{starts_with}
use vectron.Prelude.{
  ℕ, ℤ, String, Bool, true, Option, none, some, List, [], ◌∷◌, get_elem?, remove_at, not,
  if◌then◌else◌,
}
use vectron.Console.Collections.{
  Collection, CollectionsPage, CreateModal, Reply, refresh, fetch_collections, open_create, submit,
  ask_deletion, confirm, call_ended,
}

-- `text.includes(query)`
unfoldable pub includes : String → String → Bool
includes String.[] query = starts_with "" query
includes (String.◌∷◌ c s) query =
    let rest = includes s query in if starts_with (String.◌∷◌ c s) query then true else rest

-- What the user does: a collection is chosen by its place in the list.
pub data Input : Type 0 where
  refreshes : Input
  toggles : Input
  searches : String → Input
  opens_create : Input
  closes_create : Input
  types_name : String → Input
  types_dimension : ℤ → Input
  picks_distance : String → Input
  submits : Input
  views : ℕ → Input
  closes_details : Input
  asks_deletion : ℕ → Input
  types_confirmation : String → Input
  cancels_deletion : Input
  confirms : Input

pub data Event : Type 0 where
  does : Input → Event
  ticks : Event
  replies : ℕ → Reply → Event

-- A change in the dialog for a new collection, if it is open.
abbrev pub in_create : (CreateModal → CreateModal) → CollectionsPage → CollectionsPage
in_create change p = elim p.create_modal [
  | none ↦ p
  | some m ↦ record p { create_modal = some (change m) }
]

module _ (to_lower : String → String) where
  abbrev pub matching : String → List Collection → List Collection
  matching query [] = []
  matching query (c ∷ cs) =
      let rest = matching query cs in
      if includes (to_lower c.name) (to_lower query) then c ∷ rest else rest

  -- `filteredCollections`
  unfoldable pub filtered_collections : CollectionsPage → List Collection
  filtered_collections p = matching p.search_query p.collections

  -- The collection at a place in the list, which is not there when an error is shown.
  unfoldable pub listed_at : ℕ → CollectionsPage → Option Collection
  unfolding filtered_collections
  listed_at i p = elim p.error [ none ↦ get_elem? (filtered_collections p) i | some message ↦ none ]

  unfoldable pub act : Input → CollectionsPage → CollectionsPage
  unfolding fetch_collections open_create ask_deletion listed_at
  act refreshes p = fetch_collections refresh p
  act toggles p = record p { auto_refresh = not p.auto_refresh }
  act (searches query) p = record p { search_query = query }
  act opens_create p = open_create p
  act closes_create p = record p { create_modal = none }
  act (types_name s) p = in_create (λ m. record m { name = s }) p
  act (types_dimension n) p = in_create (λ m. record m { dimension = n }) p
  act (picks_distance s) p = in_create (λ m. record m { distance = s }) p
  act submits p = elim p.create_modal [ none ↦ p | some m ↦ submit m p ]
  act (views i) p = elim (listed_at i p) [
    | none ↦ p
    | some c ↦ record p { selected_collection = some c }
  ]
  act closes_details p = record p { selected_collection = none }
  act (asks_deletion i) p = elim (listed_at i p) [ none ↦ p | some c ↦ ask_deletion c p ]
  act (types_confirmation s) p = elim p.delete_modal [
    | none ↦ p
    | some m ↦ record p { delete_modal = some (record m { confirm_text = s }) }
  ]
  act cancels_deletion p = record p { delete_modal = none; delete_error = none }
  act confirms p = elim p.delete_modal [ none ↦ p | some m ↦ confirm m p ]

  -- Nothing but the spinner is rendered while the page loads.
  unfoldable pub handle : Event → CollectionsPage → CollectionsPage
  unfolding act fetch_collections call_ended
  handle (does i) p = if p.loading then p else act i p
  handle ticks p = if p.auto_refresh then fetch_collections refresh p else p
  handle (replies i r) p = elim (get_elem? p.calls i) [
    | none ↦ p
    | some c ↦ call_ended c r (record p { calls = remove_at i p.calls })
  ]

  unfoldable pub run : List Event → CollectionsPage → CollectionsPage
  unfolding handle
  run [] p = p
  run (e ∷ es) p = run es (handle e p)
