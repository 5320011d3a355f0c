-- ===== src/Console/Vectors/Machine.antt =====
-- The page of auth/frontend/src/pages/VectorOperationsPage.tsx as a machine: an event is something
-- that its user does, with the buttons disabled or absent as the page renders them, or the end of a
-- request.
use vectron.Prelude.{
  ℕ, String, false, Option, none, some, List, [], ◌∷◌, get_elem?, remove_at, ℤ, not, ◌&&◌, ◌||◌,
  is_empty_str, if◌then◌else◌,
}
use vectron.Console.Vectors.{
  VectorPage, RawCollection, Load, all_collections, status_of, fetch_collections, select,
  collections_loaded, collections_refused, status_loaded,
}
use vectron.Console.Vectors.Actions.{
  Answer, handle_upsert, handle_search, handle_get_vector, handle_delete_vector, open_delete_dialog,
  action_ended,
}

-- The end of a request that loads: `data.collections || []`, and `data.dimension` if it is a
-- number.
pub data LoadAnswer : Type 0 where
  loaded : List RawCollection → Option ℤ → LoadAnswer
  load_refused : String → LoadAnswer

pub data Event (F : Type 0) : Type 0 where
  refreshes : Event F
  chooses : String → Event F
  types_vector_id : String → Event F
  types_values : String → Event F
  types_query : String → Event F
  types_top_k : ℤ → Event F
  types_manage_id : String → Event F
  clicks_upsert : Event F
  clicks_search : Event F
  clicks_get : Event F
  opens_delete : Event F
  closes_delete : Event F
  clicks_delete : Event F
  closes_toast : Event F
  load_ends : ℕ → LoadAnswer → Event F
  action_ends : ℕ → Answer F → Event F

module _ {F : Type 0} where
  unfoldable pub load_ended : Load → LoadAnswer → VectorPage F → VectorPage F
  unfolding collections_loaded collections_refused status_loaded
  load_ended (all_collections seen) (loaded raw dimension) p = collections_loaded seen raw p
  load_ended (all_collections seen) (load_refused message) p = collections_refused message p
  load_ended (status_of name) (loaded raw dimension) p = status_loaded name dimension p
  load_ended (status_of name) (load_refused message) p = p

  -- `disabled={isActionLoading || !selectedCollection}`
  abbrev pub if_enabled : (VectorPage F → VectorPage F) → VectorPage F → VectorPage F
  if_enabled handler p = if p.is_action_loading || is_empty_str p.selected then p else handler p

  module _ (parse_float : String → Option F) where
    unfoldable pub handle : Event F → VectorPage F → VectorPage F
    unfolding fetch_collections select handle_upsert handle_search handle_get_vector
        handle_delete_vector load_ended action_ended
    handle refreshes p = fetch_collections p
    handle (chooses name) p = select name p
    handle (types_vector_id s) p = record p { vector_id = s }
    handle (types_values s) p = record p { vector_values = s }
    handle (types_query s) p = record p { search_vector = s }
    handle (types_top_k k) p = record p { top_k = k }
    handle (types_manage_id s) p = record p { manage_vector_id = s }
    handle clicks_upsert p = if_enabled (handle_upsert parse_float) p
    handle clicks_search p = if_enabled (handle_search parse_float) p
    handle clicks_get p = if_enabled handle_get_vector p
    handle opens_delete p = elim p.found_vector [ none ↦ p | some v ↦ open_delete_dialog v.id p ]
    handle closes_delete p = record p { is_delete_dialog_open = false }
    handle clicks_delete p =
        if p.is_delete_dialog_open && not p.is_action_loading then handle_delete_vector p else p
    handle closes_toast p = record p { toast = none }
    handle (load_ends i r) p = elim (get_elem? p.loads i) [
      | none ↦ p
      | some l ↦ load_ended l r (record p { loads = remove_at i p.loads })
    ]
    handle (action_ends i r) p = elim (get_elem? p.actions i) [
      | none ↦ p
      | some a ↦ action_ended a r (record p { actions = remove_at i p.actions })
    ]

    unfoldable pub run : List (Event F) → VectorPage F → VectorPage F
    unfolding handle
    run [] p = p
    run (e ∷ es) p = run es (handle e p)
