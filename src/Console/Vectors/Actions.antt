-- ===== src/Console/Vectors/Actions.antt =====
-- The handlers of auth/frontend/src/pages/VectorOperationsPage.tsx that act on points: each up to
-- its request, and what follows when the request ends.
use vectron.Prelude.{
  String, Bool, true, false, Option, none, some, List, [], ◌∷◌, ◌++◌, is_empty, ◌||◌, str_eq,
  is_empty_str, if◌then◌else◌, or_else,
}
use vectron.Console.Text.{trim}
use vectron.Console.Vectors.{
  Action, VectorPage, VectorData, SearchResult, upserting, searching, getting, deleting, success,
  danger, info, toasted, message_or, parse_vector_string, validate_vector_dimension,
}

-- The end of a request: what is missing in an answer is `none`. The point is
-- `response.data?.point ?? response.data`, its vector may be missing.
pub data Answer (F : Type 0) : Type 0 where
  accepted : Option (List (SearchResult F)) → Option (String × Option (List F)) → Answer F
  refused : String → Answer F

module _ {F : Type 0} where
  -- `setIsActionLoading(true)` and the request.
  abbrev pub start_action : Action F → VectorPage F → VectorPage F
  start_action a p = record p { is_action_loading = true; actions = p.actions ++ (a ∷ []) }

  -- The checks that the upsert and the search share, on the vector that was typed.
  unfoldable pub with_vector : String → (List F → Action F) → List F → VectorPage F → VectorPage F
  unfolding validate_vector_dimension
  with_vector complaint request vector p =
      if is_empty vector
      then toasted danger complaint p
      else let (valid, checked) = validate_vector_dimension vector p in
        if valid then start_action (request vector) checked else checked

  unfoldable pub handle_upsert : (String → Option F) → VectorPage F → VectorPage F
  unfolding trim parse_vector_string with_vector
  handle_upsert parse_float p =
      if is_empty_str p.selected
      then toasted danger "Please select a collection" p
      else if is_empty_str (trim p.vector_id)
      then toasted danger "Please enter a vector ID" p
      else with_vector "Please enter valid vector values" (upserting p.selected p.vector_id)
          (parse_vector_string parse_float p.vector_values) p

  unfoldable pub handle_search : (String → Option F) → VectorPage F → VectorPage F
  unfolding parse_vector_string with_vector
  handle_search parse_float p =
      if is_empty_str p.selected
      then toasted danger "Please select a collection" p
      else with_vector "Please enter a valid query vector"
          (λ vector. searching p.selected vector p.top_k)
          (parse_vector_string parse_float p.search_vector) p

  unfoldable pub handle_get_vector : VectorPage F → VectorPage F
  unfolding trim
  handle_get_vector p =
      if is_empty_str p.selected
      then toasted danger "Please select a collection" p
      else if is_empty_str (trim p.manage_vector_id)
      then toasted danger "Please enter a vector ID" p
      else start_action (getting p.selected p.manage_vector_id) p

  unfoldable pub handle_delete_vector : VectorPage F → VectorPage F
  handle_delete_vector p =
      if is_empty_str p.selected || is_empty_str p.delete_vector_id
      then p
      else start_action (deleting p.selected p.delete_vector_id p.found_vector) p

  abbrev pub open_delete_dialog : String → VectorPage F → VectorPage F
  open_delete_dialog id p = record p { delete_vector_id = id; is_delete_dialog_open = true }

  -- `foundVector && foundVector.id === deleteVectorId`
  abbrev pub shows : String → Option (VectorData F) → Bool
  shows id none = false
  shows id (some v) = str_eq v.id id

  abbrev pub results_shown : List (SearchResult F) → VectorPage F → VectorPage F
  results_shown results p =
      let shown : VectorPage F = record p { search_results = results } in
      if is_empty results then toasted info "No results found" shown else shown

  abbrev pub point_shown : Option (String × Option (List F)) → VectorPage F → VectorPage F
  point_shown none p = record (toasted danger "Vector not found" p) { found_vector = none }
  point_shown (some (id, vector)) p =
      toasted success "Vector found"
        (record p { found_vector = some (record { id = id; vector = or_else vector [] }) })

  -- The request has ended, up to the `finally` block.
  unfoldable pub answered : Action F → Answer F → VectorPage F → VectorPage F
  answered (upserting c id vector) (accepted results point) p =
      record (toasted success "Vector upserted successfully" p) {
        vector_id = "";
        vector_values = "";
      }
  answered (upserting c id vector) (refused message) p =
      toasted danger (message_or message "Failed to upsert vector") p
  answered (searching c vector k) (accepted results point) p = results_shown (or_else results []) p
  answered (searching c vector k) (refused message) p =
      toasted danger (message_or message "Failed to search vectors") p
  answered (getting c id) (accepted results point) p = point_shown point p
  answered (getting c id) (refused message) p =
      record (toasted danger (message_or message "Vector not found") p) { found_vector = none }
  answered (deleting c id seen) (accepted results point) p =
      let done : VectorPage F = record (toasted success "Vector deleted successfully" p) {
        delete_vector_id = "";
        is_delete_dialog_open = false;
      } in
      if shows id seen then record done { found_vector = none } else done
  answered (deleting c id seen) (refused message) p =
      toasted danger (message_or message "Failed to delete vector") p

  unfoldable pub action_ended : Action F → Answer F → VectorPage F → VectorPage F
  unfolding answered
  action_ended a r p = record (answered a r p) { is_action_loading = false }
