-- ===== src/Console/Vectors/Shown.antt =====
-- What the page of auth/frontend/src/pages/VectorOperationsPage.tsx shows of a deleted point, and the
-- collection that it deletes from.
use vectron.Prelude.{
  ℕ, zero, String, ◌≡◌, ◌≢◌, refl, inl, inr, false, Option, none, some, List, [], ◌∷◌, ◌++◌, arith,
  eq_iff, get_elem?, remove_at, map, ℤ, Bool-cases, ap, sym, subst, ◌∙◌,
}
use vectron.Console.Vectors.{
  VectorPage, VectorData, SearchResult, RawCollection, Action, all_collections, deleting,
  mapped_collection, fetch_collections, fetch_collection_status, select, collections_loaded,
  mounted,
}
use vectron.Console.Vectors.Actions.{accepted, handle_delete_vector, answered, action_ended, shows}
use vectron.Console.Vectors.Machine.{
  Event, loaded, chooses, opens_delete, clicks_delete, load_ends, action_ends, load_ended, handle,
  run,
}
use vectron.Console.Vectors.Pending.{IsCurrent, IsPending, run-IsPending}

module _ {F : Type 0} where
  shown_after :
      (c id : String) (seen : Option (VectorData F)) (p : VectorPage F)
      (results : Option (List (SearchResult F))) (point : Option (String × Option (List F)))
      → seen ≡ p.found_vector
      → shows id (answered (deleting c id seen) (accepted results point) p).found_vector ≡ false
  unfolding answered
  shown_after c id seen p results point e = elim (Bool-cases (shows id seen)) [
    | inl shown ↦ rw shown refl
    | inr other ↦ rw other (ap (shows id) (sym e) ∙ other)
  ]

  seen_is_shown :
      (c id : String) (seen : Option (VectorData F)) (p : VectorPage F)
      → p.actions ≡ deleting c id seen ∷ []
      → IsPending p
      → seen ≡ p.found_vector
  seen_is_shown c id seen p e (inl (ready, nothing)) = absurd (ground (arith, e, nothing))
  seen_is_shown c id seen p e (inr (busy, (a, (one, current)))) =
      let same : deleting c id seen ≡ a = ground (arith, e, one) in
      subst (λ b. IsCurrent b p.found_vector) (sym same) current

  select-selected : (name : String) (p : VectorPage F) → (select name p).selected ≡ name
  unfolding select fetch_collections fetch_collection_status
  select-selected name p = ground (arith, eq_iff p.selected name)

module _ {F : Type 0} (parse_float : String → Option F) where
  ended_not_shown :
      (c id : String) (seen : Option (VectorData F)) (p : VectorPage F)
      (results : Option (List (SearchResult F))) (point : Option (String × Option (List F)))
      → p.actions ≡ deleting c id seen ∷ []
      → IsPending p
      → shows id (handle parse_float (action_ends zero (accepted results point)) p).found_vector
        ≡ false
  unfolding handle action_ended
  ended_not_shown c id seen p results point e h =
      let rest : VectorPage F = record p { actions = remove_at zero p.actions } in
      subst
        (λ (o : Option (Action F)).
          shows id
            (elim o as (λ _. VectorPage F) [
              | none ↦ p
              | some a ↦ action_ended a (accepted results point) rest
            ]).found_vector
          ≡ false)
        (sym (ap (λ l. get_elem? l zero) e))
        (shown_after c id seen rest results point (seen_is_shown c id seen p e h))

  -- After any events on the page, if the deletion of a point is the request in flight, then once
  -- the deletion is confirmed the vector in `foundVector`, if there is one, does not have that
  -- id.
  pub deleted_not_shown :
      (es : List (Event F)) (c id : String) (seen : Option (VectorData F))
      (results : Option (List (SearchResult F))) (point : Option (String × Option (List F)))
      → (run parse_float es mounted).actions ≡ deleting c id seen ∷ []
      → shows id
          (handle parse_float
            (action_ends zero (accepted results point))
            (run parse_float es mounted)).found_vector
        ≡ false
  unfolding mounted fetch_collections
  deleted_not_shown es c id seen results point e =
      ended_not_shown c id seen (run parse_float es mounted) results point e
        (run-IsPending parse_float es mounted (inl (refl, refl)))

  -- With a vector shown and no action running, choosing a collection and deleting the shown
  -- vector sends the deletion of its id from the collection that was chosen, wherever the vector
  -- came from.
  pub deletes_from_selected :
      (name : String) (v : VectorData F) (p : VectorPage F)
      → p.found_vector ≡ some v
      → p.is_action_loading ≡ false
      → name ≢ ""
      → v.id ≢ ""
      → (run parse_float (chooses name ∷ opens_delete ∷ clicks_delete ∷ []) p).actions
        ≡ p.actions ++ (deleting name v.id (some v) ∷ [])
  unfolding run handle select fetch_collections fetch_collection_status handle_delete_vector
  deletes_from_selected name v p found ready named filled =
      ground (arith, found, ready, eq_iff p.selected name, eq_iff name "", eq_iff v.id "")

  pub late_list_selects :
      (i : ℕ) (c : RawCollection) (cs : List RawCollection) (dimension : Option ℤ)
      (p : VectorPage F)
      → get_elem? p.loads i ≡ some (all_collections "")
      → (handle parse_float (load_ends i (loaded (c ∷ cs) dimension)) p).selected
        ≡ (mapped_collection c).name
  unfolding handle load_ended collections_loaded
  late_list_selects i c cs dimension p here =
      let shown : VectorPage F = record p {
        loads = remove_at i p.loads;
        collections = map mapped_collection (c ∷ cs);
        is_loading = false;
      } in
      ground (arith, here, select-selected (mapped_collection c).name shown)
