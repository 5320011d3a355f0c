-- ===== src/Console/Vectors/Pending.antt =====
-- One action at a time on the page of auth/frontend/src/pages/VectorOperationsPage.tsx.
use vectron.Prelude.{
  ℕ, zero, suc, String, ◌≡◌, refl, sym, ◌∙◌, ap, subst, ◌⊎◌, inl, inr, Bool, true, false, Option,
  none, some, List, [], ◌∷◌, ◌++◌, get_elem?, remove_at, arith, if◌then◌else◌, is_empty_str, ◌||◌,
  ◌&&◌, not,
}
use vectron.Console.Text.{trim}
use vectron.Console.Vectors.{
  VectorPage, VectorData, RawCollection, Action, Load, all_collections, status_of, upserting,
  searching, getting, deleting, fetch_collections, fetch_collection_status, select,
  collections_loaded, collections_refused, status_loaded,
}
use vectron.Console.Vectors.Actions.{
  Answer, accepted, refused, handle_upsert, handle_search, handle_get_vector, handle_delete_vector,
  start_action, answered, action_ended, open_delete_dialog,
}
use vectron.Console.Vectors.Guards.{handle_upsert_cases, handle_search_cases}
use vectron.Console.Vectors.Machine.{
  Event, LoadAnswer, loaded, load_refused, refreshes, chooses, types_vector_id, types_values,
  types_query, types_top_k, types_manage_id, clicks_upsert, clicks_search, clicks_get, opens_delete,
  closes_delete, clicks_delete, closes_toast, load_ends, action_ends, load_ended, handle, run,
}

module _ {F : Type 0} where
  -- A deletion has closed over the vector that is still shown.
  abbrev pub IsCurrent : Action F → Option (VectorData F) → Type 0
  IsCurrent (upserting c id vector) found = Unit
  IsCurrent (searching c vector k) found = Unit
  IsCurrent (getting c id) found = Unit
  IsCurrent (deleting c id seen) found = seen ≡ found

  -- The buttons are enabled and no action is in flight, or they are disabled and one is.
  abbrev pub IsSingle : Bool → List (Action F) → Option (VectorData F) → Type 0
  IsSingle loading actions found =
      ((loading ≡ false) × (actions ≡ []))
      ⊎ ((loading ≡ true) × ((a : Action F) × ((actions ≡ a ∷ []) × IsCurrent a found)))

  abbrev pub IsPending : VectorPage F → Type 0
  IsPending p = IsSingle p.is_action_loading p.actions p.found_vector

  -- The three fields are those of another page.
  abbrev IsSame : VectorPage F → VectorPage F → Type 0
  IsSame p q =
      (p.is_action_loading ≡ q.is_action_loading)
      × (p.actions ≡ q.actions)
      × (p.found_vector ≡ q.found_vector)

  IsSame-IsPending : (p q : VectorPage F) → IsSame q p → IsPending p → IsPending q
  IsSame-IsPending p q (loading, actions, found) h = rw (loading, actions, found) h

  start_action-IsPending :
      (a : Action F) (p : VectorPage F)
      → p.is_action_loading ≡ false
      → IsCurrent a p.found_vector
      → IsPending p
      → IsPending (start_action a p)
  start_action-IsPending a p ready current (inl (e, none_sent)) =
      inr (refl, (a, (ap (λ l. l ++ (a ∷ [])) none_sent, current)))
  start_action-IsPending a p ready current (inr (busy, sent)) = absurd (ground (arith, ready, busy))

  answered-actions :
      (a : Action F) (r : Answer F) (p : VectorPage F) → (answered a r p).actions ≡ p.actions
  unfolding answered
  answered-actions (upserting c id vector) (accepted results point) p = refl
  answered-actions (upserting c id vector) (refused m) p = refl
  answered-actions (searching c vector k) (accepted results point) p = ground arith
  answered-actions (searching c vector k) (refused m) p = refl
  answered-actions (getting c id) (accepted results none) p = refl
  answered-actions (getting c id) (accepted results (some (x, v))) p = refl
  answered-actions (getting c id) (refused m) p = refl
  answered-actions (deleting c id seen) (accepted results point) p = ground arith
  answered-actions (deleting c id seen) (refused m) p = refl

  select-IsSame : (name : String) (p : VectorPage F) → IsSame (select name p) p
  unfolding select fetch_collections fetch_collection_status
  select-IsSame name p = (ground arith, ground arith, ground arith)

  collections_loaded-IsSame :
      (seen : String) (raw : List RawCollection) (p : VectorPage F)
      → IsSame (collections_loaded seen raw p) p
  unfolding collections_loaded select fetch_collections fetch_collection_status
  collections_loaded-IsSame seen [] p = (ground arith, ground arith, ground arith)
  collections_loaded-IsSame seen (c ∷ cs) p = (ground arith, ground arith, ground arith)

  load_ended-IsSame : (l : Load) (r : LoadAnswer) (p : VectorPage F) → IsSame (load_ended l r p) p
  unfolding load_ended collections_refused status_loaded
  load_ended-IsSame (all_collections seen) (loaded raw dimension) p =
      collections_loaded-IsSame seen raw p
  load_ended-IsSame (all_collections seen) (load_refused m) p = (refl, refl, refl)
  load_ended-IsSame (status_of name) (loaded raw none) p = (refl, refl, refl)
  load_ended-IsSame (status_of name) (loaded raw (some d)) p =
      (ground arith, ground arith, ground arith)
  load_ended-IsSame (status_of name) (load_refused m) p = (refl, refl, refl)

  handle_upsert-IsPending :
      (parse_float : String → Option F) (p : VectorPage F)
      → p.is_action_loading ≡ false
      → IsPending p
      → IsPending (handle_upsert parse_float p)
  handle_upsert-IsPending parse_float p ready h = elim (handle_upsert_cases parse_float p) [
    | inl (fine, sent) ↦ subst IsPending (sym sent) (start_action-IsPending _ p ready tt h)
    | inr (bad, (m, same)) ↦ subst IsPending (sym same) h
  ]

  handle_search-IsPending :
      (parse_float : String → Option F) (p : VectorPage F)
      → p.is_action_loading ≡ false
      → IsPending p
      → IsPending (handle_search parse_float p)
  handle_search-IsPending parse_float p ready h = elim (handle_search_cases parse_float p) [
    | inl (fine, sent) ↦ subst IsPending (sym sent) (start_action-IsPending _ p ready tt h)
    | inr (bad, (m, same)) ↦ subst IsPending (sym same) h
  ]

  -- A page under a test.
  if-IsPending :
      (b : Bool) (p q : VectorPage F)
      → (b ≡ true → IsPending p)
      → (b ≡ false → IsPending q)
      → IsPending (if b then p else q)
  if-IsPending true p q yes_case no_case = yes_case refl
  if-IsPending false p q yes_case no_case = no_case refl

  handle_get_vector-IsPending :
      (p : VectorPage F)
      → p.is_action_loading ≡ false
      → IsPending p
      → IsPending (handle_get_vector p)
  unfolding handle_get_vector
  handle_get_vector-IsPending p ready h =
      if-IsPending (is_empty_str p.selected) _ _ (λ e. h)
        (λ e.
          if-IsPending (is_empty_str (trim p.manage_vector_id)) _ _ (λ e'. h)
            (λ e'. start_action-IsPending _ p ready tt h))

  handle_delete_vector-IsPending :
      (p : VectorPage F)
      → p.is_action_loading ≡ false
      → IsPending p
      → IsPending (handle_delete_vector p)
  unfolding handle_delete_vector
  handle_delete_vector-IsPending p ready h =
      if-IsPending (is_empty_str p.selected || is_empty_str p.delete_vector_id) _ _ (λ e. h)
        (λ e. start_action-IsPending _ p ready refl h)

  action_ended-IsPending :
      (o : Option (Action F)) (i : ℕ) (r : Answer F) (p : VectorPage F)
      → get_elem? p.actions i ≡ o
      → IsPending p
      → IsPending (elim o [
        | none ↦ p
        | some a ↦ action_ended a r (record p { actions = remove_at i p.actions })
      ])
  unfolding action_ended
  action_ended-IsPending none i r p here h = h
  action_ended-IsPending (some a) i r p here (inl (ready, nothing)) =
      absurd (ground (arith, ap (λ l. get_elem? l i) nothing, here))
  action_ended-IsPending (some a) zero r p here (inr (busy, (b, (one, current)))) =
      inl (refl, answered-actions a r _ ∙ ap (remove_at zero) one)
  action_ended-IsPending (some a) (suc i) r p here (inr (busy, (b, (one, current)))) =
      absurd (ground (arith, ap (λ l. get_elem? l (suc i)) one, here))

  module _ (parse_float : String → Option F) where
    handle-IsPending :
        (e : Event F) (p : VectorPage F) → IsPending p → IsPending (handle parse_float e p)
    unfolding handle fetch_collections
    handle-IsPending refreshes p h = h
    handle-IsPending (chooses name) p h =
        IsSame-IsPending p (select name p) (select-IsSame name p) h
    handle-IsPending (types_vector_id s) p h = h
    handle-IsPending (types_values s) p h = h
    handle-IsPending (types_query s) p h = h
    handle-IsPending (types_top_k k) p h = h
    handle-IsPending (types_manage_id s) p h = h
    handle-IsPending clicks_upsert p h =
        if-IsPending (p.is_action_loading || is_empty_str p.selected) _ _ (λ e. h)
          (λ e. handle_upsert-IsPending parse_float p (ground (arith, e)) h)
    handle-IsPending clicks_search p h =
        if-IsPending (p.is_action_loading || is_empty_str p.selected) _ _ (λ e. h)
          (λ e. handle_search-IsPending parse_float p (ground (arith, e)) h)
    handle-IsPending clicks_get p h =
        if-IsPending (p.is_action_loading || is_empty_str p.selected) _ _ (λ e. h)
          (λ e. handle_get_vector-IsPending p (ground (arith, e)) h)
    handle-IsPending opens_delete p h =
        elim p.found_vector
          as (λ o. IsPending (elim o [ none ↦ p | some v ↦ open_delete_dialog v.id p ])) [
            | none ↦ h
            | some v ↦ h
          ]
    handle-IsPending closes_delete p h = h
    handle-IsPending clicks_delete p h =
        if-IsPending (p.is_delete_dialog_open && not p.is_action_loading) _ _
          (λ e. handle_delete_vector-IsPending p (ground (arith, e)) h) (λ e. h)
    handle-IsPending closes_toast p h = h
    handle-IsPending (load_ends i r) p h =
        elim (get_elem? p.loads i)
          as (λ o. IsPending (elim o [
            | none ↦ p
            | some l ↦ load_ended l r (record p { loads = remove_at i p.loads })
          ])) [
            | none ↦ h
            | some l ↦
                let q : VectorPage F = record p { loads = remove_at i p.loads } in
                IsSame-IsPending q (load_ended l r q) (load_ended-IsSame l r q) h
          ]
    handle-IsPending (action_ends i r) p h =
        action_ended-IsPending (get_elem? p.actions i) i r p refl h

    pub run-IsPending :
        (es : List (Event F)) (p : VectorPage F) → IsPending p → IsPending (run parse_float es p)
    unfolding run
    run-IsPending [] p h = h
    run-IsPending (e ∷ es) p h = run-IsPending es (handle parse_float e p) (handle-IsPending e p h)
