-- ===== src/Console/Vectors/Guards.antt =====
-- The checks before a vector is sent: `handleUpsert` and `handleSearch` of
-- auth/frontend/src/pages/VectorOperationsPage.tsx.
use vectron.Prelude.{
  ℕ, suc, String, ltb_ℤ, eqb_ℤ, ◌&&◌, not, negsuc, ◌≡◌, ◌≢◌, refl, ◌⊎◌, inl, inr, Bool, true, false,
  Option, some, List, [], ◌∷◌, length, arith, if◌then◌else◌, eq_iff, ℤ, pos, ◌≤ℤ◌, is_empty_str,
  Bool-cases,
}
use vectron.Console.Text.{trim}
use vectron.Console.Vectors.{
  VectorPage, Action, upserting, searching, danger, parse_vector_string, validate_vector_dimension,
  expected_dimension, mismatch_message, toasted,
}
use vectron.Console.Vectors.Actions.{with_vector, handle_upsert, handle_search, start_action}

-- The dimension is not known, or is this number.
abbrev pub Allows : ℤ → ℕ → Type 0
Allows dimension n = (dimension ≤ℤ pos 0) ⊎ (pos n ≡ dimension)

-- The test of `validateVectorDimension`.
abbrev clashes : ℤ → ℕ → Bool
clashes dimension n = ltb_ℤ (pos 0) dimension && not (eqb_ℤ (pos n) dimension)

clashes_cases :
    (dimension : ℤ) (n : ℕ)
    → ((clashes dimension n ≡ false) × Allows dimension n)
      ⊎ ((clashes dimension n ≡ true) × (¬ Allows dimension n))
clashes_cases (pos k) n = ground arith
clashes_cases (negsuc k) n = ground arith

module _ {F : Type 0} where
  -- The vector is not empty, and the dimension of the selected collection allows it.
  abbrev pub Fits : List F → VectorPage F → Type 0
  Fits vector p = (vector ≢ []) × Allows (expected_dimension p) (length vector)

  -- Nothing changes but the message.
  abbrev pub IsRefused : VectorPage F → VectorPage F → Type 0
  IsRefused p after =
      (message : String) × (after
        ≡ record p { toast = some (record { msg = message; type_ = danger }) })

  -- The request is sent exactly if the condition holds.
  abbrev pub Decides : Type 0 → Action F → VectorPage F → VectorPage F → Type 0
  Decides P request p after = (P × (after ≡ start_action request p)) ⊎ ((¬ P) × IsRefused p after)

  with_vector_cases :
      (complaint : String) (request : List F → Action F) (vector : List F) (p : VectorPage F)
      → Decides (Fits vector p) (request vector) p (with_vector complaint request vector p)
  unfolding with_vector validate_vector_dimension
  with_vector_cases complaint request [] p = inr (λ fits. fits.0 refl, (complaint, refl))
  with_vector_cases complaint request (v ∷ vs) p =
      elim (clashes_cases (expected_dimension p) (suc (length vs))) [
        | inl (fine, allowed) ↦ inl ((λ e. ground (arith, e), allowed), rw fine refl)
        | inr (clash, refused) ↦ inr (
          λ fits. refused fits.1,
          (mismatch_message (expected_dimension p) (suc (length vs)), rw clash refl),
        )
      ]

  -- One more check, that a text is not empty.
  nonempty_cases :
      {P : Type 0} (request : Action F) (p after : VectorPage F) (text complaint : String)
      → Decides P request p after
      → Decides
          ((text ≢ "") × P)
          request
          p
          (if is_empty_str text then toasted danger complaint p else after)
  nonempty_cases {P} request p after text complaint h = elim (Bool-cases (is_empty_str text)) [
    | inl e ↦ inr (λ ok. ok.0 ((eq_iff text "").0 e), (complaint, rw e refl))
    | inr e ↦ rw e (elim h [
      | inl (fine, sent) ↦ inl ((λ same. ground (arith, e, (eq_iff text "").1 same), fine), sent)
      | inr (bad, refused) ↦ inr (λ ok. bad ok.1, refused)
    ])
  ]

  -- An upsert is sent, and nothing else changes but that the buttons are disabled, exactly if a
  -- collection is selected, the id is not blank, and the vector is not empty and has the
  -- dimension of the selected collection where that is known; the request has the collection, the
  -- id and the vector. Otherwise nothing changes but the message.
  pub handle_upsert_cases :
      (parse_float : String → Option F) (p : VectorPage F)
      → Decides
          ((p.selected ≢ "")
            × ((trim p.vector_id ≢ "") × Fits (parse_vector_string parse_float p.vector_values) p))
          (upserting p.selected p.vector_id (parse_vector_string parse_float p.vector_values))
          p
          (handle_upsert parse_float p)
  unfolding handle_upsert
  handle_upsert_cases parse_float p =
      let vector = parse_vector_string parse_float p.vector_values in
      let request = upserting p.selected p.vector_id vector in
      nonempty_cases request p _ p.selected "Please select a collection" (
        nonempty_cases request p _ (trim p.vector_id) "Please enter a vector ID" (
          with_vector_cases "Please enter valid vector values" (upserting p.selected p.vector_id)
            vector p))

  pub handle_search_cases :
      (parse_float : String → Option F) (p : VectorPage F)
      → Decides
          ((p.selected ≢ "") × Fits (parse_vector_string parse_float p.search_vector) p)
          (searching p.selected (parse_vector_string parse_float p.search_vector) p.top_k)
          p
          (handle_search parse_float p)
  unfolding handle_search
  handle_search_cases parse_float p =
      let vector = parse_vector_string parse_float p.search_vector in
      nonempty_cases (searching p.selected vector p.top_k) p _ p.selected
        "Please select a collection"
        (with_vector_cases "Please enter a valid query vector" (λ v. searching p.selected v p.top_k)
          vector p)
