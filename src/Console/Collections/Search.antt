-- ===== src/Console/Collections/Search.antt =====
-- What the search field of auth/frontend/src/pages/CollectionsManagement.tsx leaves of the list.
use Prim.Native.String.{◌++◌ as str_append}
use Prim.Native.String.append
use text.Mathlib.Text.{starts_with}
use text.Mathlib.TextEquality.{starts_with_iff}
use text.Mathlib.TextLemmas.{tail-eq_of_cons-eq, nil-append, append-eq-nil_iff}
use vectron.Prelude.{
  String, ◌≡◌, refl, sym, ◌∙◌, ap, Bool, true, false, List, [], ◌∷◌, inl, inr, Bool-cases,
  if◌then◌else◌, arith,
}
use mathlib.Core.Bool.{false≢true}
use vectron.Console.Collections.{Collection, CollectionsPage}
use vectron.Console.Collections.Machine.{includes, matching, filtered_collections}

-- The query is somewhere in the text.
abbrev pub Contains : String → String → Type 0
Contains s query =
    (before : String) × (after : String) × (str_append before (str_append query after) ≡ s)

starts-Contains : (s query : String) → starts_with s query ≡ true → Contains s query
starts-Contains s query e =
    let (after, path) = (starts_with_iff s query).0 e in
    (String.[], after, nil-append (str_append query after) ∙ path)

includes-Contains : (s query : String) → includes s query ≡ true → Contains s query
unfolding includes
includes-Contains String.[] query e = starts-Contains String.[] query e
includes-Contains (String.◌∷◌ c s) query e =
    elim (Bool-cases (starts_with (String.◌∷◌ c s) query)) [
      | inl starts ↦ starts-Contains (String.◌∷◌ c s) query starts
      | inr other ↦
          let (before, after, path) = includes-Contains s query (ground (arith, e, other)) in
          (
            String.◌∷◌ c before,
            after,
            append.cons c before (str_append query after) ∙ ap (λ t. String.◌∷◌ c t) path,
          )
    ]

Contains-includes :
    (s query before after : String)
    → str_append before (str_append query after) ≡ s
    → includes s query ≡ true
unfolding includes
Contains-includes String.[] query before after e =
    (starts_with_iff String.[] query).1 (after, (append-eq-nil_iff.0 e).1)
Contains-includes (String.◌∷◌ c s) query String.[] after e = ground (
  arith,
  (starts_with_iff (String.◌∷◌ c s) query).1 (after, sym (nil-append (str_append query after)) ∙ e),
)
Contains-includes (String.◌∷◌ c s) query (String.◌∷◌ b before) after e = ground (
  arith,
  Contains-includes s query before after
      (tail-eq_of_cons-eq (sym (append.cons b before (str_append query after)) ∙ e)),
)

-- A list, and those of its elements for which `P` holds, in their order.
pub data IsSelection {A : Type 0} (P : A → Type 0) : List A → List A → Type 0 where
  none_left : IsSelection P [] []
  kept : {x : A} {xs ys : List A} → P x → IsSelection P xs ys → IsSelection P (x ∷ xs) (x ∷ ys)
  dropped : {x : A} {xs ys : List A} → ¬ P x → IsSelection P xs ys → IsSelection P (x ∷ xs) ys

module _ (to_lower : String → String) where
  abbrev pub Found : String → Collection → Type 0
  Found query c = Contains (to_lower c.name) (to_lower query)

  matching_one :
      (query : String) (c : Collection) (cs rest : List Collection) (b : Bool)
      → includes (to_lower c.name) (to_lower query) ≡ b
      → IsSelection (Found query) cs rest
      → IsSelection (Found query) (c ∷ cs) (if b then c ∷ rest else rest)
  matching_one query c cs rest true e h =
      kept (includes-Contains (to_lower c.name) (to_lower query) e) h
  matching_one query c cs rest false e h =
      dropped
        (λ (before, after, path).
          false≢true
            (sym e ∙ Contains-includes (to_lower c.name) (to_lower query) before after path))
        h

  matching-IsSelection :
      (query : String) (cs : List Collection)
      → IsSelection (Found query) cs (matching to_lower query cs)
  matching-IsSelection query [] = none_left
  matching-IsSelection query (c ∷ cs) =
      matching_one query c cs (matching to_lower query cs) _ refl (matching-IsSelection query cs)

  -- The list that the page shows has the collections, in their order, whose name in small letters
  -- has the query in small letters somewhere in it, and no others.
  pub filtered-IsSelection :
      (p : CollectionsPage)
      → IsSelection (Found p.search_query) p.collections (filtered_collections to_lower p)
  unfolding filtered_collections
  filtered-IsSelection p = matching-IsSelection p.search_query p.collections
