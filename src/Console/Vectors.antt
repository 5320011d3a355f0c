-- ===== src/Console/Vectors.antt =====
-- The page for vector operations of the web console,
-- auth/frontend/src/pages/VectorOperationsPage.tsx: its state, the list of the collections and the
-- vector that its user types. `parse_float` is JavaScript's `parseFloat`, with nothing for NaN; the
-- tab that is shown and the open menu have no part in the operations and are left out.
pub mod Actions
pub mod Parsing
pub mod Guards
pub mod Machine
pub mod Shown
pub mod Pending
use Prim.Native.String.{◌++◌ as str_append}
use vectron.Prelude.{
  ℕ, String, Bool, true, false, Option, none, some, List, [], ◌∷◌, ◌++◌, map, length, ltb_ℤ, eqb_ℤ,
  ℤ, pos, not, ◌&&◌, str_eq, is_empty_str, if◌then◌else◌, or_else,
}
use vectron.Console.Text.{trim, split, number_text}

pub record Collection : Type 0 where
  pub name : String
  pub dimension : ℤ
  pub count : ℤ

-- A collection as the gateway sends it: its name, or an object whose fields may be missing.
pub data RawCollection : Type 0 where
  name_only : String → RawCollection
  fields : String → Option ℤ → Option ℤ → RawCollection

-- `response.data.collections`, mapped.
abbrev pub mapped_collection : RawCollection → Collection
mapped_collection (name_only name) = record { name = name; dimension = pos 0; count = pos 0 }
mapped_collection (fields name dimension count) = record {
  name = if is_empty_str name then "Unnamed Collection" else name;
  dimension = or_else dimension (pos 0);
  count = or_else count (pos 0);
}

pub data ToastType : Type 0 where
  success : ToastType
  danger : ToastType
  info : ToastType

pub record Toast : Type 0 where
  pub msg : String
  pub type_ : ToastType

pub record VectorData (F : Type 0) : Type 0 where
  pub id : String
  pub vector : List F

pub record SearchResult (F : Type 0) : Type 0 where
  pub id : String
  pub score : F
  pub vector : Option (List F)

-- The requests that load the list, with the selection that `fetchCollections` closed over, and a
-- status.
pub data Load : Type 0 where
  all_collections : String → Load
  status_of : String → Load

-- The requests that act on points. A deletion closes over the vector that is shown.
pub data Action (F : Type 0) : Type 0 where
  upserting : String → String → List F → Action F
  searching : String → List F → ℤ → Action F
  getting : String → String → Action F
  deleting : String → String → Option (VectorData F) → Action F

pub record VectorPage (F : Type 0) : Type 0 where
  pub collections : List Collection
  pub selected : String
  pub is_loading : Bool
  pub is_action_loading : Bool
  pub toast : Option Toast
  pub vector_id : String
  pub vector_values : String
  pub search_vector : String
  pub top_k : ℤ
  pub search_results : List (SearchResult F)
  pub manage_vector_id : String
  pub found_vector : Option (VectorData F)
  pub delete_vector_id : String
  pub is_delete_dialog_open : Bool
  pub loads : List Load
  pub actions : List (Action F)

-- `.filter((v) => v !== "")`
abbrev pub nonempty_texts : List String → List String
nonempty_texts [] = []
nonempty_texts (s ∷ ss) = let rest = nonempty_texts ss in if is_empty_str s then rest else s ∷ rest

abbrev pub find_named : String → List Collection → Option Collection
find_named name [] = none
find_named name (c ∷ cs) =
    let rest = find_named name cs in if str_eq c.name name then some c else rest

abbrev pub mismatch_message : ℤ → ℕ → String
mismatch_message expected size =
    str_append "Vector dimension mismatch: expected "
      (str_append (number_text expected) (str_append ", got " (number_text (pos size))))

-- `setCollections` with a dimension for the collections of a name.
abbrev pub with_dimension : String → ℤ → List Collection → List Collection
with_dimension name dimension [] = []
with_dimension name dimension (c ∷ cs) =
    (if str_eq c.name name then record c { dimension = dimension } else c)
    ∷ with_dimension name dimension cs

abbrev pub message_or : String → String → String
message_or message fallback = if is_empty_str message then fallback else message

module _ {F : Type 0} where
  -- `.map(parseFloat).filter((v) => !isNaN(v))`
  abbrev pub numbers_of : (String → Option F) → List String → List F
  numbers_of parse_float [] = []
  numbers_of parse_float (s ∷ ss) = elim (parse_float s) [
    | none ↦ numbers_of parse_float ss
    | some v ↦ v ∷ numbers_of parse_float ss
  ]

  unfoldable pub parse_vector_string : (String → Option F) → String → List F
  unfolding trim split
  parse_vector_string parse_float input =
      numbers_of parse_float (nonempty_texts (map trim (split 44 input)))

  -- `selectedCollectionData?.dimension || 0`
  unfoldable pub expected_dimension : VectorPage F → ℤ
  expected_dimension p = elim (find_named p.selected p.collections) [
    | none ↦ pos 0
    | some c ↦ c.dimension
  ]

  abbrev pub toasted : ToastType → String → VectorPage F → VectorPage F
  toasted type_ msg p = record p { toast = some (record { msg = msg; type_ = type_ }) }

  -- `validateVectorDimension`: the answer, and the page.
  unfoldable pub validate_vector_dimension : List F → VectorPage F → Bool × VectorPage F
  unfolding expected_dimension number_text
  validate_vector_dimension vector p =
      let expected = expected_dimension p in
      if ltb_ℤ (pos 0) expected && not (eqb_ℤ (pos (length vector)) expected)
      then (false, toasted danger (mismatch_message expected (length vector)) p)
      else (true, p)

  -- `fetchCollections`, up to its `await`.
  unfoldable pub fetch_collections : VectorPage F → VectorPage F
  fetch_collections p = record p {
    is_loading = true;
    loads = p.loads ++ (all_collections p.selected ∷ []);
  }

  -- `fetchCollectionStatus`, up to its `await`.
  unfoldable pub fetch_collection_status : String → VectorPage F → VectorPage F
  fetch_collection_status name p =
      if is_empty_str name then p else record p { loads = p.loads ++ (status_of name ∷ []) }

  -- `setSelectedCollection`, with the two effects that run when the selection changes.
  unfoldable pub select : String → VectorPage F → VectorPage F
  unfolding fetch_collections fetch_collection_status
  select name p =
      if str_eq p.selected name
      then p
      else fetch_collection_status name (fetch_collections (record p { selected = name }))

  unfoldable pub mounted : VectorPage F
  unfolding fetch_collections
  mounted = fetch_collections (record {
    collections = [];
    selected = "";
    is_loading = false;
    is_action_loading = false;
    toast = none;
    vector_id = "";
    vector_values = "";
    search_vector = "";
    top_k = pos 10;
    search_results = [];
    manage_vector_id = "";
    found_vector = none;
    delete_vector_id = "";
    is_delete_dialog_open = false;
    loads = [];
    actions = [];
  })

  abbrev pub select_first : List Collection → VectorPage F → VectorPage F
  select_first [] p = p
  select_first (c ∷ cs) p = select c.name p

  -- The list has come; `seen` is the selection that the function closed over.
  unfoldable pub collections_loaded : String → List RawCollection → VectorPage F → VectorPage F
  unfolding select
  collections_loaded seen raw p =
      let mapped = map mapped_collection raw in
      let shown : VectorPage F = record p { collections = mapped; is_loading = false } in
      if is_empty_str seen then select_first mapped shown else shown

  unfoldable pub collections_refused : String → VectorPage F → VectorPage F
  collections_refused message p =
      record (toasted danger (message_or message "Failed to load collections") p) {
        is_loading = false;
      }

  -- `response.data?.dimension` has come, or is no number.
  unfoldable pub status_loaded : String → Option ℤ → VectorPage F → VectorPage F
  status_loaded name none p = p
  status_loaded name (some dimension) p =
      if ltb_ℤ (pos 0) dimension
      then record p { collections = with_dimension name dimension p.collections }
      else p
