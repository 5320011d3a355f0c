-- ===== src/Console/Collections/Confirmed/Inputs.antt =====
-- What the user of auth/frontend/src/pages/CollectionsManagement.tsx does to the deletions.
use vectron.Prelude.{
  ℕ, zero, suc, String, ◌≡◌, ◌≢◌, refl, Bool, true, false, Option, none, some, List, [], ◌∷◌, arith,
  any, any_after, get_elem?, if◌then◌else◌, is_empty_str, str_eq, eq_iff, is_empty_str-false,
}
use vectron.Console.Text.{trim}
use vectron.Console.Collections.{
  Collection, create_call, delete_call, CollectionsPage, CreateModal, DeleteModal, refresh, call,
  open_create, submit, ask_deletion, confirm,
}
use vectron.Console.Collections.Machine.{
  matching, filtered_collections, Input, refreshes, toggles, searches, opens_create, closes_create,
  types_name, types_dimension, picks_distance, submits, views, closes_details, asks_deletion,
  types_confirmation, cancels_deletion, confirms, does, listed_at, act,
}
use vectron.Console.Collections.Confirmed.Backed.{
  deletes, types, text_is, named, is_about, implies, IsBacked, called, fetch-IsBacked, if-IsBacked,
}

module _ (to_lower : String → String) (name : String) (nonempty : name ≢ "")
    (typed listed : Bool) where
  matching_from :
      (query : String) (cs : List Collection)
      → implies (any (named name) (matching to_lower query cs)) (any (named name) cs) ≡ true
  matching_from query [] = refl
  matching_from query (c ∷ cs) = ground (arith, matching_from query cs)

  named_at :
      (i : ℕ) (cs : List Collection) (c : Collection)
      → get_elem? cs i ≡ some c
      → implies (named name c) (any (named name) cs) ≡ true
  named_at i [] c e = absurd (cc e)
  named_at zero (d ∷ ds) c e = ground (arith, e)
  named_at (suc i) (d ∷ ds) c e = ground (arith, named_at i ds c e)

  listed_from :
      (i : ℕ) (p : CollectionsPage) (c : Collection)
      → listed_at to_lower i p ≡ some c
      → implies (any (named name) p.collections) listed ≡ true
      → implies (named name c) listed ≡ true
  unfolding listed_at filtered_collections
  listed_from i p c e h = ground (
    arith,
    e,
    h,
    matching_from p.search_query p.collections,
    named_at i (matching to_lower p.search_query p.collections) c,
  )

  submitted :
      (o : Option CreateModal) (p : CollectionsPage)
      → IsBacked name typed listed p
      → IsBacked name typed listed (elim o [ none ↦ p | some m ↦ submit m p ])
  submitted none p h = h
  submitted (some m) p h = if-IsBacked name typed listed m.loading _ _ h (
      if-IsBacked name typed listed (is_empty_str (trim m.name)) _ _ h (
        called name typed listed (create_call m.serial (trim m.name) m.dimension m.distance) refl
          h))

  in_create-IsBacked :
      (change : CreateModal → CreateModal) (o : Option CreateModal) (p : CollectionsPage)
      → IsBacked name typed listed p
      → IsBacked name typed listed
          (elim o [ none ↦ p | some m ↦ record p { create_modal = some (change m) } ])
  in_create-IsBacked change none p h = h
  in_create-IsBacked change (some m) p h = h

  open_create-IsBacked :
      (p : CollectionsPage)
      → IsBacked name typed listed p
      → IsBacked name typed listed (open_create p)
  unfolding open_create
  open_create-IsBacked p h = record {
    in_flight = ground (arith, h.in_flight);
    in_text = ground (arith, h.in_text);
    in_dialog = ground (arith, h.in_dialog);
    in_list = ground (arith, h.in_list);
  }

  deletion_asked :
      (c : Collection) (p : CollectionsPage)
      → implies (named name c) listed ≡ true
      → IsBacked name typed listed p
      → IsBacked name typed listed (ask_deletion c p)
  unfolding ask_deletion
  deletion_asked c p e h = record {
    in_flight = ground (arith, h.in_flight);
    in_text = ground (arith, h.in_text, is_empty_str-false name nonempty, eq_iff "" name);
    in_dialog = ground (arith, e);
    in_list = ground (arith, h.in_list);
  }

  asked :
      (o : Option Collection) (i : ℕ) (p : CollectionsPage)
      → listed_at to_lower i p ≡ o
      → IsBacked name typed listed p
      → IsBacked name typed listed (elim o [ none ↦ p | some c ↦ ask_deletion c p ])
  asked none i p e h = h
  asked (some c) i p e h = deletion_asked c p (listed_from i p c e h.in_list) h

  viewed :
      (o : Option Collection) (p : CollectionsPage)
      → IsBacked name typed listed p
      → IsBacked name typed listed
          (elim o [ none ↦ p | some c ↦ record p { selected_collection = some c } ])
  viewed none p h = h
  viewed (some c) p h = h

  text_typed :
      (s : String) (o : Option DeleteModal) (p : CollectionsPage)
      → implies (str_eq s name) typed ≡ true
      → implies (is_about name o) listed ≡ true
      → IsBacked name typed listed p
      → IsBacked name typed listed (elim o [
        | none ↦ p
        | some m ↦ record p { delete_modal = some (record m { confirm_text = s }) }
      ])
  text_typed s none p e about h = h
  text_typed s (some m) p e about h = record {
    in_flight = h.in_flight;
    in_text = e;
    in_dialog = about;
    in_list = h.in_list;
  }

  -- A deletion is sent with the name that is in the dialog, and the text there is the same.
  confirmed :
      (o : Option DeleteModal) (p : CollectionsPage)
      → implies (text_is name o) typed ≡ true
      → implies (is_about name o) listed ≡ true
      → IsBacked name typed listed p
      → IsBacked name typed listed (elim o [ none ↦ p | some m ↦ confirm m p ])
  confirmed none p text about h = h
  confirmed (some m) p text about h =
      if-IsBacked name typed listed m.loading _ _ h
        (sent (str_eq m.confirm_text m.collection.name) refl)
    where
      sent :
          (b : Bool)
          → str_eq m.confirm_text m.collection.name ≡ b
          → IsBacked name typed listed (
              if b
              then call (delete_call m.serial m.collection.name) (record p {
                delete_modal = some (record m { loading = true });
                delete_error = none;
              })
              else p)
      sent false e = h
      sent true e = record {
        in_flight = ground (
          arith,
          h.in_flight,
          text,
          about,
          e,
          eq_iff m.confirm_text m.collection.name,
          eq_iff m.collection.name name,
          eq_iff m.confirm_text name,
          any_after (deletes name) p.calls (delete_call m.serial m.collection.name),
        );
        in_text = text;
        in_dialog = about;
        in_list = h.in_list;
      }

  pub act-IsBacked :
      (i : Input) (p : CollectionsPage)
      → implies (types name (does i)) typed ≡ true
      → IsBacked name typed listed p
      → IsBacked name typed listed (act to_lower i p)
  unfolding act
  act-IsBacked refreshes p e h = fetch-IsBacked name typed listed refresh p h
  act-IsBacked toggles p e h = h
  act-IsBacked (searches query) p e h = h
  act-IsBacked opens_create p e h = open_create-IsBacked p h
  act-IsBacked closes_create p e h = h
  act-IsBacked (types_name s) p e h =
      in_create-IsBacked (λ m. record m { name = s }) p.create_modal p h
  act-IsBacked (types_dimension n) p e h =
      in_create-IsBacked (λ m. record m { dimension = n }) p.create_modal p h
  act-IsBacked (picks_distance s) p e h =
      in_create-IsBacked (λ m. record m { distance = s }) p.create_modal p h
  act-IsBacked submits p e h = submitted p.create_modal p h
  act-IsBacked (views i) p e h = viewed (listed_at to_lower i p) p h
  act-IsBacked closes_details p e h = h
  act-IsBacked (asks_deletion i) p e h = asked (listed_at to_lower i p) i p refl h
  act-IsBacked (types_confirmation s) p e h = text_typed s p.delete_modal p e h.in_dialog h
  act-IsBacked cancels_deletion p e h = record {
    in_flight = h.in_flight;
    in_text = refl;
    in_dialog = refl;
    in_list = h.in_list;
  }
  act-IsBacked confirms p e h = confirmed p.delete_modal p h.in_text h.in_dialog h
