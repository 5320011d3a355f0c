-- ===== src/Console/Collections/Confirmed/Backed.antt =====
-- What the deletions of auth/frontend/src/pages/CollectionsManagement.tsx come from.
use vectron.Prelude.{
  String, ◌≡◌, refl, Bool, true, false, Option, none, some, List, [], ◌∷◌, ◌++◌, arith, any,
  any_after, if◌then◌else◌, str_eq, not, ◌||◌, ◌&&◌,
}
use vectron.Console.Collections.{
  Collection, CollectionCall, list_admin, delete_call, CollectionsPage, DeleteModal, Purpose,
  succeeded, fetch_collections,
}
use vectron.Console.Collections.Machine.{types_confirmation, Event, does, replies}

-- A request that deletes the collection of the name.
abbrev pub deletes : String → CollectionCall → Bool
deletes name (delete_call serial n) = str_eq n name
deletes name _ = false

-- The name is typed into the dialog.
abbrev pub types : String → Event → Bool
types name (does (types_confirmation s)) = str_eq s name
types name _ = false

-- The text in the dialog is the name.
abbrev pub text_is : String → Option DeleteModal → Bool
text_is name none = false
text_is name (some m) = str_eq m.confirm_text name

abbrev pub named : String → Collection → Bool
named name c = str_eq c.name name

-- An answer that lists a collection of the name.
abbrev pub lists : String → Event → Bool
lists name (replies i (succeeded (some cs))) = any (named name) cs
lists name _ = false

-- The dialog is about a collection of the name.
abbrev pub is_about : String → Option DeleteModal → Bool
is_about name none = false
is_about name (some m) = named name m.collection

abbrev pub implies : Bool → Bool → Bool
implies a b = not a || b

module _ (name : String) (typed listed : Bool) where
  -- What is in flight, in the dialog and in the list comes from what was typed and listed.
  pub record Backed (calls : List CollectionCall) (o : Option DeleteModal) (cs : List Collection)
      : Type 0 where
    pub in_flight : implies (any (deletes name) calls) (typed && listed) ≡ true
    pub in_text : implies (text_is name o) typed ≡ true
    pub in_dialog : implies (is_about name o) listed ≡ true
    pub in_list : implies (any (named name) cs) listed ≡ true

  abbrev pub IsBacked : CollectionsPage → Type 0
  IsBacked p = Backed p.calls p.delete_modal p.collections

  added :
      (calls : List CollectionCall) (c : CollectionCall)
      → deletes name c ≡ false
      → implies (any (deletes name) calls) (typed && listed) ≡ true
      → implies (any (deletes name) (calls ++ (c ∷ []))) (typed && listed) ≡ true
  added calls c e h = ground (arith, e, h, any_after (deletes name) calls c)

  -- A request other than a deletion.
  pub called :
      (c : CollectionCall) {calls : List CollectionCall} {o : Option DeleteModal}
      {cs : List Collection}
      → deletes name c ≡ false
      → Backed calls o cs
      → Backed (calls ++ (c ∷ [])) o cs
  called c {calls} e h = record {
    in_flight = added calls c e h.in_flight;
    in_text = h.in_text;
    in_dialog = h.in_dialog;
    in_list = h.in_list;
  }

  pub fetch-IsBacked :
      (purpose : Purpose) (p : CollectionsPage)
      → IsBacked p
      → IsBacked (fetch_collections purpose p)
  unfolding fetch_collections
  fetch-IsBacked purpose p h = called (list_admin purpose) refl h

  pub if-IsBacked :
      (b : Bool) (p q : CollectionsPage) → IsBacked p → IsBacked q → IsBacked (if b then p else q)
  if-IsBacked true p q h k = h
  if-IsBacked false p q h k = k
