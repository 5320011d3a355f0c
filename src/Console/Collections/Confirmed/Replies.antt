-- ===== src/Console/Collections/Confirmed/Replies.antt =====
-- What the answers on auth/frontend/src/pages/CollectionsManagement.tsx do to the deletions.
use vectron.Prelude.{
  ℕ, String, ◌≡◌, refl, Bool, true, false, Option, none, some, List, [], arith, any,
  any_none-remove_at, remove_at, or_else,
}
use vectron.Console.Collections.{
  Collection, CollectionCall, list_admin, list_public, create_call, delete_call, CollectionsPage,
  DeleteModal, Purpose, refresh, after_deletion, Reply, succeeded, failed, fetch_collections,
  then_after, delete_settled, call_ended,
}
use vectron.Console.Collections.Confirmed.Backed.{
  deletes, text_is, named, is_about, implies, IsBacked, called, fetch-IsBacked,
}

module _ (name : String) (typed listed : Bool) where
  after-IsBacked :
      (purpose : Purpose) (p : CollectionsPage)
      → IsBacked name typed listed p
      → IsBacked name typed listed (then_after purpose p)
  unfolding then_after
  after-IsBacked refresh p h = h
  after-IsBacked after_deletion p h = record {
    in_flight = h.in_flight;
    in_text = refl;
    in_dialog = refl;
    in_list = h.in_list;
  }

  -- The list is the one of an answer.
  answered :
      (purpose : Purpose) (cs : Option (List Collection)) (p : CollectionsPage)
      → implies (any (named name) (or_else cs [])) listed ≡ true
      → IsBacked name typed listed p
      → IsBacked name typed listed
          (then_after purpose (record p { collections = or_else cs []; loading = false }))
  answered purpose cs p e h = after-IsBacked purpose _ (record {
    in_flight = h.in_flight;
    in_text = h.in_text;
    in_dialog = h.in_dialog;
    in_list = e;
  })

  delete_settled_text :
      (serial : ℕ) (o : Option DeleteModal)
      → text_is name (delete_settled serial o) ≡ text_is name o
  delete_settled_text serial none = refl
  delete_settled_text serial (some m) = ground arith

  delete_settled_about :
      (serial : ℕ) (o : Option DeleteModal)
      → is_about name (delete_settled serial o) ≡ is_about name o
  delete_settled_about serial none = refl
  delete_settled_about serial (some m) = ground arith

  -- The collections of an answer.
  abbrev pub answer_lists : Reply → Bool
  answer_lists (succeeded cs) = any (named name) (or_else cs [])
  answer_lists (failed message) = false

  call_ended-IsBacked :
      (c : CollectionCall) (r : Reply) (p : CollectionsPage)
      → implies (answer_lists r) listed ≡ true
      → IsBacked name typed listed p
      → IsBacked name typed listed (call_ended c r p)
  unfolding call_ended fetch_collections
  call_ended-IsBacked (list_admin purpose) (succeeded cs) p e h = answered purpose cs p e h
  call_ended-IsBacked (list_admin purpose) (failed message) p e h =
      called name typed listed (list_public purpose) refl h
  call_ended-IsBacked (list_public purpose) (succeeded cs) p e h = answered purpose cs p e h
  call_ended-IsBacked (list_public purpose) (failed message) p e h = after-IsBacked purpose _ h
  call_ended-IsBacked (create_call serial n dimension distance) (succeeded cs) p e h =
      called name typed listed (list_admin refresh) refl h
  call_ended-IsBacked (create_call serial n dimension distance) (failed message) p e h = h
  call_ended-IsBacked (delete_call serial n) (succeeded cs) p e h =
      fetch-IsBacked name typed listed after_deletion p h
  call_ended-IsBacked (delete_call serial n) (failed message) p e h = record {
    in_flight = h.in_flight;
    in_text = rw (delete_settled_text serial p.delete_modal) h.in_text;
    in_dialog = rw (delete_settled_about serial p.delete_modal) h.in_dialog;
    in_list = h.in_list;
  }

  pub replied :
      (o : Option CollectionCall) (i : ℕ) (r : Reply) (p : CollectionsPage)
      → implies (answer_lists r) listed ≡ true
      → IsBacked name typed listed p
      → IsBacked name typed listed
          (elim o [ none ↦ p | some c ↦ call_ended c r (record p { calls = remove_at i p.calls }) ])
  replied none i r p e h = h
  replied (some c) i r p e h = call_ended-IsBacked c r _ e (record {
    in_flight = ground (arith, h.in_flight, any_none-remove_at (deletes name) i p.calls);
    in_text = h.in_text;
    in_dialog = h.in_dialog;
    in_list = h.in_list;
  })
