-- ===== src/Console/Collections.antt =====
-- The page for collections of the web console: auth/frontend/src/pages/CollectionsManagement.tsx, its
-- state and handlers with those of its dialogs, and what it calls of
-- auth/frontend/src/services/managementApi.ts. The browser's own checks of a form are left out.
pub mod Machine
pub mod Search
pub mod Confirmed
pub mod Outcomes
use vectron.Prelude.{
  ℕ, zero, suc, ◌==◌, String, Bool, true, false, Option, none, some, List, [], ◌∷◌, ◌++◌, ℤ, pos,
  str_eq, is_empty_str, if◌then◌else◌, or_else,
}
use vectron.Console.Text.{trim}

pub record CollectionShard : Type 0 where
  pub shard_id : ℤ
  pub worker_ids : List String
  pub leader_id : String
  pub vector_count : ℤ
  pub size_bytes : ℤ
  pub status : String
  pub last_updated : ℤ

pub record Collection : Type 0 where
  pub name : String
  pub dimension : ℤ
  pub distance : String
  pub created_at : ℤ
  pub vector_count : ℤ
  pub size_bytes : ℤ
  pub shard_count : ℤ
  pub status : String
  pub shards : List CollectionShard

-- The state of an open `CreateCollectionModal`, with the number of the dialog.
pub record CreateModal : Type 0 where
  pub serial : ℕ
  pub name : String
  pub dimension : ℤ
  pub distance : String
  pub loading : Bool
  pub error : Option String

-- `collectionToDelete`, and the state of the open `DeleteConfirmModal`.
pub record DeleteModal : Type 0 where
  pub serial : ℕ
  pub collection : Collection
  pub confirm_text : String
  pub loading : Bool

-- What awaits a listing: nothing, or `handleDeleteCollection`.
pub data Purpose : Type 0 where
  refresh : Purpose
  after_deletion : Purpose

-- The requests; the numbers are those of the dialogs that wait for them.
pub data CollectionCall : Type 0 where
  list_admin : Purpose → CollectionCall
  list_public : Purpose → CollectionCall
  create_call : ℕ → String → ℤ → String → CollectionCall
  delete_call : ℕ → String → CollectionCall

pub record CollectionsPage : Type 0 where
  pub collections : List Collection
  pub loading : Bool
  pub error : Option String
  pub search_query : String
  pub auto_refresh : Bool
  pub create_modal : Option CreateModal
  pub selected_collection : Option Collection
  pub delete_modal : Option DeleteModal
  pub delete_error : Option String
  -- the number of dialogs opened so far
  pub dialogs : ℕ
  pub calls : List CollectionCall

abbrev pub call : CollectionCall → CollectionsPage → CollectionsPage
call c p = record p { calls = p.calls ++ (c ∷ []) }

-- `fetchCollections`, up to its first request.
unfoldable pub fetch_collections : Purpose → CollectionsPage → CollectionsPage
fetch_collections purpose p = call (list_admin purpose) (record p { error = none })

unfoldable pub mounted : CollectionsPage
unfolding fetch_collections
mounted = fetch_collections refresh (record {
  collections = [];
  loading = true;
  error = none;
  search_query = "";
  auto_refresh = true;
  create_modal = none;
  selected_collection = none;
  delete_modal = none;
  delete_error = none;
  dialogs = zero;
  calls = [];
})

-- `setShowCreateModal(true)`: a dialog that is open stays as it is.
unfoldable pub open_create : CollectionsPage → CollectionsPage
open_create p = elim p.create_modal [
  | none ↦ record p {
    create_modal = some (record {
      serial = p.dialogs;
      name = "";
      dimension = pos 1536;
      distance = "cosine";
      loading = false;
      error = none;
    });
    dialogs = suc p.dialogs;
  }
  | some m ↦ p
]

-- `handleSubmit` of the dialog, up to its request; its button is disabled while it waits.
abbrev pub submit : CreateModal → CollectionsPage → CollectionsPage
submit m p =
    if m.loading
    then p
    else if is_empty_str (trim m.name)
    then p
    else call (create_call m.serial (trim m.name) m.dimension m.distance)
        (record p { create_modal = some (record m { loading = true; error = none }) })

-- `setCollectionToDelete(collection)`: a dialog that is open keeps its state.
unfoldable pub ask_deletion : Collection → CollectionsPage → CollectionsPage
ask_deletion c p = elim p.delete_modal [
  | none ↦ record p {
    delete_modal =
        some (record { serial = p.dialogs; collection = c; confirm_text = ""; loading = false });
    dialogs = suc p.dialogs;
  }
  | some m ↦ record p { delete_modal = some (record m { collection = c }) }
]

-- `handleConfirm` of the dialog with `handleDeleteCollection`, up to the request.
abbrev pub confirm : DeleteModal → CollectionsPage → CollectionsPage
confirm m p =
    if m.loading
    then p
    else if str_eq m.confirm_text m.collection.name
    then call (delete_call m.serial m.collection.name)
        (record p { delete_modal = some (record m { loading = true }); delete_error = none })
    else p

-- The end of a request: `data.collections` of the answer, or the message of an `Error`.
pub data Reply : Type 0 where
  succeeded : Option (List Collection) → Reply
  failed : Option String → Reply

-- What follows a listing in `handleDeleteCollection`.
unfoldable pub then_after : Purpose → CollectionsPage → CollectionsPage
then_after refresh p = p
then_after after_deletion p = record p { delete_modal = none; delete_error = none }

-- The dialog with the number says that the creation has failed.
abbrev pub create_failed : ℕ → Option CreateModal → Option CreateModal
create_failed serial none = none
create_failed serial (some m) =
    if m.serial == serial
    then some (record m { loading = false; error = some "Failed to create collection" })
    else some m

-- `setLoading(false)` of the dialog with the number.
abbrev pub delete_settled : ℕ → Option DeleteModal → Option DeleteModal
delete_settled serial none = none
delete_settled serial (some m) =
    if m.serial == serial then some (record m { loading = false }) else some m

-- `getCollections` asks the public service when the one for administrators has failed.
unfoldable pub call_ended : CollectionCall → Reply → CollectionsPage → CollectionsPage
unfolding fetch_collections then_after
call_ended (list_admin purpose) (succeeded cs) p =
    then_after purpose (record p { collections = or_else cs []; loading = false })
call_ended (list_admin purpose) (failed message) p = call (list_public purpose) p
call_ended (list_public purpose) (succeeded cs) p =
    then_after purpose (record p { collections = or_else cs []; loading = false })
call_ended (list_public purpose) (failed message) p =
    then_after purpose (record p { error = some "Failed to fetch collections"; loading = false })
call_ended (create_call serial name dimension distance) (succeeded cs) p =
    fetch_collections refresh (record p { create_modal = none })
call_ended (create_call serial name dimension distance) (failed message) p = record p {
  create_modal = create_failed serial p.create_modal;
}
call_ended (delete_call serial name) (succeeded cs) p = fetch_collections after_deletion p
call_ended (delete_call serial name) (failed message) p = record p {
  delete_error = some (or_else message "Failed to delete collection. Please try again.");
  delete_modal = delete_settled serial p.delete_modal;
}
