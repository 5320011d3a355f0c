-- ===== src/Examples/Collections.antt =====
-- The page for collections of auth/frontend, on two collections.
use vectron.Prelude.{
  zero, String, ◌≡◌, ◌≢◌, refl, true, false, none, some, List, [], ◌∷◌, any, pos, arith, eq_iff,
}
use vectron.Console.Collections.{
  Collection, CollectionsPage, succeeded, failed, mounted, fetch_collections, ask_deletion,
  call_ended, then_after,
}
use vectron.Console.Collections.Machine.{
  refreshes, asks_deletion, types_confirmation, confirms, Event, does, replies, includes,
  filtered_collections, listed_at, act, handle, run,
}
use vectron.Console.Collections.Search.{IsSelection, Found, filtered-IsSelection}
use vectron.Console.Collections.Confirmed.{deletion_confirmed}
use vectron.Console.Collections.Confirmed.Backed.{deletes, types, lists}
use vectron.Console.Collections.Outcomes.{
  first_answer, shown, refresh_outcome, left_behind, collection_asked, other_dialog_closed,
}

abbrev same : String → String
same s = s

abbrev collection_named : String → Collection
collection_named name = record {
  name = name;
  dimension = pos 4;
  distance = "cosine";
  created_at = pos 0;
  vector_count = pos 0;
  size_bytes = pos 0;
  shard_count = pos 1;
  status = "active";
  shards = [];
}

abbrev two_collections : List Collection
two_collections = collection_named "cats" ∷ collection_named "dogs" ∷ []

abbrev collections_page : CollectionsPage
collections_page = record {
  collections = two_collections;
  loading = false;
  error = none;
  search_query = "";
  auto_refresh = true;
  create_modal = none;
  selected_collection = none;
  delete_modal = none;
  delete_error = none;
  dialogs = zero;
  calls = [];
}

includes_test : includes "wildcats" "dca" ≡ true
unfolding includes
includes_test = refl

filtered-IsSelection_example :
    IsSelection
      (Found same "at")
      two_collections
      (filtered_collections same (record collections_page { search_query = "at" }))
filtered-IsSelection_example =
    filtered-IsSelection same (record collections_page { search_query = "at" })

abbrev deleting_cats : List Event
deleting_cats =
    replies zero (succeeded (some two_collections))
    ∷ does (asks_deletion zero)
    ∷ does (types_confirmation "cats")
    ∷ does confirms
    ∷ []

cats_nonempty : ◌≢◌ {A = String} "cats" ""
cats_nonempty = ground (arith, eq_iff "cats" "")

deleting_cats_sent : any (deletes "cats") (run same deleting_cats mounted).calls ≡ true
unfolding run handle act mounted fetch_collections ask_deletion call_ended then_after listed_at
    filtered_collections includes
deleting_cats_sent = refl

deletion_confirmed_example :
    (any (types "cats") deleting_cats ≡ true) × (any (lists "cats") deleting_cats ≡ true)
deletion_confirmed_example =
    deletion_confirmed same deleting_cats "cats" cats_nonempty deleting_cats_sent

refresh_outcome_example :
    run same
      (does refreshes
        ∷ replies zero (failed none)
        ∷ replies zero (succeeded (some two_collections))
        ∷ [])
      collections_page
    ≡ shown (first_answer (failed none) (succeeded (some two_collections))) collections_page
refresh_outcome_example =
    refresh_outcome same collections_page (failed none) (succeeded (some two_collections)) refl refl

cats_listed : listed_at same 0 collections_page ≡ some (collection_named "cats")
unfolding listed_at filtered_collections includes
cats_listed = refl

dogs_listed : listed_at same 1 collections_page ≡ some (collection_named "dogs")
unfolding listed_at filtered_collections includes
dogs_listed = refl

other_dialog_closed_example :
    (collection_asked (run same (left_behind 0 1 "cats") collections_page).delete_modal
      ≡ some (collection_named "dogs"))
    × ((run same
          (replies zero (succeeded none) ∷ replies zero (succeeded none) ∷ [])
          (run same (left_behind 0 1 "cats") collections_page)).delete_modal
        ≡ none)
other_dialog_closed_example =
    other_dialog_closed same collections_page (collection_named "cats") (collection_named "dogs") 0
      1 none none refl refl refl cats_listed dogs_listed
