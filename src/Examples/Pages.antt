-- ===== src/Examples/Pages.antt =====
-- The pages for vectors, keys and health of auth/frontend/src on concrete data.
use vectron.Prelude.{
  ℕ, zero, String, ◌≡◌, ◌≢◌, refl, true, false, none, some, Option, List, [], ◌∷◌, arith, eq_iff,
  pos, any, str_eq, if◌then◌else◌,
}
use vectron.Console.Text.{trim, is_white}
use vectron.Console.Vectors.{
  VectorPage, name_only, upserting, deleting, parse_vector_string, mounted, fetch_collections,
}
use vectron.Console.Vectors.Actions.{handle_upsert, accepted, shows}
use vectron.Console.Vectors.Guards.{Decides, Fits, handle_upsert_cases}
use vectron.Console.Vectors.Machine.{
  Event, loaded, chooses, types_manage_id, clicks_get, opens_delete, clicks_delete, load_ends,
  action_ends, handle, run,
}
use vectron.Console.Vectors.Shown.{deleted_not_shown, deletes_from_selected}
use vectron.Console.Keys.{
  KeyPage, RawKey, KeyAnswer, normalize_key, normalize_sdk_jwt, off, list_keys, success,
  mounted as keys_mounted, ApiKey, answered, fetch_keys,
}
use vectron.Console.Keys.Machine.{creates, replies, gets_jwt, run as run_keys}
use vectron.Console.Keys.Flows.{IsReady, create_key_done}
use vectron.Console.Keys.Awaited.{serves, run_busy}

abbrev parse_one : String → Option ℕ
parse_one s = if str_eq s "1" then some 1 else none

abbrev vector_page : VectorPage ℕ
vector_page = record {
  collections = record { name = "docs"; dimension = pos 2; count = pos 0 } ∷ [];
  selected = "docs";
  is_loading = false;
  is_action_loading = false;
  toast = none;
  vector_id = "a";
  vector_values = "1,1";
  search_vector = "";
  top_k = pos 10;
  search_results = [];
  manage_vector_id = "";
  found_vector = some (record { id = "a"; vector = 1 ∷ 1 ∷ [] });
  delete_vector_id = "";
  is_delete_dialog_open = false;
  loads = [];
  actions = [];
}

handle_upsert_cases_example :
    Decides
      ((vector_page.selected ≢ "")
        × ((trim vector_page.vector_id ≢ "")
            × Fits (parse_vector_string parse_one vector_page.vector_values) vector_page))
      (upserting vector_page.selected vector_page.vector_id
        (parse_vector_string parse_one vector_page.vector_values))
      vector_page
      (handle_upsert parse_one vector_page)
handle_upsert_cases_example = handle_upsert_cases parse_one vector_page

images_named : ◌≢◌ {A = String} "images" ""
images_named = ground (arith, eq_iff "images" "")

a_named : ◌≢◌ {A = String} "a" ""
a_named = ground (arith, eq_iff "a" "")

-- The vector of "docs" is deleted from "images".
deletes_from_selected_example :
    (run parse_one (chooses "images" ∷ opens_delete ∷ clicks_delete ∷ []) vector_page).actions
    ≡ deleting "images" "a" (some (record { id = "a"; vector = 1 ∷ 1 ∷ [] })) ∷ []
deletes_from_selected_example =
    deletes_from_selected parse_one "images" (record { id = "a"; vector = 1 ∷ 1 ∷ [] }) vector_page
      refl refl images_named a_named

abbrev shown_then_deleted : List (Event ℕ)
shown_then_deleted =
    load_ends zero (loaded (name_only "docs" ∷ []) none)
    ∷ types_manage_id "a"
    ∷ clicks_get
    ∷ action_ends zero (accepted none (some ("a", some (1 ∷ []))))
    ∷ opens_delete
    ∷ clicks_delete
    ∷ []

deletion_sent :
    (run parse_one shown_then_deleted mounted).actions
    ≡ deleting "docs" "a" (some (record { id = "a"; vector = 1 ∷ [] })) ∷ []
unfolding run mounted fetch_collections is_white
deletion_sent = refl

deleted_not_shown_example :
    shows "a"
      (handle parse_one
        (action_ends zero (accepted none none))
        (run parse_one shown_then_deleted mounted)).found_vector
    ≡ false
deleted_not_shown_example =
    deleted_not_shown parse_one shown_then_deleted "docs" "a"
      (some (record { id = "a"; vector = 1 ∷ [] })) none none deletion_sent

abbrev key_page : KeyPage
key_page = record {
  keys = record { key_prefix = "k0"; user_id = "1"; created_at = pos 1; name = "old" } ∷ [];
  new_key_name = "ci";
  newly_generated_token = none;
  sdk_jwt = none;
  key_for_jwt = none;
  loading = false;
  action_loading = off;
  toast_message = none;
  open_delete_dialog = false;
  open_create_dialog = true;
  key_to_delete = none;
  calls = [];
}

abbrev new_key : RawKey
new_key = record {
  camel_key_prefix = none;
  snake_key_prefix = some "k1";
  camel_user_id = none;
  snake_user_id = none;
  camel_created_at = none;
  snake_created_at = none;
  name = some "ci";
}

abbrev empty_answer : KeyAnswer
empty_answer = record {
  keys = [];
  camel_key_info = none;
  snake_key_info = none;
  camel_sdk_jwt = "";
  snake_sdk_jwt = "";
}

abbrev created : KeyAnswer
created = record empty_answer { snake_key_info = some new_key }

abbrev with_token : KeyAnswer
with_token = record empty_answer { camel_sdk_jwt = "jwt" }

ci_trimmed : trim key_page.new_key_name ≢ ""
unfolding trim is_white
ci_trimmed = ground (arith, eq_iff "ci" "")

key_page-IsReady : IsReady key_page
key_page-IsReady = record { idle = refl; free = refl; opened = refl; named = ci_trimmed }

new_key_named : (normalize_key new_key).key_prefix ≢ ""
unfolding normalize_key
new_key_named = ground (arith, eq_iff "k1" "")

create_key_done_example :
    run_keys
      (creates ∷ replies zero (answered created) ∷ replies zero (answered with_token) ∷ [])
      key_page
    ≡ record key_page {
      newly_generated_token = some (normalize_sdk_jwt with_token);
      new_key_name = "";
      loading = true;
      action_loading = off;
      open_create_dialog = false;
      toast_message =
          some (record { message = "API Key and SDK JWT created successfully"; type_ = success });
      calls = list_keys ∷ [];
    }
create_key_done_example =
    create_key_done key_page created with_token new_key key_page-IsReady refl new_key_named

abbrev old_key : ApiKey
old_key = record { key_prefix = "k0"; user_id = "1"; created_at = pos 1; name = "old" }

asking : (run_keys (gets_jwt old_key ∷ []) keys_mounted).action_loading ≢ off
unfolding run_keys keys_mounted fetch_keys
asking e = absurd (cc e)

run_busy_example :
    any
      (serves (run_keys (gets_jwt old_key ∷ []) keys_mounted).action_loading)
      (run_keys (gets_jwt old_key ∷ []) keys_mounted).calls
    ≡ true
run_busy_example = run_busy (gets_jwt old_key ∷ []) asking
