-- ===== src/Console/Keys/Flows.antt =====
-- A key is created in two requests, and revoked in one: `handleCreateKey` and `handleDeleteKey` of
-- auth/frontend/src/components/ApiKeyManager.tsx from the click to the last answer.
use vectron.Prelude.{
  zero, String, ◌≡◌, ◌≢◌, refl, Bool, true, false, none, some, List, [], ◌∷◌, arith,
  is_empty_str-false, str_eq, eq_iff, not, ◌&&◌, ap, ◌∙◌, any,
}
use vectron.Console.Text.{trim}
use vectron.Console.Keys.{
  ApiKey, RawKey, KeyAnswer, list_keys, create_key, jwt_of_new, KeyPage, answered, refused, off, on,
  handle_create_key, handle_delete_key, call_ended, fetch_keys, info_of, normalize_key,
  normalize_sdk_jwt, without_key, danger, success, text_or,
}
use vectron.Console.Keys.Machine.{creates, confirms_deletion, deletes, replies, handle, run}

-- Nothing is in flight, and the dialog for a new key is open with a name.
pub record IsReady (p : KeyPage) : Type 0 where
  pub idle : p.calls ≡ []
  pub free : p.action_loading ≡ off
  pub opened : p.open_create_dialog ≡ true
  pub named : trim p.new_key_name ≢ ""

requested :
    (p : KeyPage)
    → IsReady p
    → handle creates p ≡ record p {
      action_loading = on;
      newly_generated_token = none;
      calls = create_key p.new_key_name ∷ [];
    }
unfolding handle handle_create_key
requested p h =
    ground (arith, h.idle, h.free, h.opened, is_empty_str-false (trim p.new_key_name) h.named)

-- The page while the token of the new key is asked for.
abbrev waiting : String → KeyPage → KeyPage
waiting prefix p = record p {
  action_loading = on;
  newly_generated_token = none;
  calls = jwt_of_new prefix ∷ [];
}

key_found :
    (p : KeyPage) (a : KeyAnswer) (key : RawKey)
    → IsReady p
    → info_of a ≡ some key
    → (normalize_key key).key_prefix ≢ ""
    → handle (replies zero (answered a)) (handle creates p)
      ≡ waiting (normalize_key key).key_prefix p
unfolding handle call_ended
key_found p a key h has_info named =
    rw (requested p h)
      (ground (arith, has_info, is_empty_str-false (normalize_key key).key_prefix named))

waiting-answered :
    (b : KeyAnswer) (prefix : String) (p : KeyPage)
    → handle (replies zero (answered b)) (waiting prefix p) ≡ record p {
      newly_generated_token = some (normalize_sdk_jwt b);
      new_key_name = "";
      loading = true;
      action_loading = off;
      open_create_dialog = false;
      toast_message =
          some (record { message = "API Key and SDK JWT created successfully"; type_ = success });
      calls = list_keys ∷ [];
    }
unfolding handle call_ended fetch_keys
waiting-answered b prefix p = refl

waiting-refused :
    (message prefix : String) (p : KeyPage)
    → handle (replies zero (refused message)) (waiting prefix p) ≡ record p {
      newly_generated_token = none;
      action_loading = off;
      open_create_dialog = false;
      toast_message = some (record {
        message = text_or message "Failed to complete key creation process.";
        type_ = danger;
      });
      calls = [];
    }
unfolding handle call_ended
waiting-refused message prefix p = refl

-- With nothing in flight and the dialog open with a name that is not blank: creating a key with
-- the button, the answer with the key, its prefix not empty, and the answer with a token lead to
-- the page that shows the token and the message of success, with the name cleared, the dialog
-- closed, the buttons enabled and the list of the keys loading again; all else is unchanged.
pub create_key_done :
    (p : KeyPage) (a b : KeyAnswer) (key : RawKey)
    → IsReady p
    → info_of a ≡ some key
    → (normalize_key key).key_prefix ≢ ""
    → run (creates ∷ replies zero (answered a) ∷ replies zero (answered b) ∷ []) p ≡ record p {
      newly_generated_token = some (normalize_sdk_jwt b);
      new_key_name = "";
      loading = true;
      action_loading = off;
      open_create_dialog = false;
      toast_message =
          some (record { message = "API Key and SDK JWT created successfully"; type_ = success });
      calls = list_keys ∷ [];
    }
unfolding run
create_key_done p a b key h has_info named =
    ap (handle (replies zero (answered b))) (key_found p a key h has_info named)
    ∙ waiting-answered b (normalize_key key).key_prefix p

-- With nothing in flight and the dialog open with a name that is not blank: creating a key, the
-- answer with the key, its prefix not empty, and a refusal of the token lead to the page with an
-- error message and the dialog closed, and with nothing in flight; the list of the keys and the
-- name are unchanged.
pub create_key_unfinished :
    (p : KeyPage) (a : KeyAnswer) (key : RawKey) (message : String)
    → IsReady p
    → info_of a ≡ some key
    → (normalize_key key).key_prefix ≢ ""
    → run (creates ∷ replies zero (answered a) ∷ replies zero (refused message) ∷ []) p ≡ record p {
      newly_generated_token = none;
      action_loading = off;
      open_create_dialog = false;
      toast_message = some (record {
        message = text_or message "Failed to complete key creation process.";
        type_ = danger;
      });
      calls = [];
    }
unfolding run
create_key_unfinished p a key message h has_info named =
    ap (handle (replies zero (refused message))) (key_found p a key h has_info named)
    ∙ waiting-refused message (normalize_key key).key_prefix p

-- Whether a key of this prefix is listed.
abbrev pub lists : String → List ApiKey → Bool
lists prefix = any (λ k. str_eq k.key_prefix prefix)

lists-without_key :
    (prefix other : String) (ks : List ApiKey)
    → lists other (without_key prefix ks) ≡ (lists other ks && not (str_eq other prefix))
lists-without_key prefix other [] = refl
lists-without_key prefix other (k ∷ ks) = ground (
  arith,
  lists-without_key prefix other ks,
  eq_iff k.key_prefix prefix,
  eq_iff k.key_prefix other,
  eq_iff other prefix,
)

-- With nothing in flight and the buttons enabled: after a key with a prefix that is not empty is
-- revoked and the answer has come, a key of any prefix is listed exactly if it was before and its
-- prefix is another.
pub revoke_key :
    (p : KeyPage) (prefix other : String) (a : KeyAnswer)
    → p.calls ≡ []
    → p.action_loading ≡ off
    → prefix ≢ ""
    → lists other (run (confirms_deletion prefix ∷ deletes ∷ replies zero (answered a) ∷ []) p).keys
      ≡ (lists other p.keys && not (str_eq other prefix))
unfolding run handle handle_delete_key call_ended
revoke_key p prefix other a idle free named =
    ground
      (arith, idle, free, is_empty_str-false prefix named, lists-without_key prefix other p.keys)
