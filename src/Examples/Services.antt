-- ===== src/Examples/Services.antt =====
-- The methods of the services in clientlibs/js/proto in the bytes of the tests.
use vectron.Prelude.{arith, ℕ, ◌≡◌, refl, some, [], ◌∷◌, pos, ◌==◌}
use vectron.Gateway.Messages.{SearchResponse}
use vectron.Gateway.Wire.{Bytes, write_all}
use vectron.Gateway.Codec.Points.{Zero, encode_search_result, encode_payload}
use vectron.Gateway.Service.{response, search, serialize, deserialize}
use vectron.Gateway.Service.Calls.{
  message_as_read, MessageFits as GatewayFits, gateway_call_survives,
}
use vectron.Auth.Accounts.{LoginResponse, encode_user_profile}
use vectron.Auth.Service.{
  response as auth_response, login, serialize as auth_serialize, deserialize as auth_deserialize,
}
use vectron.Auth.Service.Calls.{
  message_as_read as auth_message_as_read, MessageFits, auth_call_survives,
}
use vectron.Examples.Bytes.{wire, wire-IsSound}

abbrev zero_float : Zero ℕ
zero_float = record { zero_float = 0; is_zero_float = λ n. n == 0 }

abbrev results : SearchResponse ℕ
results = record {
  results =
      record { id = "a"; score = 5; payload = []; vector = [] }
      ∷ record { id = "b"; score = 0; payload = []; vector = [] }
      ∷ [];
}

results-MessageFits : GatewayFits wire zero_float wire-IsSound response search results
unfolding encode_search_result encode_payload write_all
results-MessageFits = (
  (record { score = refl; vector = tt; packed = omega arith; entries = tt }, omega arith),
  ((record { score = refl; vector = tt; packed = omega arith; entries = tt }, omega arith), tt),
)

gateway_call_survives_example :
    (bs : Bytes) × (serialize wire zero_float response search results ≡ some bs)
    × (deserialize wire zero_float response search bs
        ≡ some (message_as_read wire zero_float wire-IsSound response search results))
gateway_call_survives_example =
    gateway_call_survives wire zero_float wire-IsSound response search results results-MessageFits

abbrev logged_in : LoginResponse
logged_in = record {
  jwt_token = "t";
  user = some (record {
    id = "a";
    email = "";
    created_at = "5";
    plan = pos 2;
    subscription_status = pos 0;
  });
}

logged_in-MessageFits : MessageFits wire wire-IsSound auth_response login logged_in
unfolding encode_user_profile
logged_in-MessageFits =
    ((refl, (omega arith, omega arith), (omega arith, omega arith)), omega arith)

auth_call_survives_example :
    (bs : Bytes) × (auth_serialize wire auth_response login logged_in ≡ some bs)
    × (auth_deserialize wire auth_response login bs
        ≡ some (auth_message_as_read wire wire-IsSound auth_response login logged_in))
auth_call_survives_example =
    auth_call_survives wire wire-IsSound auth_response login logged_in logged_in-MessageFits
