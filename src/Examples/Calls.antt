-- ===== src/Examples/Calls.antt =====
-- The operations of clientlibs/js/src/client.ts and its pool on concrete data.
use vectron.Prelude.{
  ℕ, ◌+◌, ◌%◌, ◌≤◌, ◌≡◌, refl, none, some, [], ◌∷◌, length, get_elem?, arith, max_ℕ,
}
use vectron.Client.Options.{default_options}
use vectron.Client.Retry.{max_attempts}
use vectron.Client.Retry.Limits.{IsTranslated}
use vectron.Client.Session.{Client}
use vectron.Client.Calls.{search_points, upsert}
use vectron.Client.Operations.{Operation, upserts, searches, perform}
use vectron.Client.Operations.Safety.{
  IsAuthorized, perform-IsAuthorized, perform-IsTranslated, perform_write_once, perform_sends,
}
use vectron.Client.Operations.Requests.{
  AllAre, IsSearch, IsUpsert, search_points-IsSearch, upsert-IsUpsert,
}
use vectron.Client.Pool.{Pool, next}
use vectron.Client.Pool.RoundRobin.{IsValid as IsValidPool, after_calls, next_round_robin}
use vectron.Examples.Data.{platform, client, world, two_points}

abbrev writing : Operation ℕ
writing = upserts "docs" two_points

abbrev searching : Operation ℕ
searching = searches "docs" (1 ∷ 2 ∷ []) none

perform-IsTranslated_example : IsTranslated (perform platform client searching world).0
perform-IsTranslated_example = perform-IsTranslated platform client searching world

perform-IsAuthorized_example :
    IsAuthorized platform client (perform platform client searching world).1.sent
perform-IsAuthorized_example = perform-IsAuthorized platform client searching world tt

perform_write_once_example :
    length (perform platform client writing world).1.sent ≤ length world.sent + 1
perform_write_once_example = perform_write_once platform client writing world refl refl

perform_sends_example :
    length (perform platform client searching world).1.sent
    ≤ length world.sent + max_ℕ (max_attempts default_options) 1
perform_sends_example = perform_sends platform client searching world refl

search_points-IsSearch_example :
    AllAre client
      (IsSearch platform client "docs" (1 ∷ 2 ∷ []) none)
      (search_points platform client "docs" (1 ∷ 2 ∷ []) none world).1.sent
search_points-IsSearch_example =
    search_points-IsSearch platform client "docs" (1 ∷ 2 ∷ []) none world tt

upsert-IsUpsert_example :
    AllAre client
      (IsUpsert platform client "docs" two_points)
      (upsert platform client "docs" two_points world).1.sent
upsert-IsUpsert_example = upsert-IsUpsert platform client "docs" two_points world tt

abbrev three : Pool
three = record { clients = client ∷ client ∷ client ∷ []; index = 2 }

three-IsValid : IsValidPool three
three-IsValid = record { inside = omega arith }

next_round_robin_example :
    (c : Client) × ((next (after_calls 4 three)).0 ≡ some c)
    × (get_elem? three.clients ((2 + 4) % 3) ≡ some c)
next_round_robin_example = next_round_robin 4 three three-IsValid
