-- ===== src/Client/Pool.antt =====
-- `VectronClientPool` of clientlibs/js/src/client.ts. A client is known by its place in the pool.
pub mod RoundRobin
use vectron.Prelude.{
  ℕ, zero, suc, ◌+◌, ◌%◌, String, Option, none, some, List, [], ◌∷◌, map, length, get_elem?, ltb_ℤ,
  ℤ, pos, pos_part, if◌then◌else◌, Outcome, ok, err, pending, or_else,
}
use vectron.Client.Errors.{Thrown}
use vectron.Client.Options.{ClientOptions}
use vectron.Client.Session.{Client, new_client, close}

pub record Pool : Type 0 where
  pub clients : List Client
  pub index : ℕ

-- `Array.from({ length: count }, () => new VectronClient(...))`: the first failure throws.
unfoldable pub make_clients : ℕ → Outcome Thrown Client → Outcome Thrown (List Client)
make_clients zero made = ok []
make_clients (suc n) (err e) = err e
make_clients (suc n) pending = pending
make_clients (suc n) (ok c) = elim (make_clients n (ok c)) [
  | ok cs ↦ ok (c ∷ cs)
  | err e ↦ err e
  | pending ↦ pending
]

-- `size > 0 ? size : 1`, with the default for a missing size.
abbrev pub count_of : Option ℤ → ℕ
count_of size = if ltb_ℤ (pos 0) (or_else size (pos 1)) then pos_part (or_else size (pos 1)) else 1

abbrev pub pool_of : Outcome Thrown (List Client) → Outcome Thrown Pool
pool_of (ok cs) = ok (record { clients = cs; index = 0 })
pool_of (err e) = err e
pool_of pending = pending

unfoldable pub new_pool :
    String → Option String → Option ClientOptions → Option ℤ → Outcome Thrown Pool
new_pool host api_key options size =
    pool_of (make_clients (count_of size) (new_client host api_key options))

-- The client at the index, and the pool with the next index.
unfoldable pub next : Pool → Option Client × Pool
next p = (get_elem? p.clients p.index, record p { index = (p.index + 1) % length p.clients })

unfoldable pub close_all : Pool → Pool
close_all p = record p { clients = map close p.clients }
