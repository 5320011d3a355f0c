-- ===== src/Client/Pool/RoundRobin.antt =====
-- The clients of a `VectronClientPool` of clientlibs/js/src/client.ts serve in turn.
use native.Mathlib.Nat.{add-zero, mod-lt, mod-add-mod, mod-eq_of_lt}
use vectron.Prelude.{
  ℕ, zero, suc, ◌+◌, ◌%◌, ◌<◌, ◌≡◌, ◌≢◌, ◌∙◌, refl, ap, sym, String, true, Option, some, List, [],
  ◌∷◌, map, length, get_elem?, ℤ, arith, All, ok, is_empty_str-false, replicate, length-replicate,
}
use vectron.Client.Options.{ClientOptions, normalize_options}
use vectron.Client.Session.{Client, opened_client, new_client, close}
use vectron.Client.Pool.{Pool, make_clients, count_of, pool_of, new_pool, next, close_all}

-- The index points at a client.
pub record IsValid (p : Pool) : Type 0 where
  pub inside : p.index < length p.clients

get_elem?-some :
    (cs : List Client) (i : ℕ) → i < length cs → (c : Client) × (get_elem? cs i ≡ some c)
get_elem?-some [] i h = absurd (omega arith)
get_elem?-some (c ∷ cs) zero h = (c, refl)
get_elem?-some (c ∷ cs) (suc i) h = get_elem?-some cs i (omega arith)

next-IsValid : (p : Pool) → IsValid p → IsValid (next p).1
unfolding next
next-IsValid p v = record { inside = mod-lt (p.index + 1) (omega (arith, v.inside)) }

-- The pool after `k` calls of `next`.
unfoldable pub after_calls : ℕ → Pool → Pool
after_calls zero p = p
after_calls (suc k) p = after_calls k (next p).1

clients-next : (p : Pool) → (next p).1.clients ≡ p.clients
unfolding next
clients-next p = refl

index-after_calls :
    (k : ℕ) (p : Pool)
    → IsValid p
    → ((after_calls k p).index ≡ (p.index + k) % length p.clients)
      × ((after_calls k p).clients ≡ p.clients)
unfolding after_calls next
index-after_calls zero p v =
    (sym (ap (λ i. i % length p.clients) (add-zero p.index) ∙ mod-eq_of_lt v.inside), refl)
index-after_calls (suc k) p v =
    let (i, cs) = index-after_calls k (next p).1 (next-IsValid p v) in
    (
      i
          ∙ mod-add-mod (p.index + 1) (length p.clients) k
          ∙ ap (λ n. n % length p.clients) (omega arith),
      cs,
    )

-- From a pool whose index is at a client, the call of `next` after `k` others returns a client,
-- and it is the one `k` places on from the index, round the end.
pub next_round_robin :
    (k : ℕ) (p : Pool)
    → IsValid p
    → (c : Client) × ((next (after_calls k p)).0 ≡ some c)
      × (get_elem? p.clients ((p.index + k) % length p.clients) ≡ some c)
unfolding next
next_round_robin k p v =
    let (i, cs) = index-after_calls k p v in
    let (c, here) =
      get_elem?-some p.clients ((p.index + k) % length p.clients)
        (mod-lt (p.index + k) (omega (arith, v.inside))) in
    (c, cc (i, cs, here), here)

count_pos : (size : Option ℤ) → 0 < count_of size
count_pos size = ground arith

make_clients-replicate : (n : ℕ) (c : Client) → make_clients n (ok c) ≡ ok (replicate n c)
unfolding make_clients
make_clients-replicate zero c = refl
make_clients-replicate (suc n) c = rw (make_clients-replicate n c)

new_client_opens :
    (host : String) (api_key : Option String) (options : Option ClientOptions)
    → host ≢ ""
    → new_client host api_key options ≡ ok (opened_client host api_key (normalize_options options))
unfolding new_client
new_client_opens host api_key options h = rw (is_empty_str-false host h)

-- With a host that is not empty, the constructor of a pool returns one whose index is at its
-- first client, with as many clients as asked for, or one if none is asked for.
pub new_pool-IsValid :
    (host : String) (api_key : Option String) (options : Option ClientOptions) (size : Option ℤ)
    → host ≢ ""
    → (p : Pool) × (new_pool host api_key options size ≡ ok p)
      × IsValid p
      × (p.index ≡ 0)
      × (length p.clients ≡ count_of size)
unfolding new_pool
new_pool-IsValid host api_key options size h =
    let c = opened_client host api_key (normalize_options options) in
    (
      record { clients = replicate (count_of size) c; index = 0 },
      ap pool_of (
          ap (make_clients (count_of size)) (new_client_opens host api_key options h)
          ∙ make_clients-replicate (count_of size) c),
      record { inside = omega (arith, count_pos size, length-replicate (count_of size) c) },
      refl,
      length-replicate (count_of size) c,
    )

-- After a pool is closed, the channel of every client in it is closed.
pub close_all_closes : (p : Pool) → All (λ c. c.channel.is_closed ≡ true) (close_all p).clients
unfolding close_all close
close_all_closes p = closed p.clients
  where
    closed : (cs : List Client) → All (λ c. c.channel.is_closed ≡ true) (map close cs)
    closed [] = tt
    closed (c ∷ cs) = (refl, closed cs)
