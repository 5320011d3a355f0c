-- ===== src/Client/Retry/Backoff.antt =====
-- How long `computeBackoffMs` of clientlibs/js/src/client.ts makes a retry wait.
use vectron.Prelude.{
  ◌⊎◌, inl, inr, Bool-cases, ◌∙◌, subst, ap, ℕ, zero, suc, ◌+◌, ◌*◌, ◌/◌, ◌≤◌, ◌<◌, max, ◌≡◌, refl,
  none, some, arith, ltb, ℤ, pos, pos_part, ◌+ℤ◌, ◌*ℤ◌, sub_ℕ, floor_div, pos_part-sub_ℕ,
  pos_part-+ℤ-le, pos_part-*ℤ_pos-le, pos_part-pos_*ℤ-le, pos_part-floor_div, max_ℕ_zero, ◌≤ℤ◌,
  or_else, if◌then◌else◌,
}
use vectron.Client.Options.{Options}
use vectron.Client.Retry.{
  Timers, compute_backoff_ms, rounds_before, jittered, over_cap, backoff_rounds, plain_backoff,
  initial_backoff, multiplier_of,
}

over_cap-some : (cap b : ℕ) → 0 < cap → b ≤ cap → over_cap (some (pos cap)) b ≡ none
unfolding over_cap
over_cap-some cap b h k = ground arith

over_cap_above : (cap b : ℕ) → 0 < cap → cap < b → over_cap (some (pos cap)) b ≡ some (pos cap)
unfolding over_cap
over_cap_above cap b h k = ground arith

-- With a cap that is set, the loop stays under the larger of the cap and its first backoff.
pub backoff_rounds-le :
    (cap m n b : ℕ) → 0 < cap → backoff_rounds (some (pos cap)) m n b ≤ℤ pos (max b cap)
unfolding backoff_rounds
backoff_rounds-le cap m zero b h = omega arith
backoff_rounds-le cap m (suc n) b h = ground (
  arith,
  over_cap-some cap (b * m / 1000),
  over_cap_above cap (b * m / 1000),
  backoff_rounds-le cap m n (b * m / 1000),
)

grown : (b m : ℕ) → 2000 ≤ m → b ≤ b * m / 1000
grown b m h = grind arith

-- One round more never waits less, if the cap is not below the first backoff.
backoff_rounds_mono :
    (cap m n b : ℕ)
    → 2000 ≤ m
    → 0 < cap
    → b ≤ cap
    → backoff_rounds (some (pos cap)) m n b ≤ℤ backoff_rounds (some (pos cap)) m (suc n) b
unfolding backoff_rounds
backoff_rounds_mono cap m zero b hm hc hb =
    ground (arith, grown b m, over_cap-some cap (b * m / 1000), over_cap_above cap (b * m / 1000))
backoff_rounds_mono cap m (suc n) b hm hc hb = ground (
  arith,
  over_cap-some cap (b * m / 1000),
  over_cap_above cap (b * m / 1000),
  backoff_rounds_mono cap m n (b * m / 1000),
)

times_le : (b : ℕ) {x y : ℕ} → x ≤ y → b * x ≤ b * y
times_le b h = grind arith

scale_le :
    (j draw : ℕ)
    → draw ≤ 1000
    → pos_part (pos 1000000 +ℤ sub_ℕ (2 * draw) 1000 *ℤ pos j) ≤ 1000000 + 1000 * j
scale_le j draw h =
    let z : ℤ = sub_ℕ (2 * draw) 1000 in
    let part : pos_part z ≤ 1000 = omega (arith, pos_part-sub_ℕ (2 * draw) 1000) in
    let product : pos_part z * j ≤ 1000 * j = grind arith in
    omega (arith, pos_part-+ℤ-le (pos 1000000) (z *ℤ pos j), pos_part-*ℤ_pos-le z j)

-- The jitter adds its own fraction at most.
pub jittered-le :
    (b j draw : ℕ) → draw ≤ 1000 → 1000 * pos_part (jittered (pos b) (pos j) draw) ≤ b * (1000 + j)
unfolding jittered
jittered-le b j draw h =
    let s : ℤ = pos 1000000 +ℤ sub_ℕ (2 * draw) 1000 *ℤ pos j in
    let top : b * pos_part s ≤ b * (1000000 + 1000 * j) = times_le b (scale_le j draw h) in
    omega (
      arith,
      max_ℕ_zero (floor_div (pos b *ℤ s) 1000000),
      pos_part-floor_div (pos b *ℤ s) 1000000,
      pos_part-pos_*ℤ-le b s,
    )

le_or_lt : (a b : ℕ) → (a ≤ b) ⊎ (b < a)
le_or_lt a b = grind arith

backoff_rounds-nonneg :
    (cap m n b : ℕ) → 0 < cap → (k : ℕ) × (backoff_rounds (some (pos cap)) m n b ≡ pos k)
unfolding backoff_rounds
backoff_rounds-nonneg cap m zero b h = (b, refl)
backoff_rounds-nonneg cap m (suc n) b h =
    let (k, e) = backoff_rounds-nonneg cap m n (b * m / 1000) h in
    elim (le_or_lt (b * m / 1000) cap) [
      | inl small ↦ (k, ground (arith, over_cap-some cap (b * m / 1000)))
      | inr large ↦ (cap, ground (arith, over_cap_above cap (b * m / 1000)))
    ]

waits_le :
    (k j m draw : ℕ) {z : ℤ}
    → z ≡ (if ltb 0 j then jittered (pos k) (pos j) draw else pos k)
    → k * (1000 + j) ≤ m * (1000 + j)
    → draw ≤ 1000
    → 1000 * pos_part z ≤ m * (1000 + j)
waits_le k j m draw e h d = elim (Bool-cases (ltb 0 j)) [
  | inl t ↦ rw e (rw t (omega (arith, jittered-le k j draw d)))
  | inr f ↦ rw e (rw f (ground arith))
]

compute_backoff_ms-jitter :
    {W : Type 0} (timers : Timers W) (o : Options) (attempt : ℕ) (w : W) (j : ℕ)
    → or_else o.retry_jitter (pos 0) ≡ pos j
    → (compute_backoff_ms timers o attempt w).0 ≡ (
        if ltb 0 j
        then jittered (plain_backoff o attempt) (pos j) (timers.random w).0
        else plain_backoff o attempt)
unfolding compute_backoff_ms
compute_backoff_ms-jitter timers o attempt w j hj = ground arith

-- With a positive `retryMaxBackoffMs`, a jitter that is not negative and a draw of at most 1, a
-- retry waits no longer than the larger of the cap and the first backoff, times one and the
-- jitter.
pub compute_backoff_ms-le :
    {W : Type 0} (timers : Timers W) (o : Options) (attempt : ℕ) (w : W) (cap j : ℕ)
    → o.retry_max_backoff_ms ≡ some (pos cap)
    → 0 < cap
    → or_else o.retry_jitter (pos 0) ≡ pos j
    → (timers.random w).0 ≤ 1000
    → 1000 * pos_part (compute_backoff_ms timers o attempt w).0
      ≤ max (initial_backoff o) cap * (1000 + j)
unfolding plain_backoff
compute_backoff_ms-le timers o attempt w cap j hc positive hj draws =
    let rounds = rounds_before attempt in
    let b = initial_backoff o in
    let (k, e) = backoff_rounds-nonneg cap (multiplier_of o) rounds b positive in
    let under = backoff_rounds-le cap (multiplier_of o) rounds b positive in
    let k_le : k ≤ max b cap = ground arith in
    let scaled : k * (1000 + j) ≤ max b cap * (1000 + j) = grind arith in
    let plain : plain_backoff o attempt ≡ pos k =
      ap (λ c. backoff_rounds c (multiplier_of o) rounds b) hc ∙ e in
    let value : (compute_backoff_ms timers o attempt w).0
        ≡ (if ltb 0 j then jittered (pos k) (pos j) (timers.random w).0 else pos k) =
      subst
        (λ p.
          (compute_backoff_ms timers o attempt w).0
          ≡ (if ltb 0 j then jittered p (pos j) (timers.random w).0 else p))
        plain (compute_backoff_ms-jitter timers o attempt w j hj) in
    waits_le k j (max b cap) (timers.random w).0 value scaled draws
