-- ===== src/Prelude/Integers.antt =====
-- Signed integers over the native numbers. A JavaScript number that the client uses as a count, a
-- size or a time is such an integer; fractions are scaled, where they occur.
use Prim.Native.Nat.{ℕ, suc, ◌+◌, ◌-◌, ◌*◌, ◌/◌, ◌≤◌, ◌<◌}
use mathlib.Core.Bool.{Bool, false}
use mathlib.Core.Path.{◌≡◌, refl}
use native.Mathlib.Omega.{arith}
use vectron.Prelude.Tests.{ltb, leb, ◌==◌, if◌then◌else◌}

-- `negsuc n` is -(n + 1).
pub data ℤ : Type 0 where
  pos : ℕ → ℤ
  negsuc : ℕ → ℤ

abbrev pub pos_part : ℤ → ℕ
pos_part (pos n) = n
pos_part (negsuc n) = 0

abbrev pub neg_part : ℤ → ℕ
neg_part (pos n) = 0
neg_part (negsuc n) = suc n

abbrev pub sub_ℕ : ℕ → ℕ → ℤ
sub_ℕ a b = if leb b a then pos (a - b) else negsuc (b - a - 1)

infixl 65 ◌+ℤ◌
infixl 70 ◌*ℤ◌
infix 50 ◌≤ℤ◌ ◌<ℤ◌
abbrev pub ◌+ℤ◌ : ℤ → ℤ → ℤ
a +ℤ b = sub_ℕ (pos_part a + pos_part b) (neg_part a + neg_part b)

abbrev pub ◌*ℤ◌ : ℤ → ℤ → ℤ
a *ℤ b =
    sub_ℕ (pos_part a * pos_part b + neg_part a * neg_part b)
      (pos_part a * neg_part b + neg_part a * pos_part b)

abbrev pub ◌≤ℤ◌ : ℤ → ℤ → Type 0
a ≤ℤ b = pos_part a + neg_part b ≤ pos_part b + neg_part a

abbrev pub ◌<ℤ◌ : ℤ → ℤ → Type 0
a <ℤ b = pos_part a + neg_part b < pos_part b + neg_part a

abbrev pub ltb_ℤ : ℤ → ℤ → Bool
ltb_ℤ a b = ltb (pos_part a + neg_part b) (pos_part b + neg_part a)

abbrev pub leb_ℤ : ℤ → ℤ → Bool
leb_ℤ a b = leb (pos_part a + neg_part b) (pos_part b + neg_part a)

-- `!z`
abbrev pub is_zero : ℤ → Bool
is_zero (pos n) = n == 0
is_zero (negsuc n) = false

abbrev pub eqb_ℤ : ℤ → ℤ → Bool
eqb_ℤ a b = pos_part a + neg_part b == pos_part b + neg_part a

-- `Math.max(z, n)` for a natural number n.
abbrev pub max_ℕ : ℤ → ℕ → ℕ
max_ℕ (pos m) n = if ltb m n then n else m
max_ℕ (negsuc m) n = n

-- `Math.floor(z / d)` for a positive d.
abbrev pub floor_div : ℤ → ℕ → ℤ
floor_div (pos n) d = pos (n / d)
floor_div (negsuc n) d = negsuc (n / d)

-- Upper bounds of the positive part, one for each operation, for `omega`.
pub pos_part-sub_ℕ : (a b : ℕ) → pos_part (sub_ℕ a b) ≡ a - b
pos_part-sub_ℕ a b = ground arith

pub pos_part-+ℤ-le : (a b : ℤ) → pos_part (a +ℤ b) ≤ pos_part a + pos_part b
pos_part-+ℤ-le a b =
    omega (arith, pos_part-sub_ℕ (pos_part a + pos_part b) (neg_part a + neg_part b))

pub pos_part-*ℤ_pos-le : (a : ℤ) (n : ℕ) → pos_part (a *ℤ pos n) ≤ pos_part a * n
pos_part-*ℤ_pos-le a n =
    omega
      (arith, pos_part-sub_ℕ (pos_part a * n + neg_part a * 0) (pos_part a * 0 + neg_part a * n))

pub pos_part-pos_*ℤ-le : (n : ℕ) (a : ℤ) → pos_part (pos n *ℤ a) ≤ n * pos_part a
pos_part-pos_*ℤ-le n a =
    omega
      (arith, pos_part-sub_ℕ (n * pos_part a + 0 * neg_part a) (n * neg_part a + 0 * pos_part a))

pub pos_part-floor_div : (a : ℤ) (d : ℕ) → pos_part (floor_div a d) ≡ pos_part a / d
pos_part-floor_div (pos n) d = refl
pos_part-floor_div (negsuc n) d = omega arith

pub max_ℕ_zero : (a : ℤ) → max_ℕ a 0 ≡ pos_part a
max_ℕ_zero (pos n) = ground arith
max_ℕ_zero (negsuc n) = refl

pub max_ℕ-ge : (a : ℤ) (n : ℕ) → n ≤ max_ℕ a n
max_ℕ-ge (pos m) n = ground arith
max_ℕ-ge (negsuc m) n = omega arith

pub pos-+ℤ : (m n : ℕ) → pos m +ℤ pos n ≡ pos (m + n)
pos-+ℤ m n = ground arith
