-- ===== src/Prelude/Int.antt =====
-- Signed integers over the native numbers, under the library's names, and Go's int32 arithmetic on
-- them. Sums and orders go through the two parts of an integer, which are numbers.
use Prim.Native.Nat.{ℕ, suc, ◌+◌, ◌-◌, ◌*◌, ◌%◌, ◌^◌, ◌≤◌}
use mathlib.Core.Path.{◌≡◌}
use mathlib.Core.Logic.{◌⊎◌}
use mathlib.Core.Bool.{Bool}
use native.Mathlib.Omega.{arith}
use intuit_argo_rollouts_dem.Prelude.Tests.{ltb, leb, ◌==◌, if◌then◌else◌}

-- `negsuc n` is -(n + 1).
pub data ℤ : Type 0 where
  pos : ℕ → ℤ
  negsuc : ℕ → ℤ

abbrev pub pos_part : ℤ → ℕ
pos_part (pos n) = n
pos_part (negsuc n) = 0

abbrev pub neg_part : ℤ → ℕ
neg_part (pos n) = 0
neg_part (negsuc n) = suc n

-- a - b, as an integer.
abbrev pub sub_ℕ : ℕ → ℕ → ℤ
sub_ℕ a b = if leb b a then pos (a - b) else negsuc (b - a - 1)

infixl 65 ◌+ℤ◌ ◌-ℤ◌
infixl 70 ◌*ℤ◌
infix 50 ◌≤ℤ◌
unfoldable pub ◌+ℤ◌ : ℤ → ℤ → ℤ
a +ℤ b = sub_ℕ (pos_part a + pos_part b) (neg_part a + neg_part b)

unfoldable pub ◌-ℤ◌ : ℤ → ℤ → ℤ
a -ℤ b = sub_ℕ (pos_part a + neg_part b) (neg_part a + pos_part b)

unfoldable pub ◌*ℤ◌ : ℤ → ℤ → ℤ
a *ℤ b =
    sub_ℕ (pos_part a * pos_part b + neg_part a * neg_part b)
      (pos_part a * neg_part b + neg_part a * pos_part b)

abbrev pub ◌≤ℤ◌ : ℤ → ℤ → Type 0
a ≤ℤ b = pos_part a + neg_part b ≤ pos_part b + neg_part a

abbrev pub ltb_ℤ : ℤ → ℤ → Bool
ltb_ℤ a b = ltb (pos_part a + neg_part b) (pos_part b + neg_part a)

abbrev pub leb_ℤ : ℤ → ℤ → Bool
leb_ℤ a b = leb (pos_part a + neg_part b) (pos_part b + neg_part a)

abbrev pub eqb_ℤ : ℤ → ℤ → Bool
eqb_ℤ a b = (pos_part a + neg_part b) == (pos_part b + neg_part a)

pub +ℤ_parts :
    (a b : ℤ)
    → pos_part (a +ℤ b) + neg_part a + neg_part b ≡ neg_part (a +ℤ b) + pos_part a + pos_part b
unfolding ◌+ℤ◌
+ℤ_parts a b = ground arith

pub -ℤ_parts :
    (a b : ℤ)
    → pos_part (a -ℤ b) + neg_part a + pos_part b ≡ neg_part (a -ℤ b) + pos_part a + neg_part b
unfolding ◌-ℤ◌
-ℤ_parts a b = ground arith

pub eq_of_parts : (a b : ℤ) → pos_part a + neg_part b ≡ pos_part b + neg_part a → a ≡ b
eq_of_parts a b h = ground arith

pub parts_disjoint : (z : ℤ) → (pos_part z ≡ 0) ⊎ (neg_part z ≡ 0)
parts_disjoint z = ground arith

pub ruleset int_laws = (arith, +ℤ_parts, -ℤ_parts, eq_of_parts)

-- Go's conversion `int32(z)`: the representative of z modulo 2^32 in [-2^31, 2^31).
unfoldable pub int32 : ℤ → ℤ
int32 (pos n) = let r = n % 2 ^ 32 in if ltb r (2 ^ 31) then pos r else negsuc (2 ^ 32 - 1 - r)
int32 (negsuc n) = let r = n % 2 ^ 32 in if ltb r (2 ^ 31) then negsuc r else pos (2 ^ 32 - 1 - r)

abbrev pub IsInt32 : ℤ → Type 0
IsInt32 z = (pos_part z ≤ 2147483647) × (neg_part z ≤ 2147483648)

-- A value in range is left as it is.
pub int32-eq : (z : ℤ) → IsInt32 z → int32 z ≡ z
unfolding int32
int32-eq (pos n) h = ground arith
int32-eq (negsuc n) h = ground arith

-- Every result is in range.
pub int32-IsInt32 : (z : ℤ) → IsInt32 (int32 z)
unfolding int32
int32-IsInt32 (pos n) = ground arith
int32-IsInt32 (negsuc n) = ground arith

-- int32 arithmetic.
unfoldable pub add32 : ℤ → ℤ → ℤ
add32 a b = int32 (a +ℤ b)

unfoldable pub sub32 : ℤ → ℤ → ℤ
sub32 a b = int32 (a -ℤ b)

unfoldable pub mul32 : ℤ → ℤ → ℤ
mul32 a b = int32 (a *ℤ b)

+ℤ_pos : (a b : ℕ) → pos a +ℤ pos b ≡ pos (a + b)
unfolding ◌+ℤ◌
+ℤ_pos a b = ground arith

-ℤ_pos : (a b : ℕ) → b ≤ a → pos a -ℤ pos b ≡ pos (a - b)
unfolding ◌-ℤ◌
-ℤ_pos a b h = ground arith

*ℤ_pos : (a b : ℕ) → pos a *ℤ pos b ≡ pos (a * b)
unfolding ◌*ℤ◌
*ℤ_pos a b = ground arith

-- On natural numbers whose result is in range they are those of the natural numbers.
pub add32-pos : (a b : ℕ) → a + b ≤ 2147483647 → add32 (pos a) (pos b) ≡ pos (a + b)
unfolding add32
add32-pos a b h = rw (+ℤ_pos a b) (int32-eq (pos (a + b)) (omega arith))

pub sub32-pos : (a b : ℕ) → b ≤ a → a ≤ 2147483647 → sub32 (pos a) (pos b) ≡ pos (a - b)
unfolding sub32
sub32-pos a b h k = rw (-ℤ_pos a b h) (int32-eq (pos (a - b)) (omega arith))

pub mul32-pos : (a b : ℕ) → a * b ≤ 2147483647 → mul32 (pos a) (pos b) ≡ pos (a * b)
unfolding mul32
mul32-pos a b h = rw (*ℤ_pos a b) (int32-eq (pos (a * b)) (omega arith))
