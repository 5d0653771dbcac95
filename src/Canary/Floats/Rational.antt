-- ===== src/Canary/Floats/Rational.antt =====
-- The parameter can be met: fractions of natural numbers, on which every operation is exact, and whose
-- rounded values are converted to an int32.
use intuit_argo_rollouts_dem.Prelude.{
  ℕ, ◌+◌, ◌-◌, ◌*◌, ◌/◌, ◌%◌, ◌≤◌, ◌<◌, ◌≡◌, pos, pos_part, ltb, ◌==◌, leb, int32, int32-eq, arith,
  if◌then◌else◌,
}
use native.Mathlib.Nat.{mul-one, one-mul, div-le_self}
use intuit_argo_rollouts_dem.Canary.Approximate.Quotients.{ceil_le}
use intuit_argo_rollouts_dem.Canary.Floats.{Float64, IsExact}

abbrev pub rational : Float64
rational = record {
  F = ℕ × ℕ;
  of_int = λ z. (pos_part z, 1);
  mul = λ x y. (x.0 * y.0, x.1 * y.1);
  div = λ x y. (x.0 * y.1, x.1 * y.0);
  distance = λ x y. (
    if leb (x.0 * y.1) (y.0 * x.1) then y.0 * x.1 - x.0 * y.1 else x.0 * y.1 - y.0 * x.1,
    x.1 * y.1,
  );
  is_less = λ x y. ltb (x.0 * y.1) (y.0 * x.1);
  ceil = λ x. int32 (pos ((x.0 + x.1 - 1) / x.1));
  floor = λ x. int32 (pos (x.0 / x.1));
  has_half = λ x. (2 * (x.0 % x.1)) == x.1;
}

in_range : (n : ℕ) → n ≤ 2147483647 → int32 (pos n) ≡ pos n
in_range n h = int32-eq (pos n) (omega arith)

ceil_small : (a b : ℕ) → a ≤ 2147483647 → 0 < b → (a + b - 1) / b ≤ 2147483647
ceil_small a b h k =
    let small : (a * 1 + b - 1) / b ≤ a = ceil_le a 1 b (omega arith) k in
    omega (arith, h, simp mul-one at small)

pub rational-IsExact : IsExact rational
rational-IsExact = record {
  ceil-div = λ a b h k l. simp (mul-one, one-mul) (in_range ((a + b - 1) / b) (ceil_small a b h k));
  floor-div =
      λ a b h k l. simp (mul-one, one-mul) (in_range (a / b) (omega (arith, h, div-le_self a b)));
  ceil-div-mul = λ a b c h k l q. simp (mul-one, one-mul) (in_range ((a * b + c - 1) / c) q);
}
