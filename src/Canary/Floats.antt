-- ===== src/Canary/Floats.antt =====
-- The float64 operations that the code uses, as a parameter, and what it relies on: a quotient of
-- integers in range is rounded to the right integer.
pub mod Rational
use intuit_argo_rollouts_dem.Prelude.{ℕ, ◌+◌, ◌-◌, ◌*◌, ◌/◌, ◌≤◌, ◌<◌, ◌≡◌, Bool, ℤ, pos}

pub record Float64 : Type 1 where
  pub F : Type 0
  -- `float64(n)`
  pub of_int : ℤ → F
  pub mul : F → F → F
  pub div : F → F → F
  -- `math.Abs(x - y)`
  pub distance : F → F → F
  -- `x < y`
  pub is_less : F → F → Bool
  -- `int32(math.Ceil(x))`, `int32(math.Floor(x))`
  pub ceil : F → ℤ
  pub floor : F → ℤ
  -- Whether the fraction that `math.Modf` gives is 0.5.
  pub has_half : F → Bool

-- For integers below 2^31 the quotient has a rounding error too small to reach the next integer; so
-- too for a product below 2^53, which is exact, over such an integer. The conversion to int32 keeps
-- what is in its range, and nothing is said of a quotient beyond that.
pub record IsExact (fl : Float64) : Type 0 where
  pub ceil-div :
      (a b : ℕ)
      → a ≤ 2147483647
      → 0 < b
      → b ≤ 2147483647
      → fl.ceil (fl.div (fl.of_int (pos a)) (fl.of_int (pos b))) ≡ pos ((a + b - 1) / b)
  pub floor-div :
      (a b : ℕ)
      → a ≤ 2147483647
      → 0 < b
      → b ≤ 2147483647
      → fl.floor (fl.div (fl.of_int (pos a)) (fl.of_int (pos b))) ≡ pos (a / b)
  pub ceil-div-mul :
      (a b c : ℕ)
      → a * b < 9007199254740992
      → 0 < c
      → c ≤ 2147483647
      → (a * b + c - 1) / c ≤ 2147483647
      → fl.ceil (fl.div (fl.mul (fl.of_int (pos a)) (fl.of_int (pos b))) (fl.of_int (pos c)))
        ≡ pos ((a * b + c - 1) / c)
