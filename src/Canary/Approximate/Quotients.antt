-- ===== src/Canary/Approximate/Quotients.antt =====
-- Rounded shares of a number of replicas.
use intuit_argo_rollouts_dem.Prelude.{ℕ, ◌+◌, ◌-◌, ◌*◌, ◌/◌, ◌≤◌, ◌<◌, ◌≡◌, arith}
use native.Mathlib.Nat.{lt-div-mul-add, add-mul, le_of_mul-le-mul_right}

-- A share of at most the whole rounds up to at most the whole.
pub ceil_le : (s w m : ℕ) → w ≤ m → 0 < m → (s * w + m - 1) / m ≤ s
ceil_le s w m h k = grind arith

pub floor_lt : (s w m : ℕ) → w < m → 0 < s → (s * w) / m < s
floor_lt s w m h k = grind arith

pub ceil_pos : (s w m : ℕ) → 0 < s → 0 < w → 0 < m → 0 < (s * w + m - 1) / m
ceil_pos s w m h k l = grind arith

-- What is rounded up is enough for the quotient.
pub le-ceil-mul : (x m : ℕ) → 0 < m → x ≤ (x + m - 1) / m * m
le-ceil-mul x m h = omega (arith, lt-div-mul-add {a = x + m - 1} h)

le_of_shares : (s m a b : ℕ) → 0 < m → s * m ≤ a * m + b * m → s ≤ a + b
le_of_shares s m a b h k = le_of_mul-le-mul_right {k = m} (rw (add-mul a b m) k) h

-- Two shares that make up the whole, both rounded up, are enough for the whole.
pub ceil_sum : (s v w m : ℕ) → v + w ≡ m → 0 < m → s ≤ (v * s + m - 1) / m + (w * s + m - 1) / m
ceil_sum s v w m e h = le_of_shares s m ((v * s + m - 1) / m) ((w * s + m - 1) / m) h (
    rw (← e) (
      omega (
        arith,
        le-ceil-mul (v * s) (v + w) (omega arith),
        le-ceil-mul (w * s) (v + w) (omega arith),
      )))

pub div_le_ceil : (x m : ℕ) → 0 < m → x / m ≤ (x + m - 1) / m
div_le_ceil x m h = grind arith

pub ceil_le_suc : (x m : ℕ) → 0 < m → (x + m - 1) / m ≤ x / m + 1
ceil_le_suc x m h = grind arith
