-- ===== src/Common.antt =====
-- Times, durations, and what the code takes from other libraries.
use intuit_argo_rollouts_dem.Prelude.{suc, ◌/◌, String, Bool, Option, ℤ, pos, negsuc, ◌-ℤ◌, ltb_ℤ}

-- A point in time and a span of it, in nanoseconds.
abbrev pub Time : Type 0
Time = ℤ

abbrev pub Duration : Type 0
Duration = ℤ

-- `t.After(u)`
abbrev pub after : Time → Time → Bool
after t u = ltb_ℤ u t

-- Whole seconds, as `int32(d.Seconds())` rounds them towards zero before it converts.
unfoldable pub whole_seconds : Duration → ℤ
whole_seconds (pos n) = pos (n / 1_000_000_000)
whole_seconds (negsuc n) = pos 0 -ℤ pos (suc n / 1_000_000_000)

-- `intstr.IntOrString`.
pub data IntOrString : Type 0 where
  from_int : ℤ → IntOrString
  from_string : String → IntOrString

-- `IntOrString.IntValue`, `time.ParseDuration` and `strconv.ParseInt(s, 10, 32)`.
pub record Library : Type 0 where
  pub int_value : IntOrString → ℤ
  pub parse_duration : String → Option Duration
  pub parse_int32 : String → Option ℤ
