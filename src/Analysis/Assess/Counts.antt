-- ===== src/Analysis/Assess/Counts.antt =====
-- When enough measurements of a metric were taken, in terms of its fields.
use intuit_argo_rollouts_dem.Prelude.{
  ◌≡◌, refl, Bool, true, false, Option, none, some, ℤ, pos, arith, leb_ℤ, eqb_ℤ, int32, str_eq,
  ◌&&◌, if◌then◌else◌,
}
use intuit_argo_rollouts_dem.Analysis.Types.{
  IntOrString, from_int, Library, MetricResult, Metric, effective_count, count_unset,
}
use intuit_argo_rollouts_dem.Analysis.Assess.Limits.{count_reached, reached}

abbrev pub number_or : Library → ℤ → Option IntOrString → ℤ
number_or lib default none = default
number_or lib default (some limit) = lib.int_value limit

-- As many as the count asks for; where it asks for none, one of a metric without an interval.
abbrev pub is_enough : Library → Metric → ℤ → Bool
is_enough lib metric n =
    if eqb_ℤ (number_or lib (pos 0) metric.count) (pos 0)
    then str_eq metric.interval "" && leb_ℤ (int32 (lib.int_value (from_int (pos 1)))) n
    else leb_ℤ (int32 (number_or lib (pos 0) metric.count)) n

enough-by :
    (lib : Library) (count : Option IntOrString) (once : Bool) (n : ℤ)
    → reached lib
        (if count_unset lib count then (if once then some (from_int (pos 1)) else none) else count)
        n
      ≡ (if eqb_ℤ (number_or lib (pos 0) count) (pos 0)
          then once && leb_ℤ (int32 (lib.int_value (from_int (pos 1)))) n
          else leb_ℤ (int32 (number_or lib (pos 0) count)) n)
unfolding reached count_unset
enough-by lib none true n = refl
enough-by lib none false n = refl
enough-by lib (some c) true n = ground arith
enough-by lib (some c) false n = ground arith

pub count_reached-eq :
    (lib : Library) (metric : Metric) (r : MetricResult)
    → count_reached lib metric r ≡ is_enough lib metric r.count
unfolding count_reached effective_count
count_reached-eq lib metric r = enough-by lib metric.count (str_eq metric.interval "") r.count
