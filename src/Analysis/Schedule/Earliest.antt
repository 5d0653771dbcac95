-- ===== src/Analysis/Schedule/Earliest.antt =====
-- The next reconciliation is at the earliest time that any metric is due.
use intuit_argo_rollouts_dem.Prelude.{
  ◌≡◌, refl, sym, ◌∙◌, Option, none, some, List, [], ◌∷◌, ◌≤ℤ◌, ◌⊎◌, inl, inr, All, Any, arith,
  All-map, Any-map,
}
use intuit_argo_rollouts_dem.Analysis.Types.{Library, Time, Metric, AnalysisRun}
use mathlib.Core.Option.{none-ne-some}
use intuit_argo_rollouts_dem.Analysis.Schedule.Due.{IsDueAt, due_time-some, due_time-IsDueAt}
use intuit_argo_rollouts_dem.Analysis.Schedule.{
  earlier, due_time, next_from, calculate_next_reconcile_time,
}

-- `best` is no later than the time `t`, if that is a time.
abbrev pub NoLater : Option Time → Option Time → Type 0
NoLater best none = Unit
NoLater none (some t) = ⊥
NoLater (some best) (some t) = best ≤ℤ t

earlier-NoLater : (a b : Option Time) → NoLater (earlier a b) a × NoLater (earlier a b) b
unfolding earlier
earlier-NoLater none none = (tt, tt)
earlier-NoLater none (some t) = (tt, omega arith)
earlier-NoLater (some a) none = (omega arith, tt)
earlier-NoLater (some a) (some b) = (ground arith, ground arith)

NoLater-trans : (a b c : Option Time) → NoLater a b → NoLater b c → NoLater a c
NoLater-trans a b none h k = tt
NoLater-trans a none (some c) h k = absurd k
NoLater-trans none (some b) (some c) h k = h
NoLater-trans (some a) (some b) (some c) h k = omega arith

NoLater-refl : (a : Option Time) → NoLater a a
NoLater-refl none = tt
NoLater-refl (some a) = omega arith

earlier_either : (a b : Option Time) → (earlier a b ≡ a) ⊎ (earlier a b ≡ b)
unfolding earlier
earlier_either a b = ground arith

module _ (lib : Library) (now : Time) (run : AnalysisRun) where
  next_from-NoLater :
      (ms : List Metric) (best : Option Time)
      → NoLater (next_from lib now run best ms) best
        × All (λ m. NoLater (next_from lib now run best ms) (due_time lib now run m)) ms
  unfolding next_from
  next_from-NoLater [] best = (NoLater-refl best, tt)
  next_from-NoLater (m ∷ ms) best =
      let due = due_time lib now run m in
      let (below, all) = next_from-NoLater ms (earlier best due) in
      let (left, right) = earlier-NoLater best due in
      (NoLater-trans _ _ best below left, (NoLater-trans _ _ due below right, all))

  next_from_source :
      (ms : List Metric) (best : Option Time)
      → (next_from lib now run best ms ≡ best)
        ⊎ Any (λ m. due_time lib now run m ≡ next_from lib now run best ms) ms
  unfolding next_from
  next_from_source [] best = inl refl
  next_from_source (m ∷ ms) best =
      let due = due_time lib now run m in
      elim (next_from_source ms (earlier best due)) [
        | inr later ↦ inr (inr later)
        | inl e ↦ elim (earlier_either best due) [
          | inl old ↦ inl (e ∙ old)
          | inr new ↦ inr (inl (sym (e ∙ new)))
        ]
      ]

  NoLater-due :
      (best : Option Time) (m : Metric)
      → NoLater best (due_time lib now run m)
      → (t : Time) → IsDueAt lib now run m t
      → NoLater best (some t)
  NoLater-due best m h t d = rw (due_time-some lib now run m t d) at h

  -- The next reconciliation is no later than any time that a metric waits for, so it is set as soon
  -- as one metric waits; and if it is set, then some metric waits for exactly that time. A metric
  -- that has not completed waits for the end of its initial delay before the first measurement, for
  -- the time to resume one in flight, and after one for the end of the interval, or of ten seconds
  -- after an error, unless the measurements are enough.
  pub calculate_next_reconcile_time-earliest :
      (ms : List Metric)
      → let next = calculate_next_reconcile_time lib now run ms in
        All (λ m. (t : Time) → IsDueAt lib now run m t → NoLater next (some t)) ms
        × ((t : Time) → next ≡ some t → Any (λ m. IsDueAt lib now run m t) ms)
  unfolding calculate_next_reconcile_time
  calculate_next_reconcile_time-earliest ms =
      let next = next_from lib now run none ms in
      (
        All-map (λ m h. NoLater-due next m h) ms (next_from-NoLater ms none).1,
        λ t e. elim (next_from_source ms none) [
          | inl k ↦ absurd (none-ne-some t (sym k ∙ e))
          | inr found ↦ Any-map (λ m k. due_time-IsDueAt lib now run m t (k ∙ e)) ms found
        ],
      )
