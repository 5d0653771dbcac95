-- ===== src/Canary/Approximate/Proper.antt =====
-- When a partial weight leaves both sides at least one replica, and when it does not.
use intuit_argo_rollouts_dem.Prelude.{
  ℕ, ◌+◌, ◌-◌, ◌*◌, ◌/◌, ◌≤◌, ◌<◌, ◌≡◌, ◌≢◌, refl, Bool, true, false, List, [], ◌∷◌, ℤ, pos, add32,
  sub32, add32-pos, sub32-pos, mul32-pos, eqb_ℤ, ltb_ℤ, ◌⊎◌, inl, inr, All, arith, Bool-cases,
}
use mathlib.Core.Bool.{false≢true}
use intuit_argo_rollouts_dem.Canary.Floats.{Float64, IsExact}
use intuit_argo_rollouts_dem.Canary.Approximate.{
  CanaryOption, floor_ceiling_tied, zero_allowed, options_of, choose, approximate_counts,
}
use intuit_argo_rollouts_dem.Canary.Approximate.Quotients.{ceil_le, floor_lt, ceil_pos, ceil_le_suc}
use intuit_argo_rollouts_dem.Canary.Approximate.Split.{best_of-All, options_of-All}

-- Both counts are positive.
abbrev pub IsProper : ℤ × ℤ → Type 0
IsProper (canary, stable) = (ltb_ℤ (pos 0) canary ≡ true) × (ltb_ℤ (pos 0) stable ≡ true)

proper : (c t : ℕ) → 0 < c → c < t → t ≤ 2147483647 → IsProper (pos c, sub32 (pos t) (pos c))
proper c t h k l = (ground arith, rw (sub32-pos t c (omega arith) l) (ground arith))

module _ (fl : Float64) where
  choose-IsProper :
      (s w m : ℤ) (os : List CanaryOption)
      → os ≢ []
      → All (λ o. IsProper (o.canary, sub32 o.total o.canary)) os
      → IsProper (choose fl s w m os)
  unfolding choose
  choose-IsProper s w m [] ne k = absurd (ne refl)
  choose-IsProper s w m (o ∷ os) ne (k, ks) =
      best_of-All fl (λ x. IsProper (x.canary, sub32 x.total x.canary)) w m o os k ks

  options_of-ne-nil :
      (s g c f : ℤ) (tied surge_tied zero : Bool)
      → ((ltb_ℤ c s ≡ true) ⊎ (ltb_ℤ (pos 0) g ≡ true))
        ⊎ ((tied ≡ false) × (eqb_ℤ f (pos 0) ≡ false))
      → options_of fl s g c f tied surge_tied zero ≢ []
  unfolding options_of
  options_of-ne-nil s g c f tied surge_tied zero h = ground arith

-- There is no option left.
abbrev pub IsStarved : Float64 → (s w m surge : ℕ) → Type 0
IsStarved fl s w m surge =
    (surge ≡ 0) × ((s * w + m - 1) / m ≡ s) × (floor_ceiling_tied fl (pos w) (pos m) (pos s) ≡ true)

module _ (fl : Float64) (exact : IsExact fl) (s w m surge : ℕ) (w_pos : 0 < w) (partial : w < m)
    (mm : m ≤ 2147483647) (ss : s ≤ 2147483646) (sw : s * w ≤ 2147483647) where
  abbrev c : ℕ
  c = (s * w + m - 1) / m

  abbrev f : ℕ
  f = s * w / m

  counts_eq :
      0 < s
      → approximate_counts fl (pos s) (pos w) (pos m) (pos surge)
        ≡ choose fl (pos s) (pos w) (pos m) (
            options_of fl
              (pos s)
              (pos surge)
              (pos c)
              (pos f)
              (floor_ceiling_tied fl (pos w) (pos m) (pos s))
              (floor_ceiling_tied fl (pos w) (pos m) (add32 (pos s) (pos 1)))
              (zero_allowed fl (pos s) (pos w) (pos m) (pos surge)))
  unfolding approximate_counts
  counts_eq h =
      let positive : eqb_ℤ (pos s) (pos 0) ≡ false = ground arith in
      rw (
        positive,
        mul32-pos s w sw,
        exact.ceil-div (s * w) m sw (omega arith) mm,
        exact.floor-div (s * w) m sw (omega arith) mm,
      )

  no_zero : (2 ≤ s) ⊎ (0 < surge) → zero_allowed fl (pos s) (pos w) (pos m) (pos surge) ≡ false
  no_zero h = ground arith

  -- For a weight strictly between 0 and the maximum, with at least two replicas, the surge
  -- included, both counts are positive, provided that a surge is allowed, or the code does not find
  -- the count tied between its floor and its ceiling, or the count rounds up to less than the
  -- replicas of the spec.
  pub approximate_counts-IsProper :
      0 < s
      → (2 ≤ s) ⊎ (0 < surge)
      → (0 < surge)
        ⊎ ((floor_ceiling_tied fl (pos w) (pos m) (pos s) ≡ false) ⊎ ((s * w + m - 1) / m < s))
      → IsProper (approximate_counts fl (pos s) (pos w) (pos m) (pos surge))
  approximate_counts-IsProper h two some_option =
      let no = no_zero two in
      let up = add32-pos s 1 (omega arith) in
      let low = ceil_pos s w m h w_pos (omega arith) in
      let high = ceil_le s w m (omega arith) (omega arith) in
      let floored = floor_lt s w m partial h in
      let gap = ceil_le_suc (s * w) m (omega arith) in
      rw (counts_eq h) (
        choose-IsProper fl (pos s) (pos w) (pos m) _
          (options_of-ne-nil fl (pos s) (pos surge) (pos c) (pos f) _ _ _ (ground arith))
          (options_of-All fl _ (pos s) (pos surge) (pos c) (pos f) _ _ _
            (λ e. proper c s low (ground arith) (omega arith))
            (λ e. proper f s (ground arith) floored (omega arith))
            (λ e. rw up (proper c (s + 1) low (omega arith) (omega arith)))
            (λ e d. rw up (proper f (s + 1) (ground arith) (omega arith) (omega arith)))))

  without_options :
      0 < s
      → (2 ≤ s) ⊎ (0 < surge)
      → IsStarved fl s w m surge
      → approximate_counts fl (pos s) (pos w) (pos m) (pos surge) ≡ (pos 0, pos s)
  unfolding options_of choose
  without_options h two (none_left, full, tied) =
      let no = no_zero two in
      let not_less : ltb_ℤ (pos c) (pos s) ≡ false = ground arith in
      let no_surge : ltb_ℤ (pos 0) (pos surge) ≡ false = ground arith in
      rw (counts_eq h) (rw (no, tied, not_less, no_surge))

  starved :
      0 < s
      → (2 ≤ s) ⊎ (0 < surge)
      → (approximate_counts fl (pos s) (pos w) (pos m) (pos surge)).0 ≡ pos 0
      → IsStarved fl s w m surge
  starved h two e =
      let proper_only : ((0 < surge)
            ⊎ ((floor_ceiling_tied fl (pos w) (pos m) (pos s) ≡ false) ⊎ ((s * w + m - 1) / m < s)))
          → ⊥ =
        λ o. false≢true (rw e at (approximate_counts-IsProper h two o).0) in
      let no_surge : ¬ (0 < surge) = λ g. proper_only (inl g) in
      let full : ¬ ((s * w + m - 1) / m < s) = λ g. proper_only (inr (inr g)) in
      elim (Bool-cases (floor_ceiling_tied fl (pos w) (pos m) (pos s))) [
        | inr n ↦ absurd (proper_only (inr (inl n)))
        | inl tied ↦ (
          omega (arith, no_surge),
          omega (arith, full, ceil_le s w m (omega arith) (omega arith)),
          tied,
        )
      ]

  -- For a weight strictly between 0 and the maximum, with at least two replicas, the surge
  -- included, the canary has no replica in exactly one case: without a surge, where its count
  -- rounds up to the replicas of the spec and the code finds it tied between its floor and its
  -- ceiling. Then all replicas are of the stable ReplicaSet.
  pub approximate_counts-starves :
      0 < s
      → (2 ≤ s) ⊎ (0 < surge)
      → ((approximate_counts fl (pos s) (pos w) (pos m) (pos surge)).0 ≡ pos 0
          → IsStarved fl s w m surge)
        × (IsStarved fl s w m surge
            → approximate_counts fl (pos s) (pos w) (pos m) (pos surge) ≡ (pos 0, pos s))
  approximate_counts-starves h two = (starved h two, without_options h two)
