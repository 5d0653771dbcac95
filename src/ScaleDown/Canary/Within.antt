-- ===== src/ScaleDown/Canary/Within.antt =====
-- Scaling down a basic canary stays within the pods that may be scaled down.
use intuit_argo_rollouts_dem.Prelude.{
  ◌≡◌, inl, inr, refl, sym, ℕ, ◌+◌, ◌-◌, ◌≤◌, Bool, true, false, not, Option, none, some, List, [],
  ◌∷◌, ℤ, pos, negsuc, pos_part, neg_part, sub32, sub32-pos, int32-IsInt32, eqb_ℤ, ltb_ℤ, leb_ℤ,
  All, arith, is_some, if◌then◌else◌, Bool-cases,
}
use mathlib.Core.Path.{subst}
use intuit_argo_rollouts_dem.Common.{Time}
use intuit_argo_rollouts_dem.Rollout.{Rollout, CanaryStrategy}
use intuit_argo_rollouts_dem.Canary.Types.{ReplicaSet}
use intuit_argo_rollouts_dem.Canary.Fenceposts.{OfPercent}
use intuit_argo_rollouts_dem.Context.{RolloutContext, the_rollout}
use intuit_argo_rollouts_dem.ScaleDown.{
  Cluster, Action, scale, add_deadline, remove_deadline, enqueue_after,
}
use intuit_argo_rollouts_dem.ScaleDown.Canary.{
  State, Turn, goes_on, breaks, fails, scaled, scale_to, canary_turn, after_turn, scale_down_from,
  max_scale_down_of, scale_down_old_replica_sets_for_canary, cleanup_unhealthy_replicas, early,
  can_proceed_with_scale_down_annotation,
}

-- The pods that the actions take away.
abbrev pub taken : List Action → ℕ
taken [] = 0
taken (scale rs desired ∷ rest) = (pos_part rs.replicas - pos_part desired) + taken rest
taken (add_deadline rs d ∷ rest) = taken rest
taken (remove_deadline rs ∷ rest) = taken rest
taken (enqueue_after d ∷ rest) = taken rest

-- The replicas of a set are a count.
abbrev pub IsCounted : ReplicaSet → Type 0
IsCounted rs = (pos_part rs.replicas ≤ 2147483647) × (neg_part rs.replicas ≡ 0)

-- Of the pods that may be scaled down so many are left.
abbrev IsLeft : ℕ → State → Type 0
IsLeft n s = (r : ℕ) × (s.max_scale_down ≡ pos r) × (taken s.actions + r ≤ n)

HasLeft : ℕ → Turn → Type 0
HasLeft n (goes_on s) = IsLeft n s
HasLeft n (breaks s) = IsLeft n s
HasLeft n (fails s) = IsLeft n s

module _ (n : ℕ) (small : n ≤ 2147483647) where
  scaled-HasLeft :
      (s : State) (rs : ReplicaSet) (r p d : ℕ) (o : Option ReplicaSet)
      → s.max_scale_down ≡ pos r
      → taken s.actions + r ≤ n
      → rs.replicas ≡ pos p
      → d ≤ p
      → p - d ≤ r
      → p ≤ 2147483647
      → HasLeft n (scaled s rs (pos d) o)
  unfolding HasLeft scaled
  scaled-HasLeft s rs r p d none e k f l m b = (r, e, k)
  scaled-HasLeft s rs r p d (some u) e k f l m b = (
    r - (p - d),
    rw (f, sub32-pos p d l b, e, sub32-pos r (p - d) m (omega (arith, k, small))) refl,
    rw f (omega (arith, k, l, m)),
  )

  scale_to-HasLeft :
      (cl : Cluster) (s : State) (rs : ReplicaSet) (r p d : ℕ)
      → s.max_scale_down ≡ pos r
      → taken s.actions + r ≤ n
      → rs.replicas ≡ pos p
      → d ≤ p
      → p - d ≤ r
      → p ≤ 2147483647
      → HasLeft n (scale_to cl s rs (pos d))
  unfolding scale_to HasLeft
  scale_to-HasLeft cl s rs r p d e k f l m b = elim (Bool-cases (eqb_ℤ rs.replicas (pos d))) [
    | inl y ↦ rw y (r, e, k)
    | inr y ↦
        rw y (scaled-HasLeft s rs r p d (cl.update (record rs { replicas = pos d })) e k f l m b)
  ]

  -- The desired replicas of a set of an unrouted canary.
  desired-eq :
      (r p : ℕ)
      → p ≤ 2147483647
      → (if ltb_ℤ (pos r) (pos p) then sub32 (pos p) (pos r) else pos 0) ≡ pos (p - r)
  desired-eq r p b = ground (arith, sub32-pos p r)

  desired-of :
      (m q : ℤ) (r p : ℕ)
      → m ≡ pos r
      → q ≡ pos p
      → p ≤ 2147483647
      → (if ltb_ℤ m q then sub32 q m else pos 0) ≡ pos (p - r)
  desired-of m q r p e f b = rw (e, f) (desired-eq r p b)

  counted-pos : (z : ℤ) → neg_part z ≡ 0 → z ≡ pos (pos_part z)
  counted-pos (pos k) h = refl
  counted-pos (negsuc k) h = absurd (ground (arith, h))

  module _ (cl : Cluster) (now : Time) (ro : Rollout) (strategy : CanaryStrategy)
      (basic : is_some strategy.traffic_routing ≡ false) where
    canary_turn-HasLeft :
        (s : State) (rs : ReplicaSet)
        → IsCounted rs
        → IsLeft n s
        → HasLeft n (canary_turn cl now ro strategy s rs)
    unfolding canary_turn HasLeft
    canary_turn-HasLeft s rs (small_set, natural) (r, e, k) =
        let p = pos_part rs.replicas in
        let f = counted-pos rs.replicas natural in
        elim (Bool-cases (leb_ℤ s.max_scale_down (pos 0))) [
          | inl y ↦ rw (basic, y) (r, e, k)
          | inr y ↦ elim (Bool-cases (eqb_ℤ rs.replicas (pos 0))) [
            | inl z ↦ rw (basic, y, z) (r, e, k)
            | inr z ↦
                rw (basic, y, z)
                  (subst (λ d. HasLeft n (scale_to cl s rs d))
                    (sym (desired-of s.max_scale_down rs.replicas r p e f small_set))
                    (scale_to-HasLeft cl s rs r p (p - r) e k f (omega arith) (omega arith)
                      small_set))
          ]
        ]

    after_turn-IsLeft :
        (t : Turn) (continue : State → State × Bool)
        → HasLeft n t
        → ((s : State) → IsLeft n s → IsLeft n (continue s).0)
        → IsLeft n (after_turn cl now ro strategy t continue).0
    unfolding after_turn HasLeft
    after_turn-IsLeft (goes_on s) continue h k = k s h
    after_turn-IsLeft (breaks s) continue h k = h
    after_turn-IsLeft (fails s) continue h k = h

    scale_down_from-IsLeft :
        (s : State) (rss : List ReplicaSet)
        → All IsCounted rss
        → IsLeft n s
        → IsLeft n (scale_down_from cl now ro strategy s rss).0
    unfolding scale_down_from
    scale_down_from-IsLeft s [] counted h = h
    scale_down_from-IsLeft s (rs ∷ rss) (c, cs) h =
        after_turn-IsLeft (canary_turn cl now ro strategy s rs)
          (λ next. scale_down_from cl now ro strategy next rss) (canary_turn-HasLeft s rs c h)
          (λ next l. scale_down_from-IsLeft next rss cs l)

early-taken :
    (b : Bool) (total : ℤ) (ok : Bool) (rest : List Action × ℤ × Bool) (k : ℕ)
    → (b ≡ false → taken rest.0 ≤ k)
    → taken (early b total ok rest).0 ≤ k
early-taken true total ok rest k h = omega arith
early-taken false total ok rest k h = h refl

-- The loop from a maximum that is not below 1.
loop-taken :
    (cl : Cluster) (now : Time) (ro : Rollout) (strategy : CanaryStrategy) (m total : ℤ)
    (rss : List ReplicaSet)
    → is_some strategy.traffic_routing ≡ false
    → pos_part m ≤ 2147483647
    → All IsCounted rss
    → leb_ℤ m (pos 0) ≡ false
    → taken
        (scale_down_from cl now ro strategy
          (record { max_scale_down = m; annotated = pos 0; total = total; actions = [] })
          rss).0.actions
      ≤ pos_part m
loop-taken cl now ro strategy (pos n) total rss basic small counted h =
    let (r, e, k) =
      scale_down_from-IsLeft n small cl now ro strategy basic
        (record { max_scale_down = pos n; annotated = pos 0; total = total; actions = [] }) rss
        counted (n, refl, omega arith) in
    omega (arith, k)
loop-taken cl now ro strategy (negsuc n) total rss basic small counted h =
    absurd (ground (arith, h))

module _ (of_percent : OfPercent) (cl : Cluster) (now : Time) where
  max_scale_down_of-small :
      (c : RolloutContext) → pos_part (max_scale_down_of of_percent cl now c) ≤ 2147483647
  unfolding max_scale_down_of sub32
  max_scale_down_of-small c = (int32-IsInt32 _).0

  -- Scaling down the old ReplicaSets of a canary without a traffic router takes away, after the
  -- clean-up of unhealthy pods, at most as many pods as are available beyond the minimum, the
  -- replicas of the spec less the unavailability that is allowed. The replicas of the ReplicaSets
  -- are counts after the clean-up.
  pub scale_down_old_replica_sets_for_canary-taken :
      (c : RolloutContext) (strategy : CanaryStrategy) (rss : List ReplicaSet)
      → is_some strategy.traffic_routing ≡ false
      → All IsCounted (cl.latest_revision_first (cleanup_unhealthy_replicas cl rss).sets)
      → taken (scale_down_old_replica_sets_for_canary of_percent cl now c strategy rss).actions
        ≤ pos_part (max_scale_down_of of_percent cl now c)
  unfolding scale_down_old_replica_sets_for_canary
  scale_down_old_replica_sets_for_canary-taken c strategy rss basic counted =
      let cleaned = cleanup_unhealthy_replicas cl rss in
      let sets = cl.latest_revision_first cleaned.sets in
      let m = max_scale_down_of of_percent cl now c in
      early-taken (not cleaned.succeeds) cleaned.total true _ (pos_part m) (λ a.
        early-taken (leb_ℤ m (pos 0)) (pos 0) true _ (pos_part m) (λ b.
          early-taken (not (can_proceed_with_scale_down_annotation cl strategy sets)) (pos 0)
            (is_some cl.targets_verified) _ (pos_part m)
            (λ d.
              loop-taken cl now (the_rollout c) strategy m cleaned.total sets basic
                (max_scale_down_of-small c) counted b)))
