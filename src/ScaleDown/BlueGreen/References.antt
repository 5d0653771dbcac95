-- ===== src/ScaleDown/BlueGreen/References.antt =====
-- A ReplicaSet that is still referenced is not scaled down.
use intuit_argo_rollouts_dem.Prelude.{
  ◌≡◌, refl, Bool, true, false, not, ◌&&◌, Option, none, some, List, [], ◌∷◌, ℤ, pos, eqb_ℤ, arith,
  Bool-cases, inl, inr,
}
use intuit_argo_rollouts_dem.Common.{Time, Duration, Library}
use intuit_argo_rollouts_dem.Rollout.{Rollout}
use intuit_argo_rollouts_dem.Rollout.Defaults.{get_replicas_or_default}
use intuit_argo_rollouts_dem.Canary.Types.{ReplicaSet}
use intuit_argo_rollouts_dem.Context.{RolloutContext, the_rollout}
use intuit_argo_rollouts_dem.ScaleDown.{
  Cluster, Action, scale, add_deadline, remove_deadline, enqueue_after, Delayed,
  scale_down_delay_helper, is_replica_set_referenced, add_scale_down_delay, remove_scale_down_delay,
  delayed_by, with_deadline,
}
use intuit_argo_rollouts_dem.ScaleDown.BlueGreen.{
  State, Turn, goes_on, fails, scaled, after_delay, blue_green_turn, after_turn, scale_down_from,
  scale_down_old_replica_sets_for_blue_green,
}

-- No action scales a ReplicaSet that is referenced, or sets or removes its deadline.
abbrev pub spares_referenced : Cluster → Rollout → List Action → Bool
spares_referenced cl ro [] = true
spares_referenced cl ro (scale rs n ∷ rest) =
    not (is_replica_set_referenced cl ro rs) && spares_referenced cl ro rest
spares_referenced cl ro (add_deadline rs d ∷ rest) =
    not (is_replica_set_referenced cl ro rs) && spares_referenced cl ro rest
spares_referenced cl ro (remove_deadline rs ∷ rest) =
    not (is_replica_set_referenced cl ro rs) && spares_referenced cl ro rest
spares_referenced cl ro (enqueue_after d ∷ rest) = spares_referenced cl ro rest

module _ (cl : Cluster) (now : Time) (ro : Rollout) where
  remove_scale_down_delay-spares :
      (rs : ReplicaSet) (actions : List Action)
      → is_replica_set_referenced cl ro rs ≡ false
      → spares_referenced cl ro actions ≡ true
      → spares_referenced cl ro (remove_scale_down_delay cl rs actions).0 ≡ true
  unfolding remove_scale_down_delay
  remove_scale_down_delay-spares rs actions h k = ground (arith, h, k)

  add_scale_down_delay-spares :
      (rs : ReplicaSet) (d : Duration) (actions : List Action)
      → is_replica_set_referenced cl ro rs ≡ false
      → spares_referenced cl ro actions ≡ true
      → spares_referenced cl ro (add_scale_down_delay cl rs d actions).0 ≡ true
  unfolding add_scale_down_delay
  add_scale_down_delay-spares rs d actions h k =
      ground (arith, h, k, remove_scale_down_delay-spares rs actions h k)

  delayed_by-spares :
      (a n : ℤ) (actions : List Action) (left : Option Duration)
      → spares_referenced cl ro actions ≡ true
      → spares_referenced cl ro (delayed_by cl a n actions left).actions ≡ true
  unfolding delayed_by
  delayed_by-spares a n actions none k = k
  delayed_by-spares a n actions (some left) k = ground (arith, k)

  with_deadline-spares :
      (a n : ℤ) (d : Duration) (c : List Action × Bool)
      → spares_referenced cl ro c.0 ≡ true
      → spares_referenced cl ro (with_deadline a n d c).actions ≡ true
  unfolding with_deadline
  with_deadline-spares a n d (actions, true) k = k
  with_deadline-spares a n d (actions, false) k = k

  scale_down_delay_helper-spares :
      (rs : ReplicaSet) (a n : ℤ) (actions : List Action)
      → is_replica_set_referenced cl ro rs ≡ false
      → spares_referenced cl ro actions ≡ true
      → spares_referenced cl ro (scale_down_delay_helper cl now ro rs a n actions).actions ≡ true
  unfolding scale_down_delay_helper
  scale_down_delay_helper-spares rs a n actions h k =
      grind (arith, delayed_by-spares, with_deadline-spares, add_scale_down_delay-spares, h, k)

  Spares : Turn → Type 0
  Spares (goes_on s) = spares_referenced cl ro s.actions ≡ true
  Spares (fails s) = spares_referenced cl ro s.actions ≡ true

  scaled-Spares :
      (s : State) (rs : ReplicaSet) (n : ℤ) (o : Option ReplicaSet)
      → is_replica_set_referenced cl ro rs ≡ false
      → spares_referenced cl ro s.actions ≡ true
      → Spares (scaled s rs n o)
  unfolding scaled Spares
  scaled-Spares s rs n none h k = k
  scaled-Spares s rs n (some u) h k = ground (arith, h, k)

  after_delay-Spares :
      (s : State) (rs : ReplicaSet) (d : Delayed)
      → is_replica_set_referenced cl ro rs ≡ false
      → spares_referenced cl ro d.actions ≡ true
      → Spares (after_delay cl s rs d)
  unfolding after_delay Spares
  after_delay-Spares s rs d h k = elim (Bool-cases d.succeeds) [
    | inr n ↦ rw n k
    | inl y ↦ elim (Bool-cases (eqb_ℤ rs.replicas d.desired)) [
      | inl e ↦ rw (y, e) k
      | inr e ↦
          rw (y, e)
            (scaled-Spares (record s { annotated = d.annotated; actions = d.actions }) rs d.desired
              (cl.update (record rs { replicas = d.desired })) h k)
    ]
  ]

  blue_green_turn-Spares :
      (s : State) (rs : ReplicaSet)
      → spares_referenced cl ro s.actions ≡ true
      → Spares (blue_green_turn cl now ro s rs)
  unfolding blue_green_turn Spares
  blue_green_turn-Spares s rs k = elim (Bool-cases (is_replica_set_referenced cl ro rs)) [
    | inl y ↦ rw y k
    | inr h ↦ elim (Bool-cases (eqb_ℤ rs.replicas (pos 0))) [
      | inl z ↦ rw (h, z) k
      | inr z ↦
          rw (h, z)
            (after_delay-Spares s rs
              (scale_down_delay_helper cl now ro rs s.annotated
                (get_replicas_or_default ro.spec.replicas) s.actions)
              h
              (scale_down_delay_helper-spares rs s.annotated
                (get_replicas_or_default ro.spec.replicas) s.actions h k))
    ]
  ]

  after_turn-Spares :
      (t : Turn) (continue : State → State × Bool)
      → Spares t
      → ((s : State)
          → spares_referenced cl ro s.actions ≡ true
          → spares_referenced cl ro (continue s).0.actions ≡ true)
      → spares_referenced cl ro (after_turn cl now ro t continue).0.actions ≡ true
  unfolding after_turn Spares
  after_turn-Spares (goes_on s) continue h k = k s h
  after_turn-Spares (fails s) continue h k = h

  scale_down_from-spares :
      (s : State) (rss : List ReplicaSet)
      → spares_referenced cl ro s.actions ≡ true
      → spares_referenced cl ro (scale_down_from cl now ro s rss).0.actions ≡ true
  unfolding scale_down_from
  scale_down_from-spares s [] k = k
  scale_down_from-spares s (rs ∷ rss) k =
      after_turn-Spares (blue_green_turn cl now ro s rs)
        (λ next. scale_down_from cl now ro next rss) (blue_green_turn-Spares s rs k)
        (λ next l. scale_down_from-spares next rss l)

-- Scaling down the old ReplicaSets of a blue-green rollout neither scales nor changes the deadline
-- of a ReplicaSet that the status, the recorded weights or a service of the rollout still refers
-- to.
pub scale_down_old_replica_sets_for_blue_green-spares :
    (cl : Cluster) (now : Time) (lib : Library) (c : RolloutContext) (rss : List ReplicaSet)
    → spares_referenced cl
        (the_rollout c)
        (scale_down_old_replica_sets_for_blue_green cl now lib c rss).0.actions
      ≡ true
unfolding scale_down_old_replica_sets_for_blue_green
scale_down_old_replica_sets_for_blue_green-spares cl now lib c rss = ground (
  arith,
  scale_down_from-spares cl now (the_rollout c)
      (record { annotated = pos 0; has_scaled = false; actions = [] })
      (cl.latest_revision_first rss) refl,
)
