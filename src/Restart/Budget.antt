-- ===== src/Restart/Budget.antt =====
-- How many pods a reconciliation evicts.
use intuit_argo_rollouts_dem.Prelude.{
  ◌≡◌, refl, ℕ, suc, ◌+◌, ◌≤◌, Bool, true, false, Option, none, some, List, [], ◌∷◌, ℤ, pos, negsuc,
  pos_part, sub32, int32, ◌-ℤ◌, leb_ℤ, length, All, Bool-cases, inl, inr, sym, int32-IsInt32, arith,
}
use mathlib.Core.Path.{subst}
use intuit_argo_rollouts_dem.Common.{Time, Duration}
use intuit_argo_rollouts_dem.Canary.Fenceposts.{OfPercent}
use intuit_argo_rollouts_dem.Context.{RolloutContext, the_rollout}
use intuit_argo_rollouts_dem.Restart.{
  Pod, Eviction, evicted, too_many_requests, eviction_failed, Round, Restart, answered, restart_pod,
  continued, restart_pods, finished, needs_restart, restart_budget, reconcile_due,
  reconcile_restart, check_enqueue_rollout, get_available_pod_count,
}

-- A pod that was created before the time, and is not being deleted already.
abbrev pub IsOld : Time → Pod → Type 0
IsOld restart_at p = (leb_ℤ restart_at p.created ≡ false) × (p.is_deleting ≡ false)

abbrev IsKept : ℕ → Time → Round → Type 0
IsKept n restart_at r =
    (length r.restarted + pos_part r.can_restart ≤ n) × All (IsOld restart_at) r.restarted

taken :
    (n k : ℕ) (z : ℤ)
    → k + pos_part z ≤ n
    → n ≤ 2147483647
    → leb_ℤ z (pos 0) ≡ false
    → suc k + pos_part (sub32 z (pos 1)) ≤ n
unfolding sub32 int32 ◌-ℤ◌
taken n k (pos z) h b e = ground arith
taken n k (negsuc z) h b e = ground arith

sub32-small : (a b : ℤ) → pos_part (sub32 a b) ≤ 2147483647
unfolding sub32
sub32-small a b = (int32-IsInt32 (a -ℤ b)).0

restart_budget-small :
    (of_percent : OfPercent) (c : RolloutContext) (pods : List Pod)
    → pos_part (restart_budget of_percent c pods) ≤ 2147483647
unfolding restart_budget
restart_budget-small of_percent c pods = sub32-small (get_available_pod_count pods) _

answered-IsKept :
    (e : Eviction) (t : Time) (p : Pod) (r : Round) (k n : ℕ)
    → n ≤ 2147483647
    → IsKept n t r
    → IsOld t p
    → leb_ℤ r.can_restart (pos 0) ≡ false
    → IsKept n t (answered e p (record r { needed = k })).0
unfolding answered
answered-IsKept evicted t p r k n b (h, hs) old z =
    (taken n (length r.restarted) r.can_restart h b z, (old, hs))
answered-IsKept too_many_requests t p r k n b h old z = h
answered-IsKept eviction_failed t p r k n b h old z = h

restart_pod-IsKept :
    (evict : Pod → Eviction) (t : Time) (p : Pod) (r : Round) (n : ℕ)
    → n ≤ 2147483647
    → IsKept n t r
    → IsKept n t (restart_pod evict t p r).0
unfolding restart_pod
restart_pod-IsKept evict t p r n b h = elim (Bool-cases (leb_ℤ t p.created)) [
  | inl y ↦ rw y h
  | inr y ↦ elim (Bool-cases (leb_ℤ r.can_restart (pos 0))) [
    | inl z ↦ rw (y, z) h
    | inr z ↦ elim (Bool-cases p.is_deleting) [
      | inl d ↦ rw (y, z, d) h
      | inr d ↦ simp (y, z, d) (answered-IsKept (evict p) t p r (suc r.needed) n b h (y, d) z)
    ]
  ]
]

continued-IsKept :
    (x : Round × Bool) (rest : Round → Round × Bool) (t : Time) (n : ℕ)
    → ((r : Round) → IsKept n t r → IsKept n t (rest r).0)
    → IsKept n t x.0
    → IsKept n t (continued x rest).0
unfolding continued
continued-IsKept (r, false) rest t n f h = h
continued-IsKept (r, true) rest t n f h = f r h

restart_pods-IsKept :
    (evict : Pod → Eviction) (t : Time) (ps : List Pod) (n : ℕ)
    → n ≤ 2147483647
    → (r : Round) → IsKept n t r
    → IsKept n t (restart_pods evict t ps r).0
unfolding restart_pods
restart_pods-IsKept evict t [] n b r h = h
restart_pods-IsKept evict t (p ∷ ps) n b r h =
    continued-IsKept (restart_pod evict t p r) (restart_pods evict t ps) t n
      (restart_pods-IsKept evict t ps n b) (restart_pod-IsKept evict t p r n b h)

-- The pods that are evicted are at most the budget, and were created before the time of the restart
-- that is due.
abbrev pub IsWithinBudget : ℤ → Option Time → Restart → Type 0
IsWithinBudget budget none s = s.restarted ≡ []
IsWithinBudget budget (some t) s =
    (length s.restarted ≤ pos_part budget) × All (IsOld t) s.restarted

finished-restarted : (x : Round × Bool) → (finished x).restarted ≡ x.0.restarted
unfolding finished
finished-restarted (r, true) = refl
finished-restarted (r, false) = refl

reconcile_due-IsWithinBudget :
    (of_percent : OfPercent) (c : RolloutContext) (wait : Option Duration) (evict : Pod → Eviction)
    (pods : List Pod) (due : Option Time)
    → IsWithinBudget
        (restart_budget of_percent c pods)
        due
        (reconcile_due of_percent c wait evict pods due)
unfolding reconcile_due
reconcile_due-IsWithinBudget of_percent c wait evict pods none = refl
reconcile_due-IsWithinBudget of_percent c wait evict pods (some t) =
    let budget = restart_budget of_percent c pods in
    let start : Round = record { can_restart = budget; needed = 0; restarted = [] } in
    let kept =
      restart_pods-IsKept evict t pods (pos_part budget) (restart_budget-small of_percent c pods)
        start (omega arith, tt) in
    subst (λ l. (length l ≤ pos_part budget) × All (IsOld t) l)
      (sym (finished-restarted (restart_pods evict t pods start))) (omega (arith, kept.0), kept.1)

-- A reconciliation evicts pods only where a restart is due. The evicted pods were created before
-- its time and were not being deleted, and there are no more of them than the budget: the available
-- pods less the minimum, which is the larger of the spec's replicas and the replicas of all
-- ReplicaSets, less the unavailability or one.
pub reconcile_restart-IsWithinBudget :
    (of_percent : OfPercent) (c : RolloutContext) (now : Time) (resync_period : Duration)
    (evict : Pod → Eviction) (pods : List Pod)
    → IsWithinBudget
        (restart_budget of_percent c pods)
        (needs_restart now (the_rollout c))
        (reconcile_restart of_percent c now resync_period evict pods)
unfolding reconcile_restart
reconcile_restart-IsWithinBudget of_percent c now resync_period evict pods =
    reconcile_due-IsWithinBudget of_percent c
      (check_enqueue_rollout now resync_period (the_rollout c)) evict pods
      (needs_restart now (the_rollout c))
