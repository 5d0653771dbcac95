-- ===== src/Canary/ReplicaSets.antt =====
-- The sums and the choices over ReplicaSets: utils/replicaset/replicaset.go and canary.go. A nil
-- pointer is none; a list of pointers may hold some.
use intuit_argo_rollouts_dem.Prelude.{
  Bool, true, false, not, ◌&&◌, Option, none, some, List, [], ◌∷◌, String, str_eq, ℤ, pos, add32,
  eqb_ℤ, ltb_ℤ, if◌then◌else◌,
}
use intuit_argo_rollouts_dem.Canary.Types.{ReplicaSet}

-- The loop that adds one field of every ReplicaSet that is there.
abbrev pub sum_of : (ReplicaSet → ℤ) → ℤ → List (Option ReplicaSet) → ℤ
sum_of f total [] = total
sum_of f total (none ∷ rss) = sum_of f total rss
sum_of f total (some rs ∷ rss) = sum_of f (add32 total (f rs)) rss

unfoldable pub get_replica_count_for_replica_sets : List (Option ReplicaSet) → ℤ
get_replica_count_for_replica_sets rss = sum_of (λ rs. rs.replicas) (pos 0) rss

unfoldable pub get_available_replica_count_for_replica_sets : List (Option ReplicaSet) → ℤ
get_available_replica_count_for_replica_sets rss = sum_of (λ rs. rs.available_replicas) (pos 0) rss

unfoldable pub check_stable_rs_exists : (new_rs stable_rs : Option ReplicaSet) → Bool
check_stable_rs_exists new_rs none = false
check_stable_rs_exists none (some stable) = true
check_stable_rs_exists (some new) (some stable) = not (str_eq new.name stable.name)

unfoldable pub get_replicas_for_scale_down : Option ReplicaSet → (ignore_availability : Bool) → ℤ
get_replicas_for_scale_down none ignore_availability = pos 0
get_replicas_for_scale_down (some rs) ignore_availability =
    if ltb_ℤ rs.replicas rs.available_replicas
    then rs.replicas
    else (if ignore_availability then rs.replicas else rs.available_replicas)

unfoldable pub all_desired_are_available : Option ReplicaSet → ℤ → Bool
all_desired_are_available none desired = false
all_desired_are_available (some rs) desired =
    eqb_ℤ desired rs.replicas && eqb_ℤ desired rs.available_replicas

unfoldable pub all_desired_are_created : Option ReplicaSet → ℤ → Bool
all_desired_are_created none desired = false
all_desired_are_created (some rs) desired =
    eqb_ℤ desired rs.replicas && eqb_ℤ desired rs.current_replicas

-- Whether the pointer is to a ReplicaSet of this name.
unfoldable pub has_name : Option ReplicaSet → String → Bool
has_name none name = false
has_name (some rs) name = str_eq name rs.name

unfoldable pub get_other_rss :
    (new_rs stable_rs : Option ReplicaSet) → List (Option ReplicaSet) → List (Option ReplicaSet)
get_other_rss new_rs stable_rs [] = []
get_other_rss new_rs stable_rs (none ∷ rss) = get_other_rss new_rs stable_rs rss
get_other_rss new_rs stable_rs (some rs ∷ rss) =
    let rest = get_other_rss new_rs stable_rs rss in
    if has_name stable_rs rs.name
    then rest
    else (if has_name new_rs rs.name then rest else some rs ∷ rest)
