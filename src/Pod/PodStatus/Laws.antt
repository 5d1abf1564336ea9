-- ===== src/Pod/PodStatus/Laws.antt =====
-- The three-valued status of a pod monitor.
use kubepage_operator.Prelude.{
  ◌≤◌, String, Bool, true, List, [], ◌∷◌, ◌&&◌, ◌≡◌, refl, length, any, eqb, ltb, if◌then◌else◌,
  arith,
}
use kubepage_operator.Prelude.Format.{Format}
use kubepage_operator.Api.{LabelSelector}
use kubepage_operator.Cluster.{items}
use kubepage_operator.Pod.Kube.{Pod, KubeClient, Monitors}
use kubepage_operator.Pod.PodStatus.{
  status_up, status_partial, status_down, pod_ready, count_ready, ready_status, listed_status,
  pod_status,
}

abbrev pub all_ready : List Pod → Bool
all_ready [] = true
all_ready (pod ∷ pods) = pod_ready pod && all_ready pods

count_ready_le : (pods : List Pod) → count_ready pods ≤ length pods
unfolding count_ready
count_ready_le [] = omega arith
count_ready_le (pod ∷ pods) = ground (arith, count_ready_le pods)

count_ready-all_ready : (pods : List Pod) → eqb (count_ready pods) (length pods) ≡ all_ready pods
unfolding count_ready
count_ready-all_ready [] = refl
count_ready-all_ready (pod ∷ pods) = ground (arith, count_ready-all_ready pods, count_ready_le pods)

count_ready-any : (pods : List Pod) → ltb 0 (count_ready pods) ≡ any pod_ready pods
unfolding count_ready
count_ready-any [] = refl
count_ready-any (pod ∷ pods) = ground (arith, count_ready-any pods)

-- What a dashboard should show of some pods.
abbrev pub status_of : List Pod → String
status_of [] = status_down
status_of (pod ∷ pods) =
    if all_ready (pod ∷ pods)
    then status_up
    else if any pod_ready (pod ∷ pods)
    then status_partial
    else status_down

ready_status-status_of :
    (pods : List Pod) → ready_status (length pods) (count_ready pods) ≡ status_of pods
unfolding ready_status
ready_status-status_of [] = refl
ready_status-status_of (pod ∷ pods) =
    ground (arith, count_ready-all_ready (pod ∷ pods), count_ready-any (pod ∷ pods))

-- Where a selector is valid and the pods that it matches are listed, the pod monitor reports Up
-- exactly if there are pods and all are ready, Partial if some are ready and some are not, and
-- Down if there are none or none is ready.
pub pod_status_lem :
    (fmt : Format) (p : Monitors) (reader : KubeClient) (namespace : String)
    (selector : LabelSelector) (pods : List Pod)
    → p.is_selector selector ≡ true
    → reader.list_pods namespace selector ≡ items pods
    → (pod_status fmt p reader namespace selector).0 ≡ status_of pods
unfolding pod_status listed_status
pod_status_lem fmt p reader namespace selector pods valid listed =
    rw (valid, listed) (ready_status-status_of pods)
