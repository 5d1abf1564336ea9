-- ===== src/Pod/PodStatus.antt =====
-- internal/dashboard/poller.go, podStatus, podReady and podMonitorSelector: the pods behind a service
-- entry.
pub mod Laws
use kubepage_operator.Prelude.{
  ℕ, suc, String, Bool, true, false, Option, none, some, List, [], ◌∷◌, ◌==◌, eqb, ltb, length,
  if◌then◌else◌,
}
use kubepage_operator.Prelude.Format.{Format, text}
use kubepage_operator.Api.{ServiceEntry, LabelSelector}
use kubepage_operator.Cluster.{Listed, items, list_failed}
use kubepage_operator.Pod.Kube.{PodCondition, Pod, KubeClient, Monitors, pod_monitor_label}

abbrev pub status_down : String
status_down = "Down"

abbrev pub status_partial : String
status_partial = "Partial"

abbrev pub status_up : String
status_up = "Up"

-- The first Ready condition decides.
ready_condition : List PodCondition → Bool
ready_condition [] = false
ready_condition (c ∷ cs) =
    let later = ready_condition cs in if c.type == "Ready" then c.holds else later

unfoldable pub pod_ready : Pod → Bool
unfolding ready_condition
pod_ready pod = ready_condition pod.conditions

count_ready : List Pod → ℕ
count_ready [] = 0
count_ready (pod ∷ pods) =
    let later = count_ready pods in if pod_ready pod then suc later else later

ready_status : ℕ → ℕ → String
ready_status total ready =
    if eqb total 0
    then status_down
    else if eqb ready total
    then status_up
    else if ltb 0 ready
    then status_partial
    else status_down

app_selector : Option String → Option LabelSelector
app_selector none = none
app_selector (some app) =
    some (record { match_labels = (pod_monitor_label, app) ∷ []; match_expressions = [] })

own_selector : Option LabelSelector → Option LabelSelector → Option LabelSelector
own_selector none derived = derived
own_selector (some selector) derived = some selector

unfoldable pub pod_monitor_selector : ServiceEntry → Option LabelSelector
unfolding own_selector app_selector
pod_monitor_selector se = own_selector se.pod_selector (app_selector se.app)

module _ (fmt : Format) where
  open fmt use {decimal}

  listed_status : Listed Pod → String × String
  listed_status (list_failed e) = (status_down, "")
  listed_status (items pods) =
      let ready = count_ready pods in
      (
        ready_status (length pods) ready,
        text (decimal ready ∷ "/" ∷ decimal (length pods) ∷ " ready" ∷ []),
      )

  module _ (p : Monitors) where
    unfoldable pub pod_status : KubeClient → String → LabelSelector → String × String
    unfolding listed_status ready_status count_ready
    pod_status reader namespace selector =
        if p.is_selector selector
        then listed_status (reader.list_pods namespace selector)
        else (status_down, "")
