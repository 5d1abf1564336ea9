-- ===== src/Pod/MonitorMetrics.antt =====
-- internal/dashboard/poller.go, the monitorUp gauge: its label keys, and the pruning of stale series.
pub mod Labels
mod Tests
use kubepage_operator.Prelude.{
  ℕ, suc, ◌+◌, String, Bool, true, false, not, Option, none, some, List, [], ◌∷◌, ◌++◌, map, ◌==◌,
  ◌&&◌, ◌||◌, contains, select, if◌then◌else◌, or_else, is_some, concat_map,
}
use kubepage_operator.Prelude.Format.{text, cut}
use kubepage_operator.Prelude.Map
use kubepage_operator.Prelude.Map.{Map}
use kubepage_operator.Prelude.Result.{Result, ok, err}
use kubepage_operator.Api.{
  SecretValueSource, ServiceWidget, ServiceEntry, ServiceCard, InfoWidgetEntry, InfoWidget,
  WidgetDefaultsEntry, DiscoverySpec, StyleSpec, Dashboard, bound_to, ref_name, service_entries,
  info_widget_entries, has_source, discovery_source_ingress, discovery_source_httproute, or_empty,
}
use kubepage_operator.Cluster.{Reader, Read, found, not_found, failed, Listed, items, list_failed}
use kubepage_operator.Controller.Binding.{namespace_dashboard_count}
use kubepage_operator.Pod.BaseUrl.{default_cluster_domain}
use kubepage_operator.Pod.Broadcast.{SseHashes, Broadcaster, has_subscribers, publish}
use kubepage_operator.Pod.Discovery.{
  Ingress, HttpRoute, DiscoveredService, extra_discovery_namespaces, discover_services,
  discover_http_routes,
}
use kubepage_operator.Pod.Field.{Field}
use kubepage_operator.Pod.Merge.Keys.{widget_key, monitor_key}
use kubepage_operator.Pod.Monitor.{
  MonitorProbeResult, Probed, Gauge, monitor, probe_url, monitor_source_http,
}
use kubepage_operator.Pod.Poll.{WidgetConfig, Widget, Polling, PollState, poll_widget}
use kubepage_operator.Pod.PodStatus.{status_up}
use kubepage_operator.Pod.PollFailure.{FailureLog, log_poll_failure}
use kubepage_operator.Pod.Schedule.{Schedule, due_poll, prune_widget_last_polled}
use kubepage_operator.Pod.Secrets.{resolve_widget_secrets, resolve_ca_cert}
use kubepage_operator.Pod.Store
use kubepage_operator.Pod.Store.{Card, Store}

-- `monitorLabelKey`, with the ASCII unit separator between its parts, and what takes it apart.
abbrev pub monitor_label_key_sep : String
monitor_label_key_sep = "\u{1f}"

unfoldable pub monitor_label_key : String → String → String
monitor_label_key label source = text (label ∷ monitor_label_key_sep ∷ source ∷ [])

unfoldable pub split_monitor_label_key : String → String × String
split_monitor_label_key key = or_else (cut "\u{1f}" key) (key, "")

unfoldable pub set_gauge : Gauge → List Gauge → List Gauge
set_gauge g [] = g ∷ []
set_gauge g (h ∷ gauges) =
    let rest = h ∷ set_gauge g gauges in
    if h.label == g.label && h.source == g.source then g ∷ gauges else rest

unfoldable pub delete_gauge : String × String → List Gauge → List Gauge
delete_gauge (label, source) gauges =
    select (λ g. not (g.label == label && g.source == source)) gauges

-- The loop over the labels of the previous cycle.
unfoldable pub prune_monitor_metrics : List String → List String → List Gauge → List Gauge
unfolding delete_gauge split_monitor_label_key
prune_monitor_metrics [] current gauges = gauges
prune_monitor_metrics (key ∷ previous) current gauges =
    prune_monitor_metrics previous current
      (if contains current key then gauges else delete_gauge (split_monitor_label_key key) gauges)
