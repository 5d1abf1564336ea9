-- ===== src/Pod/Job.antt =====
-- internal/dashboard/poller.go: the closures that pollOnce gives to its pool.
pub mod Stored
use kubepage_operator.Prelude.{
  ℕ, suc, ◌+◌, String, Bool, true, false, not, Option, none, some, List, [], ◌∷◌, ◌++◌, map, ◌==◌,
  ◌&&◌, ◌||◌, contains, select, if◌then◌else◌, or_else, is_some, concat_map,
}
use kubepage_operator.Prelude.Format.{text, cut}
use kubepage_operator.Prelude.Map
use kubepage_operator.Prelude.Map.{Map}
use kubepage_operator.Prelude.Result.{Result, ok, err}
use kubepage_operator.Api.{
  SecretValueSource, ServiceWidget, ServiceEntry, ServiceCard, InfoWidgetEntry, InfoWidget,
  WidgetDefaultsEntry, DiscoverySpec, StyleSpec, Dashboard, bound_to, ref_name, service_entries,
  info_widget_entries, has_source, discovery_source_ingress, discovery_source_httproute, or_empty,
}
use kubepage_operator.Cluster.{Reader, Read, found, not_found, failed, Listed, items, list_failed}
use kubepage_operator.Controller.Binding.{namespace_dashboard_count}
use kubepage_operator.Pod.BaseUrl.{default_cluster_domain}
use kubepage_operator.Pod.Broadcast.{SseHashes, Broadcaster, has_subscribers, publish}
use kubepage_operator.Pod.Discovery.{
  Ingress, HttpRoute, DiscoveredService, extra_discovery_namespaces, discover_services,
  discover_http_routes,
}
use kubepage_operator.Pod.Field.{Field}
use kubepage_operator.Pod.Merge.Keys.{widget_key, monitor_key}
use kubepage_operator.Pod.Monitor.{
  MonitorProbeResult, Probed, Gauge, monitor, probe_url, monitor_source_http,
}
use kubepage_operator.Pod.Poll.{WidgetConfig, Widget, Polling, PollState, poll_widget}
use kubepage_operator.Pod.PodStatus.{status_up}
use kubepage_operator.Pod.PollFailure.{FailureLog, log_poll_failure}
use kubepage_operator.Pod.Schedule.{Schedule, due_poll, prune_widget_last_polled}
use kubepage_operator.Pod.Secrets.{resolve_widget_secrets, resolve_ca_cert}
use kubepage_operator.Pod.Store
use kubepage_operator.Pod.Store.{Card, Store}
use kubepage_operator.Pod.MonitorMetrics.{monitor_label_key, set_gauge}
use kubepage_operator.Pod.Work.{
  status_style_dot, Clock, Cycling, Settings, Poller, Work, with_poll, mark_keep, record_gauges,
  put_card,
}
use kubepage_operator.Pod.EntryPoll.{poll_entry, poll_discovered_service}
use kubepage_operator.Pod.HeaderPoll.{poll_info_widget}

-- The closures that `pollOnce` gives to its pool. A service's widgets are polled right after its
-- monitor.
pub data Job : Type 0 where
  entry_job : String → String → ℕ → ServiceEntry → Job
  service_job : DiscoveredService → Job
  header_job : String → InfoWidget → InfoWidgetEntry → Job

module _ (env : Cycling) where
  open env use {polling, namespace, dashboard_name, reader, clock}

  -- A closure, with the `markKeep` that goes with it.
  unfoldable pub run_job : Settings → Job → Work env → Work env
  unfolding poll_entry poll_discovered_service poll_info_widget
  run_job settings (Job.entry_job ns name idx se) w = poll_entry env settings ns name idx se w
  run_job settings (Job.service_job svc) w =
      poll_discovered_service env svc (mark_keep env svc.key w)
  run_job settings (Job.header_job key iw entry) w =
      poll_info_widget env settings key iw entry (mark_keep env key w)
