-- ===== src/Pod/EntryPoll.antt =====
-- internal/dashboard/poller.go: the polls of an entry of a ServiceCard and of a discovered service.
pub mod Stored
use kubepage_operator.Prelude.{
  ℕ, suc, ◌+◌, String, Bool, true, false, not, Option, none, some, List, [], ◌∷◌, ◌++◌, map, ◌==◌,
  ◌&&◌, ◌||◌, contains, select, if◌then◌else◌, or_else, is_some, concat_map,
}
use kubepage_operator.Prelude.Format.{text, cut}
use kubepage_operator.Prelude.Map
use kubepage_operator.Prelude.Map.{Map}
use kubepage_operator.Prelude.Result.{Result, ok, err}
use kubepage_operator.Api.{
  SecretValueSource, ServiceWidget, ServiceEntry, ServiceCard, InfoWidgetEntry, InfoWidget,
  WidgetDefaultsEntry, DiscoverySpec, StyleSpec, Dashboard, bound_to, ref_name, service_entries,
  info_widget_entries, has_source, discovery_source_ingress, discovery_source_httproute, or_empty,
}
use kubepage_operator.Cluster.{Reader, Read, found, not_found, failed, Listed, items, list_failed}
use kubepage_operator.Controller.Binding.{namespace_dashboard_count}
use kubepage_operator.Pod.BaseUrl.{default_cluster_domain}
use kubepage_operator.Pod.Broadcast.{SseHashes, Broadcaster, has_subscribers, publish}
use kubepage_operator.Pod.Discovery.{
  Ingress, HttpRoute, DiscoveredService, extra_discovery_namespaces, discover_services,
  discover_http_routes,
}
use kubepage_operator.Pod.Field.{Field}
use kubepage_operator.Pod.Merge.Keys.{widget_key, monitor_key}
use kubepage_operator.Pod.Monitor.{
  MonitorProbeResult, Probed, Gauge, monitor, probe_url, monitor_source_http,
}
use kubepage_operator.Pod.Poll.{WidgetConfig, Widget, Polling, PollState, poll_widget}
use kubepage_operator.Pod.PodStatus.{status_up}
use kubepage_operator.Pod.PollFailure.{FailureLog, log_poll_failure}
use kubepage_operator.Pod.Schedule.{Schedule, due_poll, prune_widget_last_polled}
use kubepage_operator.Pod.Secrets.{resolve_widget_secrets, resolve_ca_cert}
use kubepage_operator.Pod.Store
use kubepage_operator.Pod.Store.{Card, Store}
use kubepage_operator.Pod.MonitorMetrics.{monitor_label_key, set_gauge}
use kubepage_operator.Pod.Work.{
  status_style_dot, Clock, Cycling, Settings, Poller, Work, with_poll, mark_keep, record_gauges,
  put_card,
}

module _ (env : Cycling) where
  open env use {polling, namespace, dashboard_name, reader, clock}

  pub poll_key :
      Settings
      → String
      → String
      → ServiceEntry
      → Option ServiceWidget
      → MonitorProbeResult
      → Work env
      → Work env
  poll_key settings key ns se widget m w =
      let c = clock key in
      with_poll env
        (poll_widget polling key ns se widget m settings.hide_errors settings.defaults c.now c.later
          c.stamp w.poller.poll)
        (mark_keep env key w)

  -- The loop over an entry's widgets, from an index on.
  pub poll_widgets :
      Settings
      → String
      → String
      → ℕ
      → ServiceEntry
      → MonitorProbeResult
      → ℕ
      → List ServiceWidget
      → Work env
      → Work env
  unfolding poll_key
  poll_widgets settings ns name idx se m i [] w = w
  poll_widgets settings ns name idx se m i (widget ∷ widgets) w =
      poll_widgets settings ns name idx se m (i + 1) widgets
        (poll_key settings (widget_key polling.fmt ns name idx i) ns se (some widget) m w)

  -- An entry whose monitor has given its result.
  pub poll_monitored :
      Settings
      → String
      → String
      → ℕ
      → ServiceEntry
      → MonitorProbeResult
      → List ServiceWidget
      → Work env
      → Work env
  unfolding poll_key poll_widgets
  poll_monitored settings ns name idx se m [] w =
      if m.status == "" && m.pod_status == ""
      then w
      else poll_key settings (monitor_key polling.fmt ns name idx) ns se none m w
  poll_monitored settings ns name idx se m (widget ∷ widgets) w =
      poll_widgets settings ns name idx se m 0 (widget ∷ widgets) w

  after_monitor :
      Settings
      → String
      → String
      → ℕ
      → ServiceEntry
      → (MonitorProbeResult × List Gauge) × FailureLog
      → Work env
      → Work env
  unfolding poll_monitored
  after_monitor settings ns name idx se ((m, gauges), log) w =
      poll_monitored settings ns name idx se m se.widgets
        (record_gauges env gauges (with_poll env (record w.poller.poll { failures = log }) w))

  unfoldable pub poll_entry : Settings → String → String → ℕ → ServiceEntry → Work env → Work env
  unfolding after_monitor
  poll_entry settings ns name idx se w =
      after_monitor settings ns name idx se
        (monitor polling.fmt polling.monitors env.probe_http ns name se settings.status_style
          settings.allowed_monitor_namespaces settings.cluster_domain w.poller.poll.failures)
        w

  zero_card : DiscoveredService → ℕ → Card
  zero_card svc stamp = record {
    key = svc.key;
    group = svc.group;
    service_name = svc.name;
    widget_type = "";
    order = none;
    icon_url = svc.icon_url;
    description = svc.description;
    href = svc.href;
    target = "";
    header = false;
    show_stats = false;
    hide_errors = false;
    status = "";
    status_style = "";
    latency = "";
    pod_status = "";
    pod_ready_text = "";
    fields = [];
    error = "";
    updated_at = stamp;
  }

  -- With what the probe gave, and the failure log after it.
  put_probed : DiscoveredService → Card → (String × String) × FailureLog → Work env → Work env
  put_probed svc card ((status, latency), log) w =
      let gauge : Gauge = record {
        label = text ("discovery/" ∷ svc.key ∷ []);
        source = monitor_source_http;
        up = status == status_up;
      } in
      put_card env
        (record card { status = status; latency = latency; status_style = status_style_dot })
        (record_gauges env (if polling.monitors.sample_data then [] else gauge ∷ [])
          (with_poll env (record w.poller.poll { failures = log }) w))

  unfoldable pub poll_discovered_service : DiscoveredService → Work env → Work env
  unfolding zero_card put_probed
  poll_discovered_service svc w =
      let card = zero_card svc (clock svc.key).stamp in
      let probed =
        probe_url polling.fmt polling.monitors env.probe_http svc.href w.poller.poll.failures in
      if svc.monitor && not (svc.href == "")
      then put_probed svc card probed w
      else put_card env card w
