-- ===== src/Pod/Cycle.antt =====
-- internal/dashboard/poller.go, pollOnce: one poll cycle.
pub mod Jobs
pub mod Sources
pub mod Keys
pub mod Current
mod Tests
use kubepage_operator.Prelude.{
  ℕ, suc, ◌+◌, String, Bool, true, false, not, Option, none, some, List, [], ◌∷◌, ◌++◌, map, ◌==◌,
  ◌&&◌, ◌||◌, contains, select, if◌then◌else◌, or_else, is_some, concat_map,
}
use kubepage_operator.Prelude.Format.{text, cut}
use kubepage_operator.Prelude.Map
use kubepage_operator.Prelude.Map.{Map}
use kubepage_operator.Prelude.Result.{Result, ok, err}
use kubepage_operator.Api.{
  SecretValueSource, ServiceWidget, ServiceEntry, ServiceCard, InfoWidgetEntry, InfoWidget,
  WidgetDefaultsEntry, DiscoverySpec, StyleSpec, Dashboard, bound_to, ref_name, service_entries,
  info_widget_entries, has_source, discovery_source_ingress, discovery_source_httproute, or_empty,
}
use kubepage_operator.Cluster.{Reader, Read, found, not_found, failed, Listed, items, list_failed}
use kubepage_operator.Controller.Binding.{namespace_dashboard_count}
use kubepage_operator.Pod.BaseUrl.{default_cluster_domain}
use kubepage_operator.Pod.Broadcast.{SseHashes, Broadcaster, has_subscribers, publish}
use kubepage_operator.Pod.Discovery.{
  Ingress, HttpRoute, DiscoveredService, extra_discovery_namespaces, discover_services,
  discover_http_routes,
}
use kubepage_operator.Pod.Field.{Field}
use kubepage_operator.Pod.Merge.Keys.{widget_key, monitor_key}
use kubepage_operator.Pod.Monitor.{
  MonitorProbeResult, Probed, Gauge, monitor, probe_url, monitor_source_http,
}
use kubepage_operator.Pod.Poll.{WidgetConfig, Widget, Polling, PollState, poll_widget}
use kubepage_operator.Pod.PodStatus.{status_up}
use kubepage_operator.Pod.PollFailure.{FailureLog, log_poll_failure}
use kubepage_operator.Pod.Schedule.{Schedule, due_poll, prune_widget_last_polled}
use kubepage_operator.Pod.Secrets.{resolve_widget_secrets, resolve_ca_cert}
use kubepage_operator.Pod.Store
use kubepage_operator.Pod.Store.{Card, Store}
use kubepage_operator.Pod.MonitorMetrics.{prune_monitor_metrics}
use kubepage_operator.Pod.Work.{status_style_dot, Cycling, Settings, Poller, Work}
use kubepage_operator.Pod.Job.{Job, run_job}

unfoldable pub site_defaults : Read Dashboard → String × Bool
site_defaults (found dash) = elim dash.style [
  | none ↦ (status_style_dot, false)
  | some style ↦ (
    or_else style.status_style status_style_dot,
    elim style.error_display [ none ↦ false | some shows ↦ not shows ],
  )
]
site_defaults not_found = (status_style_dot, false)
site_defaults (failed e) = (status_style_dot, false)

unfoldable pub dashboard_spec_for_poll : Read Dashboard → Option Dashboard
dashboard_spec_for_poll (found dash) = some dash
dashboard_spec_for_poll not_found = none
dashboard_spec_for_poll (failed e) = none

unfoldable pub discovery_spec_from_dashboard : Option Dashboard → Option DiscoverySpec
discovery_spec_from_dashboard none = none
discovery_spec_from_dashboard (some dash) = elim dash.discovery [
  | none ↦ none
  | some spec ↦ if spec.enabled then some spec else none
]

-- The two reads of the Dashboard in a cycle are one: a reader is what the cluster holds at that moment.
pub settings_of : Read Dashboard → Settings
unfolding site_defaults dashboard_spec_for_poll
settings_of get =
    let (status_style, hide_errors) = site_defaults get in
    elim (dashboard_spec_for_poll get) [
      | none ↦ record {
        status_style = status_style;
        hide_errors = hide_errors;
        defaults = [];
        allowed_monitor_namespaces = [];
        cluster_domain = default_cluster_domain;
      }
      | some dash ↦ record {
        status_style = status_style;
        hide_errors = hide_errors;
        defaults = dash.widget_defaults;
        allowed_monitor_namespaces = dash.monitor_namespaces;
        cluster_domain =
            if or_empty dash.cluster_domain == ""
            then default_cluster_domain
            else or_empty dash.cluster_domain;
      }
    ]

-- The jobs of the bound ServiceCards, one for each entry.
pub entry_jobs : String → String → ℕ → List ServiceEntry → List Job
entry_jobs ns name idx [] = []
entry_jobs ns name idx (se ∷ entries) =
    Job.entry_job ns name idx se ∷ entry_jobs ns name (idx + 1) entries

pub service_card_jobs : String → ℕ → List ServiceCard → List Job
unfolding entry_jobs
service_card_jobs dashboard_name count [] = []
service_card_jobs dashboard_name count (card ∷ cards) =
    let others = service_card_jobs dashboard_name count cards in
    if bound_to (ref_name card.dashboard_ref) dashboard_name count
    then entry_jobs card.namespace card.name 0 (service_entries card) ++ others
    else others

abbrev pub found_jobs : Result (List DiscoveredService) → List Job
found_jobs (err e) = []
found_jobs (ok services) = map (λ svc. Job.service_job svc) services

module _ (env : Cycling) where
  open env use {polling, namespace, dashboard_name, reader}
  open polling.engine use {to_lower}

  -- The two sources of discovery.
  pub discovery_jobs : Option DiscoverySpec → List Job
  discovery_jobs none = []
  discovery_jobs (some spec) =
      let extra = extra_discovery_namespaces spec namespace in
      (if has_source spec discovery_source_ingress
        then found_jobs (
            discover_services to_lower env.list_ingresses namespace env.list_extra_ingresses extra
              spec)
        else [])
      ++ (if has_source spec discovery_source_httproute && env.gateway_api_enabled
          then found_jobs (
              discover_http_routes to_lower env.list_routes namespace env.list_extra_routes extra
                spec)
          else [])

  -- Whether the cycle warns that the cluster has no HTTPRoutes, which the poller does once.
  warns_http_route : Option DiscoverySpec → Bool
  warns_http_route none = false
  warns_http_route (some spec) =
      has_source spec discovery_source_httproute && not env.gateway_api_enabled

  unfoldable pub header_entry_jobs : InfoWidget → ℕ → List InfoWidgetEntry → List Job
  header_entry_jobs iw idx [] = []
  header_entry_jobs iw idx (entry ∷ entries) =
      let others = header_entry_jobs iw (idx + 1) entries in
      if is_some (polling.lookup entry.type)
      then Job.header_job (text ("header/" ∷ iw.name ∷ "/" ∷ polling.fmt.decimal idx ∷ [])) iw entry
        ∷ others
      else others

  unfoldable pub info_widget_jobs : ℕ → List InfoWidget → List Job
  unfolding header_entry_jobs
  info_widget_jobs count [] = []
  info_widget_jobs count (iw ∷ widgets) =
      let others = info_widget_jobs count widgets in
      if bound_to (ref_name iw.dashboard_ref) dashboard_name count
      then header_entry_jobs iw 0 (info_widget_entries iw) ++ others
      else others

  abbrev pub header_jobs : ℕ → Listed InfoWidget → List Job
  unfolding info_widget_jobs
  header_jobs count (items widgets) = info_widget_jobs count widgets
  header_jobs count (list_failed e) = []

  pub cycle_jobs : Option Dashboard → ℕ → List ServiceCard → List Job
  unfolding service_card_jobs discovery_jobs header_jobs discovery_spec_from_dashboard
  cycle_jobs dash count cards =
      service_card_jobs dashboard_name count cards
      ++ (discovery_jobs (discovery_spec_from_dashboard dash)
          ++ header_jobs count (reader.list_info_widgets namespace))

  pub run_jobs : Settings → List Job → Work env → Work env
  unfolding run_job
  run_jobs settings [] w = w
  run_jobs settings (job ∷ jobs) w = run_jobs settings jobs (run_job env settings job w)

  publish_hashes : Store → Option Broadcaster → Option Broadcaster
  publish_hashes store none = none
  publish_hashes store (some b) =
      if has_subscribers b then some (publish (env.current_hashes store) b) else some b

  -- After `wg.Wait()`.
  pub finish_cycle : Work env → Poller env
  unfolding publish_hashes
  finish_cycle w =
      let poll = w.poller.poll in
      let store = Store.prune w.keep poll.store in
      record {
        poll = record poll {
          store = store;
          schedule = prune_widget_last_polled w.keep poll.schedule;
        };
        gauges = prune_monitor_metrics w.poller.monitor_labels w.labels w.poller.gauges;
        monitor_labels = w.labels;
        warned_http_route = w.poller.warned_http_route;
        broadcast = publish_hashes store w.poller.broadcast;
      }

  with_cards :
      (List Job → List Job) → Poller env → Read Dashboard → ℕ → Listed ServiceCard → Poller env
  unfolding cycle_jobs run_jobs finish_cycle settings_of warns_http_route
  with_cards arrange p get count (list_failed e) = p
  with_cards arrange p get count (items cards) =
      let dash = dashboard_spec_for_poll get in
      let warned = p.warned_http_route || warns_http_route (discovery_spec_from_dashboard dash) in
      let start : Work env = record {
        poller = record p { warned_http_route = warned };
        keep = [];
        labels = [];
      } in
      finish_cycle (run_jobs (settings_of get) (arrange (cycle_jobs dash count cards)) start)

  with_count : (List Job → List Job) → Poller env → Read Dashboard → Result ℕ → Poller env
  unfolding with_cards
  with_count arrange p get (err e) = p
  with_count arrange p get (ok count) =
      with_cards arrange p get count (reader.list_service_cards namespace)

  -- `arrange` is the order in which the pool takes up the closures.
  unfoldable pub poll_once : (List Job → List Job) → Poller env → Poller env
  unfolding with_count
  poll_once arrange p =
      with_count arrange p (reader.get_dashboard namespace dashboard_name)
        (namespace_dashboard_count reader namespace)
