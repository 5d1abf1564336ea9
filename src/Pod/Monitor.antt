-- ===== src/Pod/Monitor.antt =====
-- internal/dashboard/poller.go, monitor, and monitor.go, monitorResult: the HTTP and the pod monitor
-- of a service entry.
pub mod Isolation
mod Tests
use kubepage_operator.Prelude.{
  ℕ, suc, String, Bool, true, false, not, Option, none, some, List, [], ◌∷◌, ◌++◌, ◌==◌, ◌&&◌, ◌||◌,
  eqb, ltb, length, contains, if◌then◌else◌, or_else,
}
use kubepage_operator.Prelude.Format.{Format, text}
use kubepage_operator.Api.{ServiceEntry, LabelSelector, monitor_url_with_base, or_empty}
use kubepage_operator.Pod.PollFailure.{FailureLog, log_poll_failure, clear_poll_failure}
use kubepage_operator.Pod.Kube.{Monitors}
use kubepage_operator.Pod.PodStatus.{
  status_down, status_partial, status_up, pod_status, pod_monitor_selector,
}
use kubepage_operator.Pod.BaseUrl.{resolve_base_url, set_or, is_disallowed, reader_for}

abbrev sample_monitor_latency : String
sample_monitor_latency = "12 ms"

abbrev sample_monitor_ready_text : String
sample_monitor_ready_text = "2/2 ready"

abbrev no_matched_pods_ready_text : String
no_matched_pods_ready_text = "0/0 ready"

abbrev pub monitor_source_http : String
monitor_source_http = "http"

abbrev monitor_source_pods : String
monitor_source_pods = "pods"

-- What `probeHTTP` reports: an error, a status that counts as down, or one that counts as up, with
-- the rounded time that it took.
pub data Probed : Type 0 where
  probe_error : String → Probed
  answered_down : Probed
  answered_up : String → Probed

probed_result : String → Probed → FailureLog → (String × String) × FailureLog
probed_result url (probe_error e) log =
    ((status_down, ""), (log_poll_failure url (some e) "monitor probe failed" log).1)
probed_result url answered_down log = (
  (status_down, ""),
  (log_poll_failure url none "monitor probe returned a status treated as down" log).1,
)
probed_result url (answered_up took) log = ((status_up, took), clear_poll_failure url log)

unfoldable pub monitor_result :
    (String → Probed) → String → FailureLog → (String × String) × FailureLog
unfolding probed_result
monitor_result probe_http url log = probed_result url (probe_http url) log

-- A gauge of `monitorUp` that is set and recorded.
pub record Gauge : Type 0 where
  pub label : String
  pub source : String
  pub up : Bool

pub record MonitorProbeResult : Type 0 where
  pub status : String
  pub status_style : String
  pub latency : String
  pub pod_status : String
  pub pod_ready_text : String
  pub base_url : String
  pub err : String

-- What one of the two monitors gives, and whether it was made up.
pub record Half : Type 0 where
  pub status : String
  pub detail : String
  pub fabricated : Bool
  pub error : String

abbrev no_half : Half
no_half = record { status = ""; detail = ""; fabricated = false; error = "" }

abbrev sets_monitor : Option String → Bool
sets_monitor none = false
sets_monitor (some monitor) = not (monitor == "")

gauge_if : Bool → Gauge → List Gauge
gauge_if true gauge = gauge ∷ []
gauge_if false gauge = []

module _ (fmt : Format) where
  open fmt use {quote, decimal}

  module _ (p : Monitors) where
    module _ (namespace : String) (allowed_monitor_namespaces : List String) where
      probe_namespace : LabelSelector → String → Half
      probe_namespace selector pod_namespace =
          if is_disallowed fmt p namespace allowed_monitor_namespaces pod_namespace
          then record {
            status = status_down;
            detail = no_matched_pods_ready_text;
            fabricated = false;
            error = text (
                "pod monitor namespace "
                ∷ quote pod_namespace
                ∷ " is not allowed: add it to this Dashboard's spec.monitorNamespaces"
                ∷ []);
          }
          else (let (status, ready) =
                pod_status fmt p
                  (reader_for fmt p namespace allowed_monitor_namespaces pod_namespace)
                  pod_namespace selector in
              record { status = status; detail = ready; fabricated = false; error = "" })

      unfoldable pub probe_pod_monitor : ServiceEntry → LabelSelector → Half
      unfolding probe_namespace
      probe_pod_monitor se selector =
          if p.sample_data
          then record {
            status = status_up;
            detail = sample_monitor_ready_text;
            fabricated = false;
            error = "";
          }
          else probe_namespace selector (set_or se.namespace namespace)

      pod_half : ServiceEntry → Option LabelSelector → Half
      pod_half se none = no_half
      pod_half se (some selector) =
          if p.preview && not p.sample_data
          then record {
            status = status_up;
            detail = sample_monitor_ready_text;
            fabricated = true;
            error = "";
          }
          else probe_pod_monitor se selector

    unfoldable pub probe_url :
        (String → Probed) → String → FailureLog → (String × String) × FailureLog
    probe_url probe_http url log =
        if p.sample_data
        then ((status_up, sample_monitor_latency), log)
        else monitor_result probe_http url log

    http_half : (String → Probed) → Option String → String → FailureLog → Half × FailureLog
    http_half probe_http monitor url log =
        let ((status, latency), log') = probe_url probe_http url log in
        if not (url == "")
        then (record { status = status; detail = latency; fabricated = false; error = "" }, log')
        else if p.preview && (not p.sample_data && sets_monitor monitor)
        then (
          record {
            status = status_up;
            detail = sample_monitor_latency;
            fabricated = true;
            error = "";
          },
          log,
        )
        else (no_half, log)

    -- The two halves put together.
    combine : String → String → String × String → Half → Half → MonitorProbeResult × List Gauge
    unfolding gauge_if
    combine label style (base_url, url_error) http pods =
        let none_reports = http.status == "" && pods.status == "" in
        let result : MonitorProbeResult = record {
          status = http.status;
          status_style = if none_reports then "" else style;
          latency = http.detail;
          pod_status = pods.status;
          pod_ready_text = pods.detail;
          base_url = base_url;
          err = if pods.error == "" then url_error else pods.error;
        } in
        let http_gauge : Gauge = record {
          label = label;
          source = monitor_source_http;
          up = http.status == status_up;
        } in
        let pods_gauge : Gauge = record {
          label = label;
          source = monitor_source_pods;
          up = pods.status == status_up || pods.status == status_partial;
        } in
        (
          result,
          if none_reports || p.sample_data
              then []
              else gauge_if (not (http.status == "") && not http.fabricated) http_gauge
                ++ gauge_if (not (pods.status == "") && not pods.fabricated) pods_gauge,
        )

    unfoldable pub monitor :
        (String → Probed)
        → String
        → String
        → ServiceEntry
        → String
        → List String
        → String
        → FailureLog
        → (MonitorProbeResult × List Gauge) × FailureLog
    unfolding http_half pod_half combine
    monitor probe_http namespace cr_name se default_status_style allowed cluster_domain log =
        let base = resolve_base_url fmt p namespace allowed se cluster_domain in
        let (http, log') = http_half probe_http se.monitor (monitor_url_with_base se base.0) log in
        let pods = pod_half namespace allowed se (pod_monitor_selector se) in
        let label = text (namespace ∷ "/" ∷ cr_name ∷ "/" ∷ se.name ∷ []) in
        (combine label (or_else se.status_style default_status_style) base http pods, log')
