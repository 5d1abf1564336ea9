-- ===== src/Pod/Monitor/Isolation.antt =====
-- What a monitor can read.
use kubepage_operator.Prelude.{
  String, true, Option, none, some, List, ◌==◌, ◌≡◌, refl, contains, arith, Bool-cases, inl, inr,
}
use kubepage_operator.Prelude.Format.{Format}
use kubepage_operator.Api.{ServiceEntry, LabelSelector}
use kubepage_operator.Pod.PollFailure.{FailureLog}
use kubepage_operator.Pod.Kube.{Monitors}
use kubepage_operator.Pod.BaseUrl.{set_or, is_disallowed}
use kubepage_operator.Pod.BaseUrl.Laws.{AgreeAllowed, resolve_base_url-isolated}
use kubepage_operator.Pod.PodStatus.{pod_status, pod_monitor_selector}
use kubepage_operator.Pod.Monitor.{
  Probed, probe_url, http_half, probe_namespace, probe_pod_monitor, pod_half, combine, monitor,
}

module _ (fmt : Format) (p q : Monitors) (namespace : String) (allowed : List String)
    (h : AgreeAllowed fmt p q namespace allowed) where
  probe_namespace-same :
      (selector : LabelSelector) (ns : String)
      → probe_namespace fmt p namespace allowed selector ns
        ≡ probe_namespace fmt q namespace allowed selector ns
  unfolding probe_namespace pod_status
  probe_namespace-same selector ns = elim (Bool-cases (is_disallowed fmt p namespace allowed ns)) [
    | inl disallowed ↦ rw disallowed refl
    | inr allows ↦ elim (Bool-cases (ns == namespace)) [
      | inl own ↦ rw (allows, own) (rw (h.same_reader, h.same_selectors) refl)
      | inr foreign ↦
          let listed : contains allowed ns ≡ true = ground (arith, rw foreign at allows) in
          rw (allows, foreign) (rw (h.pods ns listed, h.same_selectors) refl)
    ]
  ]

  pod_half-same :
      (se : ServiceEntry) (selector : Option LabelSelector)
      → pod_half fmt p namespace allowed se selector ≡ pod_half fmt q namespace allowed se selector
  unfolding pod_half probe_pod_monitor pod_status
  pod_half-same se none = refl
  pod_half-same se (some selector) =
      rw
        (
          h.same_preview,
          h.same_sample,
          probe_namespace-same selector (set_or se.namespace namespace),
        )
        refl

  http_half-same :
      (probe_http : String → Probed) (monitor : Option String) (url : String) (log : FailureLog)
      → http_half fmt p probe_http monitor url log ≡ http_half fmt q probe_http monitor url log
  unfolding http_half probe_url
  http_half-same probe_http monitor url log = rw (h.same_preview, h.same_sample) refl

  -- A monitor's result, its gauges and its log do not depend on the Services and pods of a foreign
  -- namespace that the Dashboard's monitorNamespaces does not list: whatever those hold, and whether
  -- or not their reads fail, the card is the same.
  pub monitor-isolated :
      (probe_http : String → Probed) (cr_name : String) (se : ServiceEntry) (style : String)
      (cluster_domain : String) (log : FailureLog)
      → monitor fmt p probe_http namespace cr_name se style allowed cluster_domain log
        ≡ monitor fmt q probe_http namespace cr_name se style allowed cluster_domain log
  unfolding monitor combine
  monitor-isolated probe_http cr_name se style cluster_domain log =
      rw
        (
          resolve_base_url-isolated fmt p q namespace allowed h se cluster_domain,
          pod_half-same se (pod_monitor_selector se),
          http_half-same,
          h.same_sample,
        )
        refl
