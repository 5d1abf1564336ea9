-- ===== src/Pod/Monitor/Tests.antt =====
-- The monitors of the fixtures' entry.
use kubepage_operator.Prelude.{true, some, [], ◌∷◌, ◌≡◌, refl}
use kubepage_operator.Prelude.Map
use kubepage_operator.Api.{ServiceEntry, monitor_url_with_base}
use kubepage_operator.Pod.PollFailure.{clear_poll_failure}
use kubepage_operator.Pod.BaseUrl.{resolve_base_url}
use kubepage_operator.Pod.BaseUrl.Laws.{AgreeAllowed}
use kubepage_operator.Pod.PodStatus.{pod_ready, pod_status, pod_monitor_selector}
use kubepage_operator.Pod.Monitor.{
  answered_up, answered_down, probed_result, monitor_result, probe_url, probe_namespace,
  probe_pod_monitor, http_half, pod_half, gauge_if, combine, monitor,
}
use kubepage_operator.Pod.PodStatus.Laws.{status_of, pod_status_lem}
use kubepage_operator.Pod.Monitor.Isolation.{monitor-isolated}
use kubepage_operator.Fixtures.{plain_format, media_entry, monitors_with, ready_pod, starting_pod}

abbrev watched_entry : ServiceEntry
watched_entry = record media_entry { app = some "sonarr" }

abbrev foreign_entry : ServiceEntry
foreign_entry = record media_entry { app = some "sonarr"; namespace = some "other" }

monitors_computed : Unit {0}
unfolding monitor combine gauge_if http_half pod_half probe_pod_monitor probe_namespace pod_status
    pod_ready pod_monitor_selector probe_url monitor_result probed_result resolve_base_url
    monitor_url_with_base clear_poll_failure Map.delete Map.retain
monitors_computed = tt

monitor_tests :
    ((monitor plain_format
        (monitors_with [])
        (λ url. answered_up "3ms")
        "apps"
        "media"
        watched_entry
        "dot"
        []
        ""
        []).0.0.pod_status
      ≡ "Partial")
    × ((monitor plain_format
          (monitors_with [])
          (λ url. answered_up "3ms")
          "apps"
          "media"
          watched_entry
          "dot"
          []
          ""
          []).0.1
        ≡ record { label = "apps/media/Sonarr"; source = "http"; up = true }
          ∷ record { label = "apps/media/Sonarr"; source = "pods"; up = true }
          ∷ [])
    × ((monitor plain_format
          (monitors_with [])
          (λ url. answered_up "3ms")
          "apps"
          "media"
          foreign_entry
          "dot"
          []
          ""
          []).0.0.err
        ≡ "pod monitor namespace other is not allowed: add it to this Dashboard's spec.monitorNamespaces")
unfolding monitors_computed
monitor_tests = (refl, refl, refl)

pod_status_lem_example :
    (pod_status plain_format
      (monitors_with [])
      (monitors_with []).reader
      "apps"
      (record { match_labels = []; match_expressions = [] })).0
    ≡ status_of (ready_pod ∷ starting_pod ∷ [])
pod_status_lem_example =
    pod_status_lem plain_format (monitors_with []) (monitors_with []).reader "apps"
      (record { match_labels = []; match_expressions = [] }) (ready_pod ∷ starting_pod ∷ []) refl
      refl

other_pods : AgreeAllowed plain_format (monitors_with []) (monitors_with (ready_pod ∷ [])) "apps" []
other_pods = record {
  same_reader = refl;
  same_selectors = refl;
  same_preview = refl;
  same_sample = refl;
  services = λ ns h. refl;
  labeled = λ ns h. refl;
  pods = λ ns h. cc h;
}

monitor-isolated_example :
    monitor plain_format
      (monitors_with [])
      (λ url. answered_down)
      "apps"
      "media"
      foreign_entry
      "dot"
      []
      ""
      []
    ≡ monitor plain_format
        (monitors_with (ready_pod ∷ []))
        (λ url. answered_down)
        "apps"
        "media"
        foreign_entry
        "dot"
        []
        ""
        []
monitor-isolated_example =
    monitor-isolated plain_format (monitors_with []) (monitors_with (ready_pod ∷ [])) "apps" []
      other_pods (λ url. answered_down) "media" foreign_entry "dot" "" []
