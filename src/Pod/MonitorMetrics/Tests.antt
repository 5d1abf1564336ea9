-- ===== src/Pod/MonitorMetrics/Tests.antt =====
-- A series that is exported again, and one that is not.
use kubepage_operator.Prelude.{
  String, true, false, List, [], ◌∷◌, ◌≡◌, refl, contains, In, ◌↔◌, ◌&&◌, not,
}
use kubepage_operator.Prelude.Format.{cut}
use kubepage_operator.Pod.Monitor.{Gauge}
use kubepage_operator.Pod.MonitorMetrics.{
  monitor_label_key, split_monitor_label_key, delete_gauge, prune_monitor_metrics,
}
use kubepage_operator.Pod.MonitorMetrics.Labels.{lacks_separator, prune_monitor_metrics-In}

abbrev sonarr_up : Gauge
sonarr_up = record { label = "apps/media/Sonarr"; source = "http"; up = true }

abbrev radarr_up : Gauge
radarr_up = record { label = "apps/media/Radarr"; source = "http"; up = false }

abbrev labels : List String
labels = "apps/media/Sonarr\u{1f}http" ∷ "apps/media/Radarr\u{1f}http" ∷ []

prune_monitor_metrics_test :
    prune_monitor_metrics labels ("apps/media/Radarr\u{1f}http" ∷ []) (sonarr_up ∷ radarr_up ∷ [])
    ≡ radarr_up ∷ []
unfolding prune_monitor_metrics delete_gauge split_monitor_label_key cut
prune_monitor_metrics_test = refl

prune_monitor_metrics-In_example :
    In radarr_up (
      prune_monitor_metrics labels
        ("apps/media/Radarr\u{1f}http" ∷ [])
        (sonarr_up ∷ radarr_up ∷ []))
    ↔ (In radarr_up (sonarr_up ∷ radarr_up ∷ [])
        × ((contains labels (monitor_label_key "apps/media/Radarr" "http")
              && not (
                  contains
                    ("apps/media/Radarr\u{1f}http" ∷ [])
                    (monitor_label_key "apps/media/Radarr" "http")))
            ≡ false))
unfolding lacks_separator monitor_label_key
prune_monitor_metrics-In_example =
    prune_monitor_metrics-In labels ("apps/media/Radarr\u{1f}http" ∷ [])
      (sonarr_up ∷ radarr_up ∷ []) radarr_up refl
      (("apps/media/Sonarr", "http", refl, refl), (("apps/media/Radarr", "http", refl, refl), tt))
