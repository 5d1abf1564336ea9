-- ===== src/Pod/Work.antt =====
-- internal/dashboard/poller.go: what a poll cycle depends on, and what it changes.
use kubepage_operator.Prelude.{ℕ, String, Bool, true, Option, List, [], ◌∷◌, ◌≡◌, contains, is_some}
use kubepage_operator.Prelude.Map.{Map}
use kubepage_operator.Prelude.Result.{Result}
use kubepage_operator.Api.{WidgetDefaultsEntry}
use kubepage_operator.Cluster.{Reader, Listed}
use kubepage_operator.Pod.Broadcast.{SseHashes, Broadcaster}
use kubepage_operator.Pod.Discovery.{Ingress, HttpRoute}
use kubepage_operator.Pod.Field.{Field}
use kubepage_operator.Pod.Monitor.{Probed, Gauge}
use kubepage_operator.Pod.Poll.{WidgetConfig, Polling, PollState}
use kubepage_operator.Pod.Store
use kubepage_operator.Pod.Store.{Card, Store}
use kubepage_operator.Pod.MonitorMetrics.{monitor_label_key, set_gauge}

abbrev pub status_style_dot : String
status_style_dot = "dot"

-- The clock, where a poll of a key reads it: twice in `duePoll`, and for the card.
pub record Clock : Type 0 where
  pub now : ℕ
  pub later : ℕ
  pub stamp : ℕ

-- What a cycle depends on besides a widget's poll: the Dashboard's name and namespace, the reads,
-- the monitors' probe, the clock, and of a widget whether it is a ClusterWidget and what its
-- `PollCluster` gives; and what the page and its header would render as, by their hashes.
pub record Cycling : Type 1 where
  pub polling : Polling
  pub namespace : String
  pub dashboard_name : String
  pub reader : Reader
  pub list_ingresses : String → Listed Ingress
  pub list_extra_ingresses : String → Listed Ingress
  pub list_routes : String → Listed HttpRoute
  pub list_extra_routes : String → Listed HttpRoute
  pub gateway_api_enabled : Bool
  pub probe_http : String → Probed
  pub clock : String → Clock
  pub cluster_poll : String → Option (WidgetConfig → Result (List Field))
  pub current_hashes : Store → SseHashes

-- What a cycle reads once for all its polls.
pub record Settings : Type 0 where
  pub status_style : String
  pub hide_errors : Bool
  pub defaults : Map WidgetDefaultsEntry
  pub allowed_monitor_namespaces : List String
  pub cluster_domain : String

module _ (env : Cycling) where
  open env use {polling, namespace, dashboard_name, reader, clock}

  -- What the poller keeps from cycle to cycle.
  pub record Poller : Type 0 where
    pub poll : PollState polling
    pub gauges : List Gauge
    pub monitor_labels : List String
    pub warned_http_route : Bool
    pub broadcast : Option Broadcaster

  -- A cycle at work, with the keys to keep and the labels that it has recorded.
  pub record Work : Type 0 where
    pub poller : Poller
    pub keep : List String
    pub labels : List String

  abbrev pub with_poll : PollState polling → Work → Work
  with_poll poll w = record w { poller = record w.poller { poll = poll } }

  abbrev pub mark_keep : String → Work → Work
  mark_keep key w = record w { keep = key ∷ w.keep }

  unfoldable pub record_gauges : List Gauge → Work → Work
  unfolding set_gauge monitor_label_key
  record_gauges [] w = w
  record_gauges (g ∷ gauges) w = record_gauges gauges (record w {
    poller = record w.poller { gauges = set_gauge g w.poller.gauges };
    labels = monitor_label_key g.label g.source ∷ w.labels;
  })

  abbrev pub put_card : Card → Work → Work
  put_card card w =
      with_poll (record w.poller.poll { store = Store.set card w.poller.poll.store }) w

  -- A cycle that has come further: it stores a card under each key that it stored one under, and
  -- keeps each key that it kept.
  abbrev pub Holds : String → Work → Type 0
  Holds k w = is_some (Store.get k w.poller.poll.store) ≡ true

  pub record Grows (w w' : Work) : Type 0 where
    pub holds : (k : String) → Holds k w → Holds k w'
    pub keeps : (k : String) → contains w.keep k ≡ true → contains w'.keep k ≡ true

  pub Grows-refl : (w : Work) → Grows w w
  Grows-refl w = record { holds = λ k h. h; keeps = λ k h. h }

  pub Grows-trans : {u v w : Work} → Grows u v → Grows v w → Grows u w
  Grows-trans f g = record {
    holds = λ k h. g.holds k (f.holds k h);
    keeps = λ k h. g.keeps k (f.keeps k h);
  }
