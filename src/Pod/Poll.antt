-- ===== src/Pod/Poll.antt =====
-- internal/dashboard/poller.go, pollWidget: the card of a service's widget in a cycle.
pub mod Cards
pub mod Stored
mod Tests
use kubepage_operator.Prelude.{
  ℕ, String, Bool, true, false, not, Option, none, some, List, [], ◌∷◌, ◌==◌, ◌&&◌, ◌||◌, or_else,
  is_some, if◌then◌else◌, ℤ,
}
use kubepage_operator.Prelude.Format.{Format, text}
use kubepage_operator.Prelude.Map.{Map}
use kubepage_operator.Prelude.Result.{Result, ok, err}
use kubepage_operator.Api.{
  SecretValueSource, ServiceWidget, ServiceEntry, WidgetDefaultsEntry, or_empty,
}
use kubepage_operator.Cluster.{SecretReader}
use kubepage_operator.Pod.Field.{Field}
use kubepage_operator.Pod.Store
use kubepage_operator.Pod.Store.{Card, Store}
use kubepage_operator.Pod.Secrets.{resolve_widget_secrets, resolve_ca_cert}
use kubepage_operator.Pod.Highlight.{Engine, RegexCache, filter_fields, apply_highlights}
use kubepage_operator.Pod.Icon.{icon_url}
use kubepage_operator.Pod.PollFailure.{FailureLog, log_poll_failure}
use kubepage_operator.Pod.Kube.{Monitors}
use kubepage_operator.Pod.Monitor.{MonitorProbeResult}
use kubepage_operator.Pod.Schedule.{Schedule, due_poll}

pub record WidgetConfig : Type 0 where
  pub url : String
  pub secrets : Map String
  pub config : Option String

-- A registered widget type: its Sampler, if it has one, and its poll through the client for a CA
-- bundle, which is an error where the bundle makes no client.
pub record Widget : Type 0 where
  pub sample : Option (WidgetConfig → List Field)
  pub poll : WidgetConfig → Result (List Field)

-- What a poll depends on besides the objects: `lookup` is the registry of widgets,
-- `build_client` the error, if any, of making a client that trusts a CA bundle.
pub record Polling : Type 1 where
  pub fmt : Format
  pub engine : Engine
  pub monitors : Monitors
  pub secret_reader : SecretReader
  pub interval : ℕ
  pub lookup : String → Option (Option String → Widget)
  pub build_client : String → Option String

-- What the poller changes.
module _ (env : Polling) where
  open env use {fmt, engine, monitors, secret_reader, interval, lookup, build_client}
  open fmt use {quote}

  pub record PollState : Type 0 where
    pub store : Store
    pub schedule : Schedule
    pub failures : FailureLog
    pub regexes : RegexCache engine

  abbrev pub hides_errors : ServiceEntry → Bool → Bool
  hides_errors se default_hide_errors = elim se.error_display [
    | none ↦ default_hide_errors
    | some shows ↦ not shows
  ]

  -- Where errors are not hidden, a text that is not empty replaces the card's error.
  abbrev with_error : Bool → String → Card → Card
  with_error hides e card = if hides || e == "" then card else record card { error = e }

  pub new_card : String → ServiceEntry → Bool → MonitorProbeResult → ℕ → Card
  new_card key se hides m now =
      let card : Card = record {
        key = key;
        group = se.group;
        service_name = se.name;
        widget_type = "";
        order = se.order;
        icon_url = icon_url engine.to_lower se.icon;
        description = or_empty se.description;
        href = or_empty se.href;
        target = or_empty se.target;
        header = false;
        show_stats = or_else se.show_stats true;
        hide_errors = hides;
        status = m.status;
        status_style = m.status_style;
        latency = m.latency;
        pod_status = m.pod_status;
        pod_ready_text = m.pod_ready_text;
        fields = [];
        error = "";
        updated_at = now;
      } in
      card

  abbrev put : Card → PollState → PollState
  put card s = record s { store = Store.set card s.store }

  -- The stored card, or a new one without the monitor's result.
  stored_or_new : String → ServiceEntry → Bool → MonitorProbeResult → ℕ → Option Card → Card
  stored_or_new key se hides m now (some card) = card
  stored_or_new key se hides m now none = new_card key se hides m now

  unfoldable pub merge_monitor_into_stored_card :
      String → ServiceEntry → MonitorProbeResult → Bool → ℕ → PollState → PollState
  unfolding stored_or_new new_card
  merge_monitor_into_stored_card key se m default_hide_errors now s =
      let hides = hides_errors se default_hide_errors in
      let card = stored_or_new key se hides m now (Store.get key s.store) in
      let merged = record card {
        hide_errors = hides;
        status = m.status;
        status_style = m.status_style;
        latency = m.latency;
        pod_status = m.pod_status;
        pod_ready_text = m.pod_ready_text;
        updated_at = now;
      } in
      put (with_error hides m.err merged) s

  set_error : String → Card → Card
  set_error e card = if card.hide_errors then card else record card { error = e }

  -- What a poll gives: an error, or fields to filter and to highlight.
  finish_poll : ServiceWidget → Card → Result (List Field) → PollState → PollState
  unfolding set_error
  finish_poll widget card (err e) s = put (set_error e card) s
  finish_poll widget card (ok fields) s =
      let (shown, regexes) =
        apply_highlights engine (filter_fields fields widget.fields) widget.highlight s.regexes in
      if card.show_stats
      then put (record card { fields = shown }) (record s { regexes = regexes })
      else put card s

  fail_poll : String → Option String → String → String → Card → PollState → PollState
  unfolding set_error
  fail_poll key e msg card_error card s =
      put (set_error card_error card)
        (record s { failures = (log_poll_failure key e msg s.failures).1 })

  poll_widget_sample :
      ServiceWidget
      → Card
      → Option (WidgetConfig → List Field)
      → WidgetConfig
      → PollState
      → PollState
  unfolding set_error finish_poll
  poll_widget_sample widget card none cfg s =
      put (set_error (text ("no sample data for widget type " ∷ quote widget.type ∷ [])) card) s
  poll_widget_sample widget card (some sample) cfg s = finish_poll widget card (ok (sample cfg)) s

  abbrev client_failed : String
  client_failed = "building widget HTTP client from caCert failed"

  with_built :
      String → ServiceWidget → Card → Widget → WidgetConfig → Option String → PollState → PollState
  unfolding fail_poll finish_poll
  with_built key widget card impl cfg (some e) s = fail_poll key (some e) client_failed e card s
  with_built key widget card impl cfg none s = finish_poll widget card (impl.poll cfg) s

  with_client :
      String
      → ServiceWidget
      → Card
      → (Option String → Widget)
      → WidgetConfig
      → Result (Option String)
      → PollState
      → PollState
  unfolding fail_poll with_built
  with_client key widget card impl cfg (err e) s = fail_poll key (some e) client_failed e card s
  with_client key widget card impl cfg (ok none) s =
      with_built key widget card (impl none) cfg none s
  with_client key widget card impl cfg (ok (some ca_pem)) s =
      with_built key widget card (impl (some ca_pem)) cfg (build_client ca_pem) s

  with_secrets :
      String
      → String
      → ServiceWidget
      → Card
      → (Option String → Widget)
      → WidgetConfig
      → Result (Option SecretValueSource × Map String)
      → PollState
      → PollState
  unfolding fail_poll with_client
  with_secrets key namespace widget card impl cfg (err e) s =
      fail_poll key (some e) "resolving widget secrets failed" e card s
  with_secrets key namespace widget card impl cfg (ok (ca_cert, secrets)) s =
      with_client key widget card impl (record cfg { secrets = secrets })
        (resolve_ca_cert fmt secret_reader namespace ca_cert) s

  poll_registered :
      String
      → String
      → ServiceWidget
      → String
      → Map WidgetDefaultsEntry
      → Card
      → Option (Option String → Widget)
      → PollState
      → PollState
  unfolding fail_poll poll_widget_sample with_secrets
  poll_registered key namespace widget base_url defaults card none s =
      fail_poll key none
        "unsupported widget type: the running dashboard image may be older than this config"
        (text ("unsupported widget type " ∷ quote widget.type ∷ [])) card s
  poll_registered key namespace widget base_url defaults card (some impl) s =
      let cfg : WidgetConfig = record {
        url = or_else widget.url base_url;
        secrets = [];
        config = widget.config;
      } in
      let unreachable = monitors.preview && (not (is_some widget.url) && cfg.url == "") in
      if monitors.sample_data || unreachable
      then poll_widget_sample widget card (impl none).sample cfg s
      else with_secrets key namespace widget card impl cfg
          (resolve_widget_secrets fmt secret_reader namespace widget.type widget.secrets
            widget.secret_ref widget.ca_cert defaults)
          s

  poll_due :
      String
      → String
      → Option ServiceWidget
      → String
      → Map WidgetDefaultsEntry
      → Card
      → PollState
      → PollState
  unfolding poll_registered
  poll_due key namespace none base_url defaults card s = put card s
  poll_due key namespace (some widget) base_url defaults card s =
      poll_registered key namespace widget base_url defaults
        (record card { widget_type = widget.type }) (lookup widget.type) s

  -- Whether the widget is due; an entry without one always is.
  pub check_due : String → Option ServiceWidget → ℕ → ℕ → Schedule → Bool × Schedule
  check_due key none now later schedule = (true, schedule)
  check_due key (some widget) now later schedule =
      due_poll interval key widget.poll_interval_seconds now later schedule

  -- `now` and `later` are the clock in `duePoll`, `stamp` that of the card.
  unfoldable pub poll_widget :
      String
      → String
      → ServiceEntry
      → Option ServiceWidget
      → MonitorProbeResult
      → Bool
      → Map WidgetDefaultsEntry
      → ℕ
      → ℕ
      → ℕ
      → PollState
      → PollState
  unfolding check_due poll_due new_card
  poll_widget key namespace se widget m default_hide_errors defaults now later stamp s =
      let (due, schedule) = check_due key widget now later s.schedule in
      let s' = record s { schedule = schedule } in
      let hides = hides_errors se default_hide_errors in
      let card = with_error hides m.err (new_card key se hides m stamp) in
      if due
      then poll_due key namespace widget m.base_url defaults card s'
      else merge_monitor_into_stored_card key se m default_hide_errors stamp s'
