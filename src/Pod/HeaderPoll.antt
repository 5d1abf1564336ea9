-- ===== src/Pod/HeaderPoll.antt =====
-- internal/dashboard/poller.go, pollInfoWidget: the poll of a header widget.
pub mod Stored
use kubepage_operator.Prelude.{
  ℕ, String, true, false, Option, none, some, List, [], ◌∷◌, if◌then◌else◌,
}
use kubepage_operator.Prelude.Format.{text}
use kubepage_operator.Prelude.Map.{Map}
use kubepage_operator.Prelude.Result.{Result, ok, err}
use kubepage_operator.Api.{SecretValueSource, InfoWidgetEntry, InfoWidget, or_empty}
use kubepage_operator.Pod.Field.{Field}
use kubepage_operator.Pod.Poll.{WidgetConfig, Widget}
use kubepage_operator.Pod.PollFailure.{log_poll_failure}
use kubepage_operator.Pod.Schedule.{due_poll}
use kubepage_operator.Pod.Secrets.{resolve_widget_secrets, resolve_ca_cert}
use kubepage_operator.Pod.Store.{Card}
use kubepage_operator.Pod.Work.{Cycling, Settings, Work, with_poll, put_card}

module _ (env : Cycling) where
  open env use {polling, namespace, dashboard_name, reader, clock}

  header_card : String → InfoWidget → InfoWidgetEntry → ℕ → Card
  header_card key iw entry stamp = record {
    key = key;
    group = "";
    service_name = iw.name;
    widget_type = entry.type;
    order = entry.order;
    icon_url = "";
    description = "";
    href = "";
    target = "";
    header = true;
    show_stats = true;
    hide_errors = false;
    status = "";
    status_style = "";
    latency = "";
    pod_status = "";
    pod_ready_text = "";
    fields = [];
    error = "";
    updated_at = stamp;
  }

  abbrev put_answer : Card → Result (List Field) → Work env → Work env
  put_answer card answer w = elim answer [
    | err e ↦ put_card env (record card { error = e }) w
    | ok fields ↦ put_card env (record card { fields = fields }) w
  ]

  poll_info_widget_sample :
      Card → Option (WidgetConfig → List Field) → WidgetConfig → Work env → Work env
  poll_info_widget_sample card none cfg w =
      put_card env
        (record card {
          error =
              text ("no sample data for widget type " ∷ polling.fmt.quote card.widget_type ∷ []);
        })
        w
  poll_info_widget_sample card (some sample) cfg w =
      put_card env (record card { fields = sample cfg }) w

  -- `httpClientForCACert`, then the poll with its client.
  poll_http : (Option String → Widget) → WidgetConfig → Result (Option String) → Result (List Field)
  poll_http impl cfg (err e) = err e
  poll_http impl cfg (ok none) = (impl none).poll cfg
  poll_http impl cfg (ok (some ca_pem)) = elim (polling.build_client ca_pem) [
    | some e ↦ err e
    | none ↦ (impl (some ca_pem)).poll cfg
  ]

  answer_of :
      InfoWidget
      → InfoWidgetEntry
      → (Option String → Widget)
      → WidgetConfig
      → Option SecretValueSource
      → Result (List Field)
  unfolding poll_http
  answer_of iw entry impl cfg ca_cert = elim (env.cluster_poll entry.type) [
    | some poll_cluster ↦ poll_cluster cfg
    | none ↦
        poll_http impl cfg (resolve_ca_cert polling.fmt polling.secret_reader iw.namespace ca_cert)
  ]

  poll_resolved :
      String
      → InfoWidget
      → InfoWidgetEntry
      → (Option String → Widget)
      → Card
      → WidgetConfig
      → Result (Option SecretValueSource × Map String)
      → Work env
      → Work env
  unfolding answer_of
  poll_resolved key iw entry impl card cfg (err e) w =
      put_card env (record card { error = e })
        (with_poll env
          (record w.poller.poll {
            failures =
                (log_poll_failure key (some e) "resolving header widget secrets failed"
                  w.poller.poll.failures).1;
          })
          w)
  poll_resolved key iw entry impl card cfg (ok (ca_cert, secrets)) w =
      let cfg' = record cfg { secrets = secrets } in
      put_answer card (answer_of iw entry impl cfg' ca_cert) w

  -- With the registered widget; the caller has checked that there is one.
  poll_header :
      Settings
      → String
      → InfoWidget
      → InfoWidgetEntry
      → Option (Option String → Widget)
      → Work env
      → Work env
  unfolding header_card poll_info_widget_sample poll_resolved
  poll_header settings key iw entry none w = w
  poll_header settings key iw entry (some impl) w =
      let card = header_card key iw entry (clock key).stamp in
      let cfg : WidgetConfig = record {
        url = or_empty entry.url;
        secrets = [];
        config = entry.config;
      } in
      if polling.monitors.sample_data
      then poll_info_widget_sample card (impl none).sample cfg w
      else poll_resolved key iw entry impl card cfg
          (resolve_widget_secrets polling.fmt polling.secret_reader iw.namespace entry.type
            entry.secrets entry.secret_ref entry.ca_cert settings.defaults)
          w

  unfoldable pub poll_info_widget :
      Settings → String → InfoWidget → InfoWidgetEntry → Work env → Work env
  unfolding poll_header
  poll_info_widget settings key iw entry w =
      let c = clock key in
      let (due, schedule) =
        due_poll polling.interval key entry.poll_interval_seconds c.now c.later
          w.poller.poll.schedule in
      let w' = with_poll env (record w.poller.poll { schedule = schedule }) w in
      if due then poll_header settings key iw entry (polling.lookup entry.type) w' else w'
