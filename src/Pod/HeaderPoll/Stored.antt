-- ===== src/Pod/HeaderPoll/Stored.antt =====
-- The poll of a header widget takes no card away, and keeps no key of its own.
use kubepage_operator.Prelude.{
  String, Option, none, some, List, [], ◌≡◌, refl, inl, inr, Bool-cases,
}
use kubepage_operator.Prelude.Map.{Map}
use kubepage_operator.Prelude.Result.{Result, ok, err}
use kubepage_operator.Api.{SecretValueSource, InfoWidgetEntry, InfoWidget, or_empty}
use kubepage_operator.Pod.Field.{Field}
use kubepage_operator.Pod.Poll.{WidgetConfig, Widget}
use kubepage_operator.Pod.PollFailure.{log_poll_failure}
use kubepage_operator.Pod.Schedule.{due_poll}
use kubepage_operator.Pod.Secrets.{resolve_widget_secrets}
use kubepage_operator.Pod.Store.{Card}
use kubepage_operator.Pod.Work.{Cycling, Settings, Work, with_poll, Grows, Grows-refl}
use kubepage_operator.Pod.EntryPoll.Stored.{put_card-Grows}
use kubepage_operator.Pod.HeaderPoll.{
  header_card, put_answer, poll_info_widget_sample, answer_of, poll_resolved, poll_header,
  poll_info_widget,
}

module _ (env : Cycling) where
  open env use {polling}

  -- A step that keeps the cards and the keys to keep.
  pub record Leaves (w w' : Work env) : Type 0 where
    pub grows : Grows env w w'
    pub same : w'.keep ≡ w.keep

  put_answer-Leaves :
      (card : Card) (answer : Result (List Field)) (w : Work env)
      → Leaves w (put_answer env card answer w)
  put_answer-Leaves card (err e) w = record { grows = put_card-Grows env _ w; same = refl }
  put_answer-Leaves card (ok fields) w = record { grows = put_card-Grows env _ w; same = refl }

  sample-Leaves :
      (card : Card) (sample : Option (WidgetConfig → List Field)) (cfg : WidgetConfig)
      (w : Work env)
      → Leaves w (poll_info_widget_sample env card sample cfg w)
  unfolding poll_info_widget_sample
  sample-Leaves card none cfg w = record { grows = put_card-Grows env _ w; same = refl }
  sample-Leaves card (some sample) cfg w = record { grows = put_card-Grows env _ w; same = refl }

  poll_resolved-Leaves :
      (key : String) (iw : InfoWidget) (entry : InfoWidgetEntry) (impl : Option String → Widget)
      (card : Card) (cfg : WidgetConfig) (resolved : Result (Option SecretValueSource × Map String))
      (w : Work env)
      → Leaves w (poll_resolved env key iw entry impl card cfg resolved w)
  unfolding poll_resolved
  poll_resolved-Leaves key iw entry impl card cfg (err e) w =
      let logged =
        (log_poll_failure key (some e) "resolving header widget secrets failed"
          w.poller.poll.failures).1 in
      let puts =
        put_card-Grows env (record card { error = e })
          (with_poll env (record w.poller.poll { failures = logged }) w) in
      record { grows = record { holds = puts.holds; keeps = puts.keeps }; same = refl }
  poll_resolved-Leaves key iw entry impl card cfg (ok (ca_cert, secrets)) w =
      put_answer-Leaves card
        (answer_of env iw entry impl (record cfg { secrets = secrets }) ca_cert) w

  poll_header-Leaves :
      (settings : Settings) (key : String) (iw : InfoWidget) (entry : InfoWidgetEntry)
      (impl : Option (Option String → Widget)) (w : Work env)
      → Leaves w (poll_header env settings key iw entry impl w)
  unfolding poll_header
  poll_header-Leaves settings key iw entry none w = record { grows = Grows-refl env w; same = refl }
  poll_header-Leaves settings key iw entry (some impl) w =
      let card = header_card env key iw entry (env.clock key).stamp in
      let cfg : WidgetConfig = record {
        url = or_empty entry.url;
        secrets = [];
        config = entry.config;
      } in
      elim (Bool-cases polling.monitors.sample_data) [
        | inl sampled ↦ rw sampled (sample-Leaves card (impl none).sample cfg w)
        | inr live ↦ rw live (
            poll_resolved-Leaves key iw entry impl card cfg
              (resolve_widget_secrets polling.fmt polling.secret_reader iw.namespace entry.type
                entry.secrets entry.secret_ref entry.ca_cert settings.defaults)
              w)
      ]

  pub poll_info_widget-Leaves :
      (settings : Settings) (key : String) (iw : InfoWidget) (entry : InfoWidgetEntry)
      (w : Work env)
      → Leaves w (poll_info_widget env settings key iw entry w)
  unfolding poll_info_widget
  poll_info_widget-Leaves settings key iw entry w =
      let c = env.clock key in
      let due =
        due_poll polling.interval key entry.poll_interval_seconds c.now c.later
          w.poller.poll.schedule in
      let w' = with_poll env (record w.poller.poll { schedule = due.1 }) w in
      elim (Bool-cases due.0) [
        | inl is_due ↦
            let leaves = poll_header-Leaves settings key iw entry (polling.lookup entry.type) w' in
            rw is_due (record {
              grows = record { holds = leaves.grows.holds; keeps = leaves.grows.keeps };
              same = leaves.same;
            })
        | inr idle ↦
            rw idle (record { grows = record { holds = λ k h. h; keeps = λ k h. h }; same = refl })
      ]
