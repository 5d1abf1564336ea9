-- ===== src/Pod/Poll/Cards.antt =====
-- The card that a poll leaves, on every branch.
use kubepage_operator.Prelude.{
  ℕ, String, Bool, true, false, not, Option, none, some, List, [], ◌∷◌, ◌==◌, ◌&&◌, ◌||◌, ◌≡◌, refl,
  ◌∙◌, if◌then◌else◌, Bool-cases, Option-cases, inl, inr, is_some, or_else,
}
use kubepage_operator.Prelude.Format.{text}
use kubepage_operator.Prelude.Map.{Map}
use kubepage_operator.Prelude.Result.{Result, ok, err}
use kubepage_operator.Api.{
  SecretValueSource, ServiceWidget, ServiceEntry, WidgetDefaultsEntry, or_empty,
}
use kubepage_operator.Pod.Field.{Field}
use kubepage_operator.Pod.Icon.{icon_url}
use kubepage_operator.Pod.Store
use kubepage_operator.Pod.Store.{Card, Store}
use kubepage_operator.Pod.Secrets.{resolve_widget_secrets, resolve_ca_cert}
use kubepage_operator.Pod.Monitor.{MonitorProbeResult}
use kubepage_operator.Pod.Poll.{
  WidgetConfig, Widget, Polling, PollState, hides_errors, with_error, new_card, set_error,
  finish_poll, fail_poll, poll_widget_sample, client_failed, with_built, with_client, with_secrets,
  poll_registered, poll_due, check_due, poll_widget,
}

-- A card less what its widget decides.
abbrev pub frame : Card → Card
frame c = record c { fields = []; error = ""; widget_type = "" }

abbrev pub hidden_error : Card → String
hidden_error c = if c.hide_errors then c.error else ""

module _ (env : Polling) where
  -- A step writes one card, which differs from `card` in what the widget decides, at most, and in
  -- its error only where errors are shown.
  abbrev Writes : Card → PollState env → PollState env → Type 0
  Writes card s s' =
      (c : Card) × (s'.store ≡ Store.set c s.store)
      × (frame c ≡ frame card)
      × (hidden_error c ≡ hidden_error card)

  set_error-keeps :
      (e : String) (card : Card)
      → (frame (set_error env e card) ≡ frame card)
        × (hidden_error (set_error env e card) ≡ hidden_error card)
  unfolding set_error
  set_error-keeps e card = elim (Bool-cases card.hide_errors) [
    | inl hides ↦ rw hides (refl, refl)
    | inr shows ↦ rw shows (refl, refl)
  ]

  finish_poll-Writes :
      (widget : ServiceWidget) (card : Card) (answer : Result (List Field)) (s : PollState env)
      → Writes card s (finish_poll env widget card answer s)
  unfolding finish_poll
  finish_poll-Writes widget card (err e) s =
      let (same, hidden) = set_error-keeps e card in (_, refl, same, hidden)
  finish_poll-Writes widget card (ok fields) s = elim (Bool-cases card.show_stats) [
    | inl shows ↦ rw shows (_, refl, refl, refl)
    | inr bare ↦ rw bare (_, refl, refl, refl)
  ]

  fail_poll-Writes :
      (key : String) (e : Option String) (msg shown : String) (card : Card) (s : PollState env)
      → Writes card s (fail_poll env key e msg shown card s)
  unfolding fail_poll
  fail_poll-Writes key e msg shown card s =
      let (same, hidden) = set_error-keeps shown card in (_, refl, same, hidden)

  sample-Writes :
      (widget : ServiceWidget) (card : Card) (sample : Option (WidgetConfig → List Field))
      (cfg : WidgetConfig) (s : PollState env)
      → Writes card s (poll_widget_sample env widget card sample cfg s)
  unfolding poll_widget_sample
  sample-Writes widget card none cfg s =
      let (same, hidden) = set_error-keeps _ card in (_, refl, same, hidden)
  sample-Writes widget card (some sample) cfg s = finish_poll-Writes widget card (ok (sample cfg)) s

  with_built-Writes :
      (key : String) (widget : ServiceWidget) (card : Card) (impl : Widget) (cfg : WidgetConfig)
      (broken : Option String) (s : PollState env)
      → Writes card s (with_built env key widget card impl cfg broken s)
  unfolding with_built
  with_built-Writes key widget card impl cfg (some e) s =
      fail_poll-Writes key (some e) (client_failed env) e card s
  with_built-Writes key widget card impl cfg none s =
      finish_poll-Writes widget card (impl.poll cfg) s

  with_client-Writes :
      (key : String) (widget : ServiceWidget) (card : Card) (impl : Option String → Widget)
      (cfg : WidgetConfig) (ca : Result (Option String)) (s : PollState env)
      → Writes card s (with_client env key widget card impl cfg ca s)
  unfolding with_client
  with_client-Writes key widget card impl cfg (err e) s =
      fail_poll-Writes key (some e) (client_failed env) e card s
  with_client-Writes key widget card impl cfg (ok none) s =
      with_built-Writes key widget card (impl none) cfg none s
  with_client-Writes key widget card impl cfg (ok (some ca_pem)) s =
      with_built-Writes key widget card (impl (some ca_pem)) cfg (env.build_client ca_pem) s

  with_secrets-Writes :
      (key namespace : String) (widget : ServiceWidget) (card : Card)
      (impl : Option String → Widget) (cfg : WidgetConfig)
      (resolved : Result (Option SecretValueSource × Map String)) (s : PollState env)
      → Writes card s (with_secrets env key namespace widget card impl cfg resolved s)
  unfolding with_secrets
  with_secrets-Writes key namespace widget card impl cfg (err e) s =
      fail_poll-Writes key (some e) "resolving widget secrets failed" e card s
  with_secrets-Writes key namespace widget card impl cfg (ok (ca_cert, secrets)) s =
      with_client-Writes key widget card impl (record cfg { secrets = secrets })
        (resolve_ca_cert env.fmt env.secret_reader namespace ca_cert) s

  poll_registered-Writes :
      (key namespace : String) (widget : ServiceWidget) (base_url : String)
      (defaults : Map WidgetDefaultsEntry) (card : Card) (impl : Option (Option String → Widget))
      (s : PollState env)
      → Writes card s (poll_registered env key namespace widget base_url defaults card impl s)
  unfolding poll_registered
  poll_registered-Writes key namespace widget base_url defaults card none s =
      fail_poll-Writes key none
        "unsupported widget type: the running dashboard image may be older than this config"
        (text ("unsupported widget type " ∷ env.fmt.quote widget.type ∷ [])) card s
  poll_registered-Writes key namespace widget base_url defaults card (some impl) s =
      let unreachable =
        env.monitors.preview && (not (is_some widget.url) && or_else widget.url base_url == "") in
      elim (Bool-cases (env.monitors.sample_data || unreachable)) [
        | inl sampled ↦ rw sampled (
            sample-Writes widget card (impl none).sample
              (record { url = or_else widget.url base_url; secrets = []; config = widget.config })
              s)
        | inr live ↦ rw live (
            with_secrets-Writes key namespace widget card impl
              (record { url = or_else widget.url base_url; secrets = []; config = widget.config })
              (resolve_widget_secrets env.fmt env.secret_reader namespace widget.type widget.secrets
                widget.secret_ref widget.ca_cert defaults)
              s)
      ]

  poll_due-Writes :
      (key namespace : String) (widget : Option ServiceWidget) (base_url : String)
      (defaults : Map WidgetDefaultsEntry) (card : Card) (s : PollState env)
      → Writes card s (poll_due env key namespace widget base_url defaults card s)
  unfolding poll_due
  poll_due-Writes key namespace none base_url defaults card s = (card, refl, refl, refl)
  poll_due-Writes key namespace (some widget) base_url defaults card s =
      poll_registered-Writes key namespace widget base_url defaults
        (record card { widget_type = widget.type }) (env.lookup widget.type) s

  with_error-keeps :
      (e : String) (card : Card)
      → card.error ≡ ""
      → (frame (with_error env card.hide_errors e card) ≡ frame card)
        × (hidden_error (with_error env card.hide_errors e card) ≡ "")
  with_error-keeps e card none_set = elim (Bool-cases card.hide_errors) [
    | inl hides ↦ rw hides (refl, none_set)
    | inr shows ↦ elim (Bool-cases (e == "")) [
      | inl empty ↦ rw (shows, empty) (refl, refl)
      | inr some_error ↦ rw (shows, some_error) (refl, refl)
    ]
  ]

  -- The entry's card with a monitor's result, less what the widget decides.
  abbrev pub entry_frame : String → ServiceEntry → Bool → MonitorProbeResult → ℕ → Card
  entry_frame key se hides m stamp = record {
    key = key;
    group = se.group;
    service_name = se.name;
    widget_type = "";
    order = se.order;
    icon_url = icon_url env.engine.to_lower se.icon;
    description = or_else se.description "";
    href = or_else se.href "";
    target = or_else se.target "";
    header = false;
    show_stats = or_else se.show_stats true;
    hide_errors = hides;
    status = m.status;
    status_style = m.status_style;
    latency = m.latency;
    pod_status = m.pod_status;
    pod_ready_text = m.pod_ready_text;
    fields = [];
    error = "";
    updated_at = stamp;
  }

  or_empty-or_else : (text : Option String) → or_empty text ≡ or_else text ""
  or_empty-or_else none = refl
  or_empty-or_else (some t) = refl

  frame-new_card :
      (key : String) (se : ServiceEntry) (hides : Bool) (m : MonitorProbeResult) (stamp : ℕ)
      → frame (new_card env key se hides m stamp) ≡ entry_frame key se hides m stamp
  unfolding new_card
  frame-new_card key se hides m stamp =
      rw (or_empty-or_else se.description, or_empty-or_else se.href, or_empty-or_else se.target)
        refl

  -- A poll that is due writes exactly one card, whatever the widget's type, its Secrets, its CA bundle
  -- and its upstream do: the entry's, with the monitor's result of this cycle. Where the entry hides
  -- errors, the card shows none.
  pub poll_widget-due :
      (key namespace : String) (se : ServiceEntry) (widget : Option ServiceWidget)
      (m : MonitorProbeResult) (default_hide_errors : Bool) (defaults : Map WidgetDefaultsEntry)
      (now later stamp : ℕ) (s : PollState env)
      → (check_due env key widget now later s.schedule).0 ≡ true
      → (c : Card) × ((poll_widget env key namespace se widget m default_hide_errors defaults now
            later stamp s).store
          ≡ Store.set c s.store)
        × (frame c
            ≡ entry_frame key se
                (if is_some se.error_display
                  then not (or_else se.error_display true)
                  else default_hide_errors)
                m
                stamp)
        × (hidden_error c ≡ "")
  unfolding poll_widget new_card
  poll_widget-due key namespace se widget m default_hide_errors defaults now later stamp s due =
      let hides = hides_errors env se default_hide_errors in
      let card = new_card env key se hides m stamp in
      let base = with_error env hides m.err card in
      let s' : PollState env = record s {
        schedule = (check_due env key widget now later s.schedule).1;
      } in
      let (c, stored, same, hidden) =
        poll_due-Writes key namespace widget m.base_url defaults base s' in
      let (framed, silent) = with_error-keeps m.err card refl in
      let stated : hides_errors env se default_hide_errors ≡ (
          if is_some se.error_display
          then not (or_else se.error_display true)
          else default_hide_errors) =
        elim (Option-cases se.error_display) [ inl e ↦ rw e refl | inr (shows, e) ↦ rw e refl ] in
      rw (due, ← stated)
        (c, stored, same ∙ framed ∙ frame-new_card key se hides m stamp, hidden ∙ silent)
