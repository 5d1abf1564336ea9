-- ===== src/Pod/EntryPoll/Stored.antt =====
-- The cards that the polls of an entry and of a discovered service leave, and the keys that they keep.
use kubepage_operator.Prelude.{
  ℕ, zero, suc, ◌+◌, ◌<◌, String, true, not, Option, none, some, List, [], ◌∷◌, ◌==◌, ◌&&◌, ◌||◌,
  ◌≡◌, refl, sym, ap, ◌∙◌, subst, ◌⊎◌, inl, inr, arith, Bool-cases, contains, length, eq_iff,
  eq_refl,
}
use kubepage_operator.Api.{ServiceWidget, ServiceEntry}
use kubepage_operator.Pod.Store.{Card}
use kubepage_operator.Pod.Discovery.{DiscoveredService}
use kubepage_operator.Pod.Merge.Keys.{widget_key, monitor_key}
use kubepage_operator.Pod.Monitor.{MonitorProbeResult, Gauge, monitor, probe_url}
use kubepage_operator.Pod.Poll.{PollState}
use kubepage_operator.Pod.PollFailure.{FailureLog}
use kubepage_operator.Pod.Poll.Stored.{poll_widget-stores, is_some-get-set}
use kubepage_operator.Pod.Work.{
  Cycling, Settings, Work, with_poll, record_gauges, put_card, Holds, Grows, Grows-refl,
  Grows-trans,
}
use kubepage_operator.Pod.EntryPoll.{
  poll_key, poll_widgets, poll_monitored, after_monitor, poll_entry, poll_discovered_service,
  put_probed, zero_card,
}

module _ (env : Cycling) where
  open env use {polling}

  pub record_gauges-keep :
      (gauges : List Gauge) (w : Work env)
      → ((record_gauges env gauges w).keep ≡ w.keep)
        × ((record_gauges env gauges w).poller.poll ≡ w.poller.poll)
  unfolding record_gauges
  record_gauges-keep [] w = (refl, refl)
  record_gauges-keep (g ∷ gauges) w = record_gauges-keep gauges _

  -- The cycle stores a card under a key, and keeps it.
  abbrev pub Stores : String → Work env → Type 0
  Stores k w = Holds env k w × (contains w.keep k ≡ true)

  -- A step after which the cycle keeps one more key, and stores a card under it.
  record Marks (key : String) (w w' : Work env) : Type 0 where
    grows : Grows env w w'
    holds : Holds env key w'
    keeps : (k : String) → contains w'.keep k ≡ (key == k || contains w.keep k)

  poll_key-Marks :
      (settings : Settings) (key ns : String) (se : ServiceEntry) (widget : Option ServiceWidget)
      (m : MonitorProbeResult) (w : Work env)
      → Marks key w (poll_key env settings key ns se widget m w)
  unfolding poll_key
  poll_key-Marks settings key ns se widget m w =
      let stores =
        poll_widget-stores polling key ns se widget m settings.hide_errors settings.defaults _ _ _
          w.poller.poll in
      record {
        grows = record { holds = λ k h. stores k (ground arith); keeps = λ k h. ground arith };
        holds = stores key (ground (arith, eq_refl key));
        keeps = λ k. refl;
      }

  -- The keys of an entry's cards.
  pub data IsEntryKey (ns name : String) (idx : ℕ) (se : ServiceEntry) (k : String) : Type 0 where
    of_monitor :
        se.widgets ≡ [] → k ≡ monitor_key polling.fmt ns name idx → IsEntryKey ns name idx se k
    of_widget :
        (i : ℕ)
        → i < length se.widgets
        → k ≡ widget_key polling.fmt ns name idx i
        → IsEntryKey ns name idx se k

  poll_widgets-Grows :
      (settings : Settings) (ns name : String) (idx : ℕ) (se : ServiceEntry)
      (m : MonitorProbeResult) (i : ℕ) (widgets : List ServiceWidget) (w : Work env)
      → Grows env w (poll_widgets env settings ns name idx se m i widgets w)
  unfolding poll_widgets
  poll_widgets-Grows settings ns name idx se m i [] w = Grows-refl env w
  poll_widgets-Grows settings ns name idx se m i (widget ∷ widgets) w =
      let key = widget_key polling.fmt ns name idx i in
      Grows-trans env (poll_key-Marks settings key ns se (some widget) m w).grows
        (poll_widgets-Grows settings ns name idx se m (i + 1) widgets _)

  poll_widgets-keys :
      (settings : Settings) (ns name : String) (idx : ℕ) (se : ServiceEntry)
      (m : MonitorProbeResult) (i : ℕ) (widgets : List ServiceWidget) (w : Work env) (k : String)
      → contains (poll_widgets env settings ns name idx se m i widgets w).keep k ≡ true
      → (contains w.keep k ≡ true)
        ⊎ ((j : ℕ) × (j < length widgets) × (k ≡ widget_key polling.fmt ns name idx (i + j)))
  unfolding poll_widgets
  poll_widgets-keys settings ns name idx se m i [] w k h = inl h
  poll_widgets-keys settings ns name idx se m i (widget ∷ widgets) w k h =
      let key = widget_key polling.fmt ns name idx i in
      let marks = poll_key-Marks settings key ns se (some widget) m w in
      elim (poll_widgets-keys settings ns name idx se m (i + 1) widgets _ k h) [
        | inl kept ↦ elim (Bool-cases (key == k)) [
          | inl same ↦ inr (
            0,
            omega arith,
            sym ((eq_iff key k).0 same)
                ∙ ap (λ n. widget_key polling.fmt ns name idx n) (omega arith),
          )
          | inr other ↦ inl (ground (arith, marks.keeps k))
        ]
        | inr (j, l, e) ↦
            inr
              (suc j, omega arith, e ∙ ap (λ n. widget_key polling.fmt ns name idx n) (omega arith))
      ]

  poll_widgets-holds :
      (settings : Settings) (ns name : String) (idx : ℕ) (se : ServiceEntry)
      (m : MonitorProbeResult) (i : ℕ) (widgets : List ServiceWidget) (w : Work env) (j : ℕ)
      → j < length widgets
      → Stores
          (widget_key polling.fmt ns name idx (i + j))
          (poll_widgets env settings ns name idx se m i widgets w)
  unfolding poll_widgets
  poll_widgets-holds settings ns name idx se m i [] w j l = absurd (omega arith)
  poll_widgets-holds settings ns name idx se m i (widget ∷ widgets) w zero l =
      let key = widget_key polling.fmt ns name idx i in
      let marks = poll_key-Marks settings key ns se (some widget) m w in
      let next = poll_key env settings key ns se (some widget) m w in
      let grows = poll_widgets-Grows settings ns name idx se m (i + 1) widgets next in
      let here : i ≡ i + 0 = omega arith in
      let all = poll_widgets env settings ns name idx se m (i + 1) widgets next in
      subst (λ n. Stores (widget_key polling.fmt ns name idx n) all) here
        (
          grows.holds key marks.holds,
          grows.keeps key (ground (arith, marks.keeps key, eq_refl key)),
        )
  poll_widgets-holds settings ns name idx se m i (widget ∷ widgets) w (suc j) l =
      let there : (i + 1) + j ≡ i + suc j = omega arith in
      let next =
        poll_key env settings (widget_key polling.fmt ns name idx i) ns se (some widget) m w in
      let all = poll_widgets env settings ns name idx se m (i + 1) widgets next in
      subst (λ n. Stores (widget_key polling.fmt ns name idx n) all) there
        (poll_widgets-holds settings ns name idx se m (i + 1) widgets next j (omega arith))

  poll_monitored-Grows :
      (settings : Settings) (ns name : String) (idx : ℕ) (se : ServiceEntry)
      (m : MonitorProbeResult) (widgets : List ServiceWidget) (w : Work env)
      → Grows env w (poll_monitored env settings ns name idx se m widgets w)
  unfolding poll_monitored
  poll_monitored-Grows settings ns name idx se m [] w =
      elim (Bool-cases (m.status == "" && m.pod_status == "")) [
        | inl nothing ↦ rw nothing (Grows-refl env w)
        | inr shown ↦
            rw shown
              (poll_key-Marks settings (monitor_key polling.fmt ns name idx) ns se none m w).grows
      ]
  poll_monitored-Grows settings ns name idx se m (widget ∷ widgets) w =
      poll_widgets-Grows settings ns name idx se m 0 (widget ∷ widgets) w

  poll_monitored-keys :
      (settings : Settings) (ns name : String) (idx : ℕ) (se : ServiceEntry)
      (m : MonitorProbeResult) (widgets : List ServiceWidget) (w : Work env) (k : String)
      → se.widgets ≡ widgets
      → contains (poll_monitored env settings ns name idx se m widgets w).keep k ≡ true
      → (contains w.keep k ≡ true) ⊎ IsEntryKey ns name idx se k
  unfolding poll_monitored
  poll_monitored-keys settings ns name idx se m [] w k e h =
      let key = monitor_key polling.fmt ns name idx in
      elim (Bool-cases (m.status == "" && m.pod_status == "")) [
        | inl nothing ↦ inl (rw nothing at h)
        | inr shown ↦ elim (Bool-cases (key == k)) [
          | inl same ↦ inr (of_monitor e (sym ((eq_iff key k).0 same)))
          | inr other ↦
              let kept = (poll_key-Marks settings key ns se none m w).keeps k in
              let h' = rw shown at h in inl (ground arith)
        ]
      ]
  poll_monitored-keys settings ns name idx se m (widget ∷ widgets) w k e h =
      elim (poll_widgets-keys settings ns name idx se m 0 (widget ∷ widgets) w k h) [
        | inl kept ↦ inl kept
        | inr (j, l, is) ↦ inr (
            of_widget j (rw (e) l)
              (is ∙ ap (λ n. widget_key polling.fmt ns name idx n) (omega arith)))
      ]

  -- The work that an entry's widgets start from, once its monitor has been probed.
  after_monitor-Grows :
      (gauges : List Gauge) (poll : PollState polling) (w w' : Work env)
      → poll.store ≡ w.poller.poll.store
      → Grows env (record_gauges env gauges (with_poll env poll w)) w'
      → Grows env w w'
  after_monitor-Grows gauges poll w w' e grows =
      let (keep, same) = record_gauges-keep gauges (with_poll env poll w) in
      record {
        holds = λ k h. grows.holds k (rw (same, e) h);
        keeps = λ k h. grows.keeps k (rw keep h);
      }

  poll_monitored-holds :
      (settings : Settings) (ns name : String) (idx : ℕ) (se : ServiceEntry)
      (m : MonitorProbeResult) (widgets : List ServiceWidget) (w : Work env) (j : ℕ)
      → j < length widgets
      → Stores
          (widget_key polling.fmt ns name idx j)
          (poll_monitored env settings ns name idx se m widgets w)
  unfolding poll_monitored
  poll_monitored-holds settings ns name idx se m [] w j l = absurd (omega arith)
  poll_monitored-holds settings ns name idx se m (widget ∷ widgets) w j l =
      let all = poll_widgets env settings ns name idx se m 0 (widget ∷ widgets) w in
      let at : 0 + j ≡ j = omega arith in
      subst (λ n. Stores (widget_key polling.fmt ns name idx n) all) at
        (poll_widgets-holds settings ns name idx se m 0 (widget ∷ widgets) w j l)

  -- An entry's job, after any answer of its monitor.
  pub record PollsEntry (ns name : String) (idx : ℕ) (se : ServiceEntry) (w w' : Work env)
      : Type 0 where
    pub grows : Grows env w w'
    pub keys :
        (k : String)
        → contains w'.keep k ≡ true
        → (contains w.keep k ≡ true) ⊎ IsEntryKey ns name idx se k
    pub stores : (j : ℕ) → j < length se.widgets → Stores (widget_key polling.fmt ns name idx j) w'

  after_monitor-PollsEntry :
      (settings : Settings) (ns name : String) (idx : ℕ) (se : ServiceEntry)
      (answer : (MonitorProbeResult × List Gauge) × FailureLog) (w : Work env)
      → PollsEntry ns name idx se w (after_monitor env settings ns name idx se answer w)
  unfolding after_monitor
  after_monitor-PollsEntry settings ns name idx se ((m, gauges), log) w =
      let poll : PollState polling = record w.poller.poll { failures = log } in
      let start = record_gauges env gauges (with_poll env poll w) in
      record {
        grows =
            after_monitor-Grows gauges poll w _ refl
              (poll_monitored-Grows settings ns name idx se m se.widgets start);
        keys = λ k h.
            elim (poll_monitored-keys settings ns name idx se m se.widgets start k refl h) [
              | inl kept ↦ inl (rw (record_gauges-keep gauges (with_poll env poll w)).0 at kept)
              | inr own ↦ inr own
            ];
        stores = λ j l. poll_monitored-holds settings ns name idx se m se.widgets start j l;
      }

  pub poll_entry-PollsEntry :
      (settings : Settings) (ns name : String) (idx : ℕ) (se : ServiceEntry) (w : Work env)
      → PollsEntry ns name idx se w (poll_entry env settings ns name idx se w)
  unfolding poll_entry
  poll_entry-PollsEntry settings ns name idx se w =
      after_monitor-PollsEntry settings ns name idx se
        (monitor polling.fmt polling.monitors env.probe_http ns name se settings.status_style
          settings.allowed_monitor_namespaces settings.cluster_domain w.poller.poll.failures)
        w

  pub put_card-Grows : (card : Card) (w : Work env) → Grows env w (put_card env card w)
  put_card-Grows card w = record {
    holds = λ k h. is_some-get-set card k w.poller.poll.store ∙ ground arith;
    keeps = λ k h. h;
  }

  -- A step that stores a card and keeps no key of its own.
  pub record Puts (key : String) (w w' : Work env) : Type 0 where
    pub grows : Grows env w w'
    pub holds : Holds env key w'
    pub same : w'.keep ≡ w.keep

  put_card-Puts : (card : Card) (w : Work env) → Puts card.key w (put_card env card w)
  put_card-Puts card w = record {
    grows = put_card-Grows card w;
    holds = is_some-get-set card card.key w.poller.poll.store ∙ ground (arith, eq_refl card.key);
    same = refl;
  }

  put_probed-Puts :
      (svc : DiscoveredService) (card : Card) (probed : (String × String) × FailureLog)
      (w : Work env)
      → Puts card.key w (put_probed env svc card probed w)
  unfolding put_probed
  put_probed-Puts svc card ((status, latency), log) w =
      let poll : PollState polling = record w.poller.poll { failures = log } in
      let gauges : List Gauge = _ in
      let (keep, same) = record_gauges-keep gauges (with_poll env poll w) in
      let puts = put_card-Puts _ (record_gauges env gauges (with_poll env poll w)) in
      record {
        grows = after_monitor-Grows gauges poll w _ refl puts.grows;
        holds = puts.holds;
        same = puts.same ∙ keep;
      }

  pub poll_discovered_service-Puts :
      (svc : DiscoveredService) (w : Work env) → Puts svc.key w (poll_discovered_service env svc w)
  unfolding poll_discovered_service zero_card
  poll_discovered_service-Puts svc w =
      let card = zero_card env svc (env.clock svc.key).stamp in
      let probed =
        probe_url polling.fmt polling.monitors env.probe_http svc.href w.poller.poll.failures in
      elim (Bool-cases (svc.monitor && not (svc.href == ""))) [
        | inl up ↦ rw up (put_probed-Puts svc card probed w)
        | inr plain ↦ rw plain (put_card-Puts card w)
      ]
