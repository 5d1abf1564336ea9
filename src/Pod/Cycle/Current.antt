-- ===== src/Pod/Cycle/Current.antt =====
-- The cards after a cycle are those of the objects that it read.
use kubepage_operator.Prelude.{
  ℕ, ◌<◌, String, true, some, List, ◌≡◌, refl, subst, inl, inr, arith, contains, length, is_some,
  In, get_elem?, Option, none, Option-cases, Bool-cases, if◌then◌else◌, ◌∷◌, [],
}
use kubepage_operator.Prelude.Format.{text}
use kubepage_operator.Prelude.Members.{In-append}
use kubepage_operator.Api.{
  ServiceEntry, ServiceCard, InfoWidgetEntry, InfoWidget, Dashboard, bound_to, ref_name,
  service_entries, info_widget_entries, DiscoverySpec,
}
use kubepage_operator.Cluster.{items, Listed, list_failed, Read, found, not_found, failed}
use kubepage_operator.Pod.Discovery.{DiscoveredService}
use kubepage_operator.Pod.Merge.Keys.{widget_key}
use kubepage_operator.Pod.Store
use kubepage_operator.Pod.Work.{Cycling, Poller}
use kubepage_operator.Pod.EntryPoll.Stored.{IsEntryKey}
use kubepage_operator.Pod.Job.{Job}
use kubepage_operator.Pod.Job.Stored.{IsJobKey}
use kubepage_operator.Pod.Cycle.{
  service_card_jobs, discovery_jobs, header_jobs, cycle_jobs, poll_once, settings_of,
  dashboard_spec_for_poll, discovery_spec_from_dashboard, run_jobs,
}
use kubepage_operator.Pod.Cycle.Jobs.{service_card_jobs-In, IsOf, of_card, service_card_jobs-IsOf}
use kubepage_operator.Pod.Cycle.Sources.{
  IsDiscovered, IsHeader, of_info, discovery_jobs-IsDiscovered, info_widget_jobs-IsHeader,
}
use kubepage_operator.Pod.Cycle.Keys.{
  run_jobs-keys, run_jobs-Stores, finish_cycle-get, poll_once-items,
}

-- The discovery that a Dashboard enables.
enabled_spec : Option DiscoverySpec → Option DiscoverySpec
enabled_spec none = none
enabled_spec (some spec) = if spec.enabled then some spec else none

enabled_spec-eq :
    (dash : Dashboard) → discovery_spec_from_dashboard (some dash) ≡ enabled_spec dash.discovery
unfolding discovery_spec_from_dashboard enabled_spec
enabled_spec-eq dash = elim (Option-cases dash.discovery) [
  | inl e ↦ rw (e, discovery_spec_from_dashboard) refl
  | inr (spec, e) ↦ rw (e, discovery_spec_from_dashboard) refl
]

module _ (env : Cycling) where
  open env use {polling, namespace, dashboard_name, reader}

  -- A key of an object that the cycle has read: of an entry of a ServiceCard that is bound to the
  -- Dashboard, of a service that the Dashboard's discovery, where enabled, has found, or of an entry,
  -- of a registered type, of an InfoWidget that is bound to the Dashboard.
  pub data IsCurrent (count : ℕ) (cards : List ServiceCard) (k : String) : Type 0 where
    of_entry :
        (card : ServiceCard) (idx : ℕ) (se : ServiceEntry)
        → In card cards
        → bound_to (ref_name card.dashboard_ref) dashboard_name count ≡ true
        → get_elem? (service_entries card) idx ≡ some se
        → IsEntryKey env card.namespace card.name idx se k
        → IsCurrent count cards k
    of_service :
        (dash : Dashboard) (spec : DiscoverySpec) (svc : DiscoveredService)
        → reader.get_dashboard namespace dashboard_name ≡ found dash
        → dash.discovery ≡ some spec
        → spec.enabled ≡ true
        → IsDiscovered env spec svc
        → k ≡ svc.key
        → IsCurrent count cards k
    of_header :
        (widgets : List InfoWidget) (iw : InfoWidget) (idx : ℕ) (entry : InfoWidgetEntry)
        → reader.list_info_widgets namespace ≡ items widgets
        → In iw widgets
        → bound_to (ref_name iw.dashboard_ref) dashboard_name count ≡ true
        → get_elem? (info_widget_entries iw) idx ≡ some entry
        → is_some (polling.lookup entry.type) ≡ true
        → k ≡ text ("header/" ∷ iw.name ∷ "/" ∷ polling.fmt.decimal idx ∷ [])
        → IsCurrent count cards k

  cards_only :
      (count : ℕ) (cards : List ServiceCard) (job : Job) (k : String)
      → IsOf dashboard_name count cards job
      → IsJobKey env job k
      → IsCurrent count cards k
  cards_only count cards job k (of_card card idx se i b h e) own =
      of_entry card idx se i b h (subst (λ j. IsJobKey env j k) e own)

  header_only :
      (count : ℕ) (cards : List ServiceCard) (widgets : List InfoWidget) (job : Job) (k : String)
      → reader.list_info_widgets namespace ≡ items widgets
      → IsHeader env count widgets job
      → IsJobKey env job k
      → IsCurrent count cards k
  header_only count cards widgets job k l (of_info iw idx entry i b h known e) own =
      of_header widgets iw idx entry l i b h known (subst (λ j. IsJobKey env j k) e own)

  header_jobs-IsCurrent :
      (count : ℕ) (cards : List ServiceCard) (listed : Listed InfoWidget) (job : Job) (k : String)
      → reader.list_info_widgets namespace ≡ listed
      → In job (header_jobs env count listed)
      → IsJobKey env job k
      → IsCurrent count cards k
  unfolding header_jobs
  header_jobs-IsCurrent count cards (items widgets) job k l i own =
      header_only count cards widgets job k l (info_widget_jobs-IsHeader env count widgets job i)
        own
  header_jobs-IsCurrent count cards (list_failed e) job k l i own = absurd i

  service_only :
      (count : ℕ) (cards : List ServiceCard) (dash : Dashboard) (spec : Option DiscoverySpec)
      (job : Job) (k : String)
      → reader.get_dashboard namespace dashboard_name ≡ found dash
      → dash.discovery ≡ spec
      → In job (discovery_jobs env (enabled_spec spec))
      → IsJobKey env job k
      → IsCurrent count cards k
  unfolding discovery_jobs enabled_spec
  service_only count cards dash none job k g d i own = absurd i
  service_only count cards dash (some spec) job k g d i own = elim (Bool-cases spec.enabled) [
    | inr disabled ↦
        absurd (subst (λ b. In job (discovery_jobs env (if b then some spec else none))) disabled i)
    | inl enabled ↦
        let (svc, found_by, e) =
          discovery_jobs-IsDiscovered env spec job
            (subst (λ b. In job (discovery_jobs env (if b then some spec else none))) enabled i) in
        of_service dash spec svc g d enabled found_by (subst (λ j. IsJobKey env j k) e own)
  ]

  discovery_jobs-IsCurrent :
      (count : ℕ) (cards : List ServiceCard) (get : Read Dashboard) (job : Job) (k : String)
      → reader.get_dashboard namespace dashboard_name ≡ get
      → In job (discovery_jobs env (discovery_spec_from_dashboard (dashboard_spec_for_poll get)))
      → IsJobKey env job k
      → IsCurrent count cards k
  unfolding discovery_jobs discovery_spec_from_dashboard dashboard_spec_for_poll
  discovery_jobs-IsCurrent count cards (found dash) job k g i own =
      service_only count cards dash dash.discovery job k g refl
        (subst (λ o. In job (discovery_jobs env o)) (enabled_spec-eq dash) i) own
  discovery_jobs-IsCurrent count cards not_found job k g i own = absurd i
  discovery_jobs-IsCurrent count cards (failed e) job k g i own = absurd i

  cycle_jobs-IsCurrent :
      (count : ℕ) (cards : List ServiceCard) (job : Job) (k : String)
      → In job (
          cycle_jobs env
            (dashboard_spec_for_poll (reader.get_dashboard namespace dashboard_name))
            count
            cards)
      → IsJobKey env job k
      → IsCurrent count cards k
  unfolding cycle_jobs
  cycle_jobs-IsCurrent count cards job k i own =
      elim ((In-append job (service_card_jobs dashboard_name count cards) _).0 i) [
        | inl card ↦
            cards_only count cards job k
              (service_card_jobs-IsOf dashboard_name count cards job card) own
        | inr other ↦ elim ((In-append job (discovery_jobs env _) _).0 other) [
          | inl service ↦ discovery_jobs-IsCurrent count cards _ job k refl service own
          | inr header ↦ header_jobs-IsCurrent count cards _ job k refl header own
        ]
      ]

  -- After a cycle that could list the Dashboards and the ServiceCards, in whatever order its pool took
  -- up the polls: every stored card is of an entry of a bound ServiceCard, of a service that an enabled
  -- discovery found, or of an entry of a bound InfoWidget, and none is left of an object that is gone
  -- or bound elsewhere.
  pub poll_once-IsCurrent :
      (arrange : List Job → List Job) (p : Poller env) (ds : List Dashboard)
      (cards : List ServiceCard) (k : String)
      → reader.list_dashboards namespace ≡ items ds
      → reader.list_service_cards namespace ≡ items cards
      → ((jobs : List Job) (job : Job) → In job (arrange jobs) → In job jobs)
      → is_some (Store.get k (poll_once env arrange p).poll.store) ≡ true
      → IsCurrent (length ds) cards k
  poll_once-IsCurrent arrange p ds cards k d c arranged h =
      let (start, empty, e) = poll_once-items env arrange p d c in
      let settings = settings_of (reader.get_dashboard namespace dashboard_name) in
      let jobs =
        cycle_jobs env (dashboard_spec_for_poll (reader.get_dashboard namespace dashboard_name))
          (length ds) cards in
      let done = run_jobs env settings (arrange jobs) start in
      let h' = rw (e, finish_cycle-get env done k) at h in
      let kept : contains done.keep k ≡ true = ground arith in
      elim (run_jobs-keys env settings (arrange jobs) start k kept) [
        | inl before ↦ absurd (cc (rw empty at before))
        | inr (job, i, own) ↦ cycle_jobs-IsCurrent (length ds) cards job k (arranged jobs job i) own
      ]

  -- After such a cycle every widget of every entry of a bound ServiceCard has a card, whether it was
  -- due or not and whatever its poll gave.
  pub poll_once-widget :
      (arrange : List Job → List Job) (p : Poller env) (ds : List Dashboard)
      (cards : List ServiceCard) (card : ServiceCard) (idx : ℕ) (se : ServiceEntry) (i : ℕ)
      → reader.list_dashboards namespace ≡ items ds
      → reader.list_service_cards namespace ≡ items cards
      → ((jobs : List Job) (job : Job) → In job jobs → In job (arrange jobs))
      → In card cards
      → bound_to (ref_name card.dashboard_ref) dashboard_name (length ds) ≡ true
      → get_elem? (service_entries card) idx ≡ some se
      → i < length se.widgets
      → is_some (
          Store.get
            (widget_key polling.fmt card.namespace card.name idx i)
            (poll_once env arrange p).poll.store)
        ≡ true
  unfolding cycle_jobs
  poll_once-widget arrange p ds cards card idx se i d c arranged listed bound at l =
      let (start, empty, e) = poll_once-items env arrange p d c in
      let settings = settings_of (reader.get_dashboard namespace dashboard_name) in
      let jobs =
        cycle_jobs env (dashboard_spec_for_poll (reader.get_dashboard namespace dashboard_name))
          (length ds) cards in
      let done = run_jobs env settings (arrange jobs) start in
      let k = widget_key polling.fmt card.namespace card.name idx i in
      let job = Job.entry_job card.namespace card.name idx se in
      let own = service_card_jobs-In dashboard_name (length ds) cards card idx se listed bound at in
      let here = arranged jobs job ((In-append job _ _).1 (inl own)) in
      let (holds, keeps) =
        run_jobs-Stores env settings (arrange jobs) start job k here (i, l, refl) in
      rw (e, finish_cycle-get env done k, keeps) holds
