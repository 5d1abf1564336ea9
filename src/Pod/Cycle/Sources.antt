-- ===== src/Pod/Cycle/Sources.antt =====
-- The jobs of a cycle for discovered services and for header widgets, by what they are for.
use kubepage_operator.Prelude.{
  ℕ, zero, suc, ◌+◌, String, Bool, true, false, some, List, [], ◌∷◌, map, ◌&&◌, ◌≡◌, refl, ap, ◌∙◌,
  inl, inr, arith, Bool-cases, is_some, In, get_elem?, if◌then◌else◌,
}
use kubepage_operator.Prelude.Format.{text}
use kubepage_operator.Prelude.Members.{In-append}
use kubepage_operator.Api.{
  InfoWidgetEntry, InfoWidget, bound_to, ref_name, info_widget_entries, DiscoverySpec, has_source,
  discovery_source_ingress, discovery_source_httproute,
}
use kubepage_operator.Pod.Discovery.{
  DiscoveredService, extra_discovery_namespaces, discover_services, discover_http_routes,
}
use kubepage_operator.Pod.Work.{Cycling}
use kubepage_operator.Pod.Job.{Job}
use kubepage_operator.Prelude.Result.{Result, ok, err}
use kubepage_operator.Pod.Cycle.{found_jobs, discovery_jobs, info_widget_jobs, header_entry_jobs}

-- A service that one of the sources of discovery has found: a source that the Dashboard scans, and
-- whose objects could be listed.
module _ (env : Cycling) where
  open env use {polling, namespace, dashboard_name}
  open polling.engine use {to_lower}

  pub data IsDiscovered (spec : DiscoverySpec) (svc : DiscoveredService) : Type 0 where
    of_ingress :
        (services : List DiscoveredService)
        → has_source spec discovery_source_ingress ≡ true
        → discover_services to_lower env.list_ingresses namespace env.list_extra_ingresses
            (extra_discovery_namespaces spec namespace)
            spec
          ≡ ok services
        → In svc services
        → IsDiscovered spec svc
    of_route :
        (services : List DiscoveredService)
        → has_source spec discovery_source_httproute ≡ true
        → env.gateway_api_enabled ≡ true
        → discover_http_routes to_lower env.list_routes namespace env.list_extra_routes
            (extra_discovery_namespaces spec namespace)
            spec
          ≡ ok services
        → In svc services
        → IsDiscovered spec svc

  -- The jobs of the bound InfoWidgets are for their entries of a registered type.
  pub data IsHeader (count : ℕ) (widgets : List InfoWidget) (job : Job) : Type 0 where
    of_info :
        (iw : InfoWidget) (idx : ℕ) (entry : InfoWidgetEntry)
        → In iw widgets
        → bound_to (ref_name iw.dashboard_ref) dashboard_name count ≡ true
        → get_elem? (info_widget_entries iw) idx ≡ some entry
        → is_some (polling.lookup entry.type) ≡ true
        → job
          ≡ Job.header_job
              (text ("header/" ∷ iw.name ∷ "/" ∷ polling.fmt.decimal idx ∷ []))
              iw
              entry
        → IsHeader count widgets job

services-In :
    (services : List DiscoveredService) (job : Job)
    → In job (map (λ svc. Job.service_job svc) services)
    → (svc : DiscoveredService) × In svc services × (job ≡ Job.service_job svc)
services-In [] job i = absurd i
services-In (svc ∷ services) job (inl e) = (svc, inl refl, e)
services-In (svc ∷ services) job (inr i) =
    let (found, later, e) = services-In services job i in (found, inr later, e)

source-In :
    (used : Bool) (answer : Result (List DiscoveredService)) (job : Job)
    → In job (if used then found_jobs answer else [])
    → (services : List DiscoveredService) × (svc : DiscoveredService) × (used ≡ true)
      × (answer ≡ ok services)
      × In svc services
      × (job ≡ Job.service_job svc)
source-In true (ok services) job i =
    let (svc, found, e) = services-In services job i in (services, svc, refl, refl, found, e)
source-In true (err e) job i = absurd i
source-In false answer job i = absurd i

module _ (env : Cycling) where
  open env use {polling, namespace, dashboard_name, reader}

  pub discovery_jobs-IsDiscovered :
      (spec : DiscoverySpec) (job : Job)
      → In job (discovery_jobs env (some spec))
      → (svc : DiscoveredService) × IsDiscovered env spec svc × (job ≡ Job.service_job svc)
  unfolding discovery_jobs
  discovery_jobs-IsDiscovered spec job i =
      elim ((In-append job (if has_source spec discovery_source_ingress then found_jobs _ else [])
          _).0
        i) [
          | inl ingress ↦
              let (services, svc, used, answer, found, e) =
                source-In (has_source spec discovery_source_ingress) _ job ingress in
              (svc, of_ingress services used answer found, e)
          | inr route ↦
              let (services, svc, used, answer, found, e) =
                source-In (has_source spec discovery_source_httproute && env.gateway_api_enabled) _
                  job route in
              (svc, of_route services (ground arith) (ground arith) answer found, e)
        ]

  header_key : InfoWidget → ℕ → String
  header_key iw idx = text ("header/" ∷ iw.name ∷ "/" ∷ polling.fmt.decimal idx ∷ [])

  -- A job is for one of the entries, which are counted from `idx`.
  abbrev IsEntryOf : InfoWidget → ℕ → List InfoWidgetEntry → Job → Type 0
  IsEntryOf iw idx entries job =
      (j : ℕ) × (entry : InfoWidgetEntry) × (get_elem? entries j ≡ some entry)
      × (is_some (polling.lookup entry.type) ≡ true)
      × (job ≡ Job.header_job (header_key iw (idx + j)) iw entry)

  IsEntryOf-later :
      (iw : InfoWidget) (idx : ℕ) (x : InfoWidgetEntry) (entries : List InfoWidgetEntry) (job : Job)
      → IsEntryOf iw (idx + 1) entries job
      → IsEntryOf iw idx (x ∷ entries) job
  IsEntryOf-later iw idx x entries job (j, entry, at, known, e) =
      let from : (idx + 1) + j ≡ idx + suc j = omega arith in
      (suc j, entry, at, known, e ∙ ap (λ n. Job.header_job (header_key iw n) iw entry) from)

  header_entry_jobs-elem :
      (iw : InfoWidget) (idx : ℕ) (entries : List InfoWidgetEntry) (job : Job)
      → In job (header_entry_jobs env iw idx entries)
      → IsEntryOf iw idx entries job
  unfolding header_entry_jobs header_key
  header_entry_jobs-elem iw idx [] job i = absurd i
  header_entry_jobs-elem iw idx (x ∷ entries) job i =
      elim (Bool-cases (is_some (polling.lookup x.type))) [
        | inl known ↦ elim (rw (known, header_entry_jobs) at i) [
          | inl e ↦
              let from : idx ≡ idx + 0 = omega arith in
              (zero, x, refl, known, e ∙ ap (λ n. Job.header_job (header_key iw n) iw x) from)
          | inr later ↦
              IsEntryOf-later iw idx x entries job
                (header_entry_jobs-elem iw (idx + 1) entries job later)
        ]
        | inr unknown ↦
            IsEntryOf-later iw idx x entries job (
              header_entry_jobs-elem iw (idx + 1) entries job
                (rw (unknown, header_entry_jobs) at i))
      ]

  IsHeader-later :
      {count : ℕ} {widgets : List InfoWidget} {job : Job} (x : InfoWidget)
      → IsHeader env count widgets job
      → IsHeader env count (x ∷ widgets) job
  IsHeader-later x (of_info iw idx entry i b h known e) = of_info iw idx entry (inr i) b h known e

  pub info_widget_jobs-IsHeader :
      (count : ℕ) (widgets : List InfoWidget) (job : Job)
      → In job (info_widget_jobs env count widgets)
      → IsHeader env count widgets job
  unfolding info_widget_jobs header_key
  info_widget_jobs-IsHeader count [] job i = absurd i
  info_widget_jobs-IsHeader count (iw ∷ widgets) job i =
      elim (Bool-cases (bound_to (ref_name iw.dashboard_ref) dashboard_name count)) [
        | inl bound ↦
            let own = header_entry_jobs env iw 0 (info_widget_entries iw) in
            elim ((In-append job own (info_widget_jobs env count widgets)).0
              (rw (bound, info_widget_jobs) at i)) [
                | inl here ↦
                    let (j, entry, at, known, e) =
                      header_entry_jobs-elem iw 0 (info_widget_entries iw) job here in
                    let from : 0 + j ≡ j = omega arith in
                    of_info iw j entry (inl refl) bound at known
                      (e ∙ ap (λ n. Job.header_job (header_key iw n) iw entry) from)
                | inr later ↦ IsHeader-later iw (info_widget_jobs-IsHeader count widgets job later)
              ]
        | inr unbound ↦
            IsHeader-later iw
              (info_widget_jobs-IsHeader count widgets job (rw (unbound, info_widget_jobs) at i))
      ]
