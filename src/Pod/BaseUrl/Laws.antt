-- ===== src/Pod/BaseUrl/Laws.antt =====
-- Base URLs: those that need no lookup, and what a lookup reads.
use kubepage_operator.Prelude.{
  String, true, false, Option, none, some, List, ◌==◌, ◌≡◌, refl, contains, if◌then◌else◌, arith,
  Bool-cases, Option-cases, inl, inr,
}
use kubepage_operator.Prelude.Format.{Format}
use kubepage_operator.Api.{ServiceEntry, internal_url_auto, or_empty, base_url}
use kubepage_operator.Cluster.{Read, found, not_found, failed}
use kubepage_operator.Pod.Kube.{Service, KubeClient, Monitors}
use kubepage_operator.Pod.BaseUrl.{
  named_service, lookup_auto_service, app_url, resolve_auto_internal_url, internal_or_href,
  resolve_base_url, default_cluster_domain, set_or, is_disallowed, reader_for,
}

-- Outside of preview mode a service whose internalUrl is not "auto" has the URL that
-- ServiceEntry.BaseURL gives, and no error.
pub resolve_base_url-base_url :
    (fmt : Format) (p : Monitors) (namespace : String) (allowed : List String) (se : ServiceEntry)
    (cluster_domain : String)
    → p.preview ≡ false
    → (or_empty se.internal_url == internal_url_auto) ≡ false
    → resolve_base_url fmt p namespace allowed se cluster_domain ≡ (base_url se, "")
unfolding resolve_base_url internal_or_href base_url
resolve_base_url-base_url fmt p namespace allowed se cluster_domain live fixed =
    elim (Option-cases se.internal_url) [
      | inl unset ↦ rw unset refl
      | inr (url, internal) ↦ elim (Bool-cases (url == "")) [
        | inl empty ↦ rw (internal, live) (rw empty refl)
        | inr stored ↦ rw (internal, live) (rw (stored, rw internal at fixed) refl)
      ]
    ]

named_service-same :
    (fmt : Format) (a b : KubeClient) (ns app : String) (answer : Read Service)
    → a.list_services ns ≡ b.list_services ns
    → named_service fmt a ns app answer ≡ named_service fmt b ns app answer
unfolding named_service
named_service-same fmt a b ns app (found svc) same = refl
named_service-same fmt a b ns app (failed e) same = refl
named_service-same fmt a b ns app not_found same = rw same refl

module _ (fmt : Format) (p q : Monitors) (namespace : String) (allowed : List String) where
  -- Two settings that differ in what the foreign namespaces outside of the list hold, at most.
  pub record AgreeAllowed : Type 0 where
    pub same_reader : p.reader ≡ q.reader
    pub same_selectors : p.is_selector ≡ q.is_selector
    pub same_preview : p.preview ≡ q.preview
    pub same_sample : p.sample_data ≡ q.sample_data
    pub services :
        (ns : String)
        → contains allowed ns ≡ true
        → p.kube_reader.get_service ns ≡ q.kube_reader.get_service ns
    pub labeled :
        (ns : String)
        → contains allowed ns ≡ true
        → p.kube_reader.list_services ns ≡ q.kube_reader.list_services ns
    pub pods :
        (ns : String)
        → contains allowed ns ≡ true
        → p.kube_reader.list_pods ns ≡ q.kube_reader.list_pods ns

  module _ (h : AgreeAllowed) where
    lookup-same :
        (ns app : String)
        → is_disallowed fmt p namespace allowed ns ≡ false
        → lookup_auto_service fmt (reader_for fmt p namespace allowed ns) ns app
          ≡ lookup_auto_service fmt (reader_for fmt q namespace allowed ns) ns app
    unfolding lookup_auto_service
    lookup-same ns app allows = elim (Bool-cases (ns == namespace)) [
      | inl own ↦ rw own (rw (h.same_reader) refl)
      | inr foreign ↦
          let listed : contains allowed ns ≡ true = ground (arith, rw foreign at allows) in
          rw foreign (
            rw (h.services ns listed)
              (named_service-same fmt p.kube_reader q.kube_reader ns app _ (h.labeled ns listed)))
    ]

    app_url-same :
        (ns domain : String) (app : Option String)
        → app_url fmt p namespace allowed ns domain app
          ≡ app_url fmt q namespace allowed ns domain app
    unfolding app_url
    app_url-same ns domain none = refl
    app_url-same ns domain (some app) =
        elim (Bool-cases (is_disallowed fmt p namespace allowed ns)) [
          | inl disallowed ↦ rw disallowed refl
          | inr allows ↦ rw (allows, lookup-same ns app allows) refl
        ]

    -- What a service's URL resolves to does not depend on the Services of a foreign namespace that
    -- the Dashboard's monitorNamespaces does not list.
    pub resolve_base_url-isolated :
        (se : ServiceEntry) (cluster_domain : String)
        → resolve_base_url fmt p namespace allowed se cluster_domain
          ≡ resolve_base_url fmt q namespace allowed se cluster_domain
    unfolding resolve_base_url internal_or_href resolve_auto_internal_url
    resolve_base_url-isolated se cluster_domain =
        rw
          (
            h.same_preview,
            app_url-same (set_or se.namespace namespace)
                (if cluster_domain == "" then default_cluster_domain else cluster_domain) se.app,
          )
          refl
