-- ===== src/Pod/BaseUrl.antt =====
-- internal/dashboard/poller.go, resolveBaseURL: the URL of a service, which "internalUrl: auto" looks
-- up in the cluster. A result is a URL and an error for the card, one of them empty.
pub mod Laws
mod Tests
use kubepage_operator.Prelude.{
  ℕ, String, Bool, true, false, not, Option, none, some, List, [], ◌∷◌, map, ◌==◌, ◌&&◌, ◌||◌, eqb,
  contains, if◌then◌else◌,
}
use kubepage_operator.Prelude.Format.{Format, text, join}
use kubepage_operator.Api.{ServiceEntry, internal_url_auto, or_empty}
use kubepage_operator.Cluster.{Read, found, not_found, failed, Listed, items, list_failed}
use kubepage_operator.Pod.Kube.{ServicePort, Service, KubeClient, Monitors, pod_monitor_label}

abbrev pub default_cluster_domain : String
default_cluster_domain = "cluster.local"

abbrev auto_internal_url_port_name : String
auto_internal_url_port_name = "http"

-- The port of that name, else `first`.
named_port : ℕ → List ServicePort → ℕ
named_port first [] = first
named_port first (p ∷ ports) =
    let later = named_port first ports in
    if p.name == auto_internal_url_port_name then p.port else later

port_of : List ServicePort → ℕ
port_of [] = 0
port_of (p ∷ ports) = named_port p.port (p ∷ ports)

unfoldable pub auto_internal_url_port : Service → ℕ
unfolding port_of named_port
auto_internal_url_port svc = port_of svc.ports

-- An optional text that is set and not empty, else the default.
abbrev pub set_or : Option String → String → String
set_or none default = default
set_or (some s) default = if s == "" then default else s

-- What `lookupAutoService` gives.
pub data FoundService : Type 0 where
  one : Service → FoundService
  card_error : String → FoundService

module _ (fmt : Format) where
  open fmt use {quote, decimal}

  listed_service : String → String → List Service → FoundService
  listed_service namespace app [] = card_error (
      text (
        "internalUrl: auto found no Service named "
        ∷ quote app
        ∷ " or labeled "
        ∷ pod_monitor_label
        ∷ "="
        ∷ quote app
        ∷ " in namespace "
        ∷ quote namespace
        ∷ []))
  listed_service namespace app (svc ∷ []) = one svc
  listed_service namespace app (svc ∷ other ∷ rest) = card_error (
      text (
        "internalUrl: auto found multiple Services labeled "
        ∷ pod_monitor_label
        ∷ "="
        ∷ quote app
        ∷ " in namespace "
        ∷ quote namespace
        ∷ ": "
        ∷ join ", " (map (λ (s : Service). s.name) (svc ∷ other ∷ rest))
        ∷ []))

  labeled_service : String → String → Listed Service → FoundService
  labeled_service namespace app (items svcs) = listed_service namespace app svcs
  labeled_service namespace app (list_failed e) = card_error (
      text (
        "internalUrl: auto failed to list Services labeled "
        ∷ pod_monitor_label
        ∷ "="
        ∷ quote app
        ∷ " in namespace "
        ∷ quote namespace
        ∷ ": "
        ∷ e
        ∷ []))

  named_service : KubeClient → String → String → Read Service → FoundService
  named_service reader namespace app (found svc) = one svc
  named_service reader namespace app (failed e) = card_error (
      text (
        "internalUrl: auto failed to look up Service "
        ∷ quote app
        ∷ " in namespace "
        ∷ quote namespace
        ∷ ": "
        ∷ e
        ∷ []))
  named_service reader namespace app not_found =
      labeled_service namespace app (reader.list_services namespace pod_monitor_label app)

  unfoldable pub lookup_auto_service : KubeClient → String → String → FoundService
  unfolding named_service labeled_service listed_service
  lookup_auto_service reader namespace app =
      named_service reader namespace app (reader.get_service namespace app)

  service_url : String → String → FoundService → String × String
  service_url svc_namespace domain (card_error e) = ("", e)
  service_url svc_namespace domain (one svc) =
      let port = auto_internal_url_port svc in
      if eqb port 0
      then (
        "",
        text (
            "internalUrl: auto found Service "
            ∷ quote svc.name
            ∷ " in namespace "
            ∷ quote svc_namespace
            ∷ " but it has no ports"
            ∷ []),
      )
      else (
        text (
            "http://"
            ∷ svc.name
            ∷ "."
            ∷ svc_namespace
            ∷ ".svc."
            ∷ domain
            ∷ ":"
            ∷ decimal port
            ∷ []),
        "",
      )

  module _ (p : Monitors) (namespace : String) (allowed_monitor_namespaces : List String) where
    -- Whether a namespace is foreign and not on the Dashboard's list.
    abbrev pub is_disallowed : String → Bool
    is_disallowed ns = not (ns == namespace) && not (contains allowed_monitor_namespaces ns)

    -- The client that serves a namespace.
    abbrev pub reader_for : String → KubeClient
    reader_for ns = if ns == namespace then p.reader else p.kube_reader

    app_url : String → String → Option String → String × String
    app_url svc_namespace domain none = ("", "internalUrl: auto requires app to be set")
    app_url svc_namespace domain (some app) =
        if app == ""
        then ("", "internalUrl: auto requires app to be set")
        else if is_disallowed svc_namespace
        then (
          "",
          text (
              "internalUrl: auto namespace "
              ∷ quote svc_namespace
              ∷ " is not allowed: add it to this Dashboard's spec.monitorNamespaces"
              ∷ []),
        )
        else service_url svc_namespace domain
            (lookup_auto_service (reader_for svc_namespace) svc_namespace app)

    unfoldable pub resolve_auto_internal_url : ServiceEntry → String → String × String
    unfolding app_url service_url
    resolve_auto_internal_url se cluster_domain =
        app_url (set_or se.namespace namespace)
          (if cluster_domain == "" then default_cluster_domain else cluster_domain) se.app

    internal_or_href : ServiceEntry → String → String → String × String
    internal_or_href se cluster_domain internal =
        if internal == "" || p.preview
        then (or_empty se.href, "")
        else if internal == internal_url_auto
        then resolve_auto_internal_url se cluster_domain
        else (internal, "")

    unfoldable pub resolve_base_url : ServiceEntry → String → String × String
    unfolding internal_or_href
    resolve_base_url se cluster_domain =
        internal_or_href se cluster_domain (or_empty se.internal_url)
