-- ===== src/Pod/Discovery/Tests.antt =====
-- An Ingress that opts in, one that opts in as homepage does, and a namespace that cannot be listed.

use kubepage_operator.Prelude.{String, true, false, some, List, [], ◌∷◌, ◌≡◌, ◌↔◌, refl, In}
use kubepage_operator.Prelude.Map.{lookup, set}
use kubepage_operator.Prelude.Format.{cut_prefix}
use kubepage_operator.Prelude.Order.{by_key, compare_text}
use kubepage_operator.Prelude.Result.{ok, err}
use kubepage_operator.Prelude.Sort.{sort_func, insert_func, IsSorted}
use kubepage_operator.Api.{DiscoverySpec}
use kubepage_operator.Cluster.{Listed, items, list_failed}
use kubepage_operator.Fixtures.{scan_ingresses}
use kubepage_operator.Pod.Discovery.{
  Ingress, DiscoveredService, ingresses, discover_services, discover, services_of, service_of,
  icon_of, discovery_annotations, enables, strip_annotation_prefix, strip_into, append_extras,
  extra_items, ingress_href, scheme_for, annotation_prefix, discovery_monitor_enabled,
}
use kubepage_operator.Pod.Discovery.Laws.{
  IsFrom, discover-OptsIn, discover-failures, discover-IsSorted,
}

abbrev wiki : Ingress
wiki = record {
  namespace = "apps";
  name = "wiki";
  annotations =
      ("kubepage.io/enabled", "true")
      ∷ ("gethomepage.dev/group", "Other")
      ∷ ("kubepage.io/ping", "true")
      ∷ [];
  rules = "wiki.example" ∷ [];
  tls = ("wiki.example" ∷ []) ∷ [];
}

abbrev migrated : Ingress
migrated = record {
  namespace = "apps";
  name = "blog";
  annotations = ("gethomepage.dev/enabled", "true") ∷ ("gethomepage.dev/name", "Blog") ∷ [];
  rules = [];
  tls = [];
}

abbrev compat : DiscoverySpec
compat = record scan_ingresses { homepage_compat = some true }

abbrev wiki_service : DiscoveredService
wiki_service = record {
  key = "discovery/apps/wiki";
  group = "Discovered";
  name = "wiki";
  icon_url = "";
  description = "";
  href = "https://wiki.example/";
  monitor = true;
}

abbrev blog_service : DiscoveredService
blog_service = record {
  key = "discovery/apps/blog";
  group = "Discovered";
  name = "Blog";
  icon_url = "";
  description = "";
  href = "";
  monitor = false;
}

abbrev unreachable : String → Listed Ingress
unreachable ns = list_failed "forbidden"

discover_services_test :
    discover_services
      (λ s. s)
      (λ ns. items (wiki ∷ migrated ∷ []))
      "apps"
      unreachable
      ("infra" ∷ [])
      compat
    ≡ ok (blog_service ∷ wiki_service ∷ [])
unfolding discover_services discover services_of service_of icon_of discovery_annotations enables
    strip_annotation_prefix strip_into append_extras extra_items ingress_href scheme_for
    annotation_prefix discovery_monitor_enabled lookup set cut_prefix sort_func insert_func
    compare_text
discover_services_test = refl

discover_test :
    discover (λ s. s) ingresses (items (wiki ∷ migrated ∷ [])) unreachable ("infra" ∷ []) compat
    ≡ ok (blog_service ∷ wiki_service ∷ [])
unfolding discover_services
discover_test = discover_services_test

abbrev found : List DiscoveredService
found = blog_service ∷ wiki_service ∷ []

discover-OptsIn_example :
    In wiki_service found
    ↔ IsFrom
        (λ s. s)
        ingresses
        compat
        (append_extras (λ s. s) ingresses unreachable ("infra" ∷ []) (wiki ∷ migrated ∷ []))
        wiki_service
unfolding append_extras extra_items
discover-OptsIn_example =
    discover-OptsIn (λ s. s) ingresses (wiki ∷ migrated ∷ []) unreachable ("infra" ∷ []) compat
      found wiki_service ((refl, (refl, (refl, tt))), ((refl, (refl, tt)), tt)) discover_test

discover-failures_example :
    (discover (λ s. s) ingresses (items (wiki ∷ [])) unreachable ("infra" ∷ []) compat
      ≡ discover (λ s. s) ingresses (items (wiki ∷ [])) unreachable [] compat)
    × (((reason : String) × (discover
              (λ s. s)
              ingresses
              (items (wiki ∷ []))
              unreachable
              ("infra" ∷ [])
              compat
            ≡ err reason))
        ↔ ((reason : String) × (items (wiki ∷ []) ≡ list_failed reason)))
discover-failures_example =
    discover-failures (λ s. s) ingresses (items (wiki ∷ [])) unreachable [] [] "infra" compat
      "forbidden" refl

discover-IsSorted_example : IsSorted (by_key compare_text (λ s. s.key)) found
discover-IsSorted_example =
    discover-IsSorted (λ s. s) ingresses (items (wiki ∷ migrated ∷ [])) unreachable ("infra" ∷ [])
      compat found discover_test
