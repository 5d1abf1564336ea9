-- ===== src/Pod/Discovery.antt =====
-- internal/dashboard/discovery.go: services found by the annotations of Ingresses and HTTPRoutes.
pub mod Annotations
pub mod Laws
mod Tests
use kubepage_operator.Prelude.{
  String, Bool, true, false, not, Option, none, some, List, [], ◌∷◌, ◌++◌, ◌==◌, ◌&&◌, ◌||◌, select,
  contains, if◌then◌else◌, or_else,
}
use kubepage_operator.Prelude.Format.{text, cut_prefix}
use kubepage_operator.Prelude.Map.{Map, lookup, set}
use kubepage_operator.Prelude.Order.{by_key, compare_text}
use kubepage_operator.Prelude.Sort.{sort_func}
use kubepage_operator.Prelude.Result.{Result, ok, err}
use kubepage_operator.Api.{DiscoverySpec}
use kubepage_operator.Cluster.{Listed, items, list_failed}
use kubepage_operator.Pod.Icon.{icon_url}

abbrev pub default_discovery_prefix : String
default_discovery_prefix = "kubepage.io/"

abbrev pub homepage_discovery_prefix : String
homepage_discovery_prefix = "gethomepage.dev/"

abbrev pub default_discovery_group : String
default_discovery_group = "Discovered"

abbrev pub annotation_value_true : String
annotation_value_true = "true"

-- networkingv1.Ingress and gatewayv1.HTTPRoute, as far as discovery reads them: an Ingress's rules
-- by their hosts, and its TLS entries by theirs.
pub record Ingress : Type 0 where
  pub namespace : String
  pub name : String
  pub annotations : Map String
  pub rules : List String
  pub tls : List (List String)

pub record HttpRoute : Type 0 where
  pub namespace : String
  pub name : String
  pub annotations : Map String
  pub hostnames : List String

pub record DiscoveredService : Type 0 where
  pub key : String
  pub group : String
  pub name : String
  pub icon_url : String
  pub description : String
  pub href : String
  pub monitor : Bool

unfoldable pub extra_discovery_namespaces : DiscoverySpec → String → List String
extra_discovery_namespaces spec namespace = select (λ ns. not (ns == namespace)) spec.namespaces

-- `m[k]` of a map of texts, and `cmp.Or` of two texts.
abbrev pub value_at : String → Map String → String
value_at k m = or_else (lookup k m) ""

abbrev pub either : String → String → String
either a b = if a == "" then b else a

-- The loop, with the map that it has filled so far.
strip_into : String → Map String → Map String → Map String
strip_into prefix [] out = out
strip_into prefix ((k, v) ∷ annotations) out =
    strip_into prefix annotations
      (elim (cut_prefix prefix k) [ some rest ↦ set rest v out | none ↦ out ])

unfoldable pub strip_annotation_prefix : Map String → String → Map String
unfolding strip_into
strip_annotation_prefix annotations prefix = strip_into prefix annotations []

unfoldable pub enables : String → Map String → Bool
enables prefix annotations =
    value_at (text (prefix ∷ "enabled" ∷ [])) annotations == annotation_value_true

unfoldable pub discovery_annotations : Map String → String → Bool → Option (Map String)
unfolding enables
discovery_annotations annotations prefix homepage_compat =
    if enables prefix annotations
    then some (strip_annotation_prefix annotations prefix)
    else if homepage_compat && enables homepage_discovery_prefix annotations
    then some (strip_annotation_prefix annotations homepage_discovery_prefix)
    else none

unfoldable pub discovery_monitor_enabled : Map String → Bool
discovery_monitor_enabled ann =
    value_at "monitor" ann == annotation_value_true || value_at "ping" ann == annotation_value_true

-- The loop over the TLS entries.
scheme_for : String → List (List String) → String
scheme_for host [] = "http"
scheme_for host (hosts ∷ tls) = if contains hosts host then "https" else scheme_for host tls

unfoldable pub ingress_href : Ingress → String
unfolding scheme_for
ingress_href ing = elim ing.rules [
  | [] ↦ ""
  | host ∷ rest ↦
      if host == "" then "" else text (scheme_for host ing.tls ∷ "://" ∷ host ∷ "/" ∷ [])
]

unfoldable pub http_route_href : HttpRoute → String
http_route_href route = elim route.hostnames [
  | [] ↦ ""
  | host ∷ rest ↦ text ("https://" ∷ host ∷ "/" ∷ [])
]

unfoldable pub annotation_prefix : DiscoverySpec → String
annotation_prefix spec = either (or_else spec.annotation_prefix "") default_discovery_prefix

-- What the two kinds of objects have in common here.
pub record Source (A : Type 0) : Type 0 where
  pub annotations : A → Map String
  pub name : A → String
  pub key : A → String
  pub default_href : A → String
  pub list_error : String

abbrev pub ingresses : Source Ingress
ingresses = record {
  annotations = λ ing. ing.annotations;
  name = λ ing. ing.name;
  key = λ ing. text ("discovery/" ∷ ing.namespace ∷ "/" ∷ ing.name ∷ []);
  default_href = ingress_href;
  list_error = "listing Ingresses: ";
}

abbrev pub http_routes : Source HttpRoute
http_routes = record {
  annotations = λ route. route.annotations;
  name = λ route. route.name;
  key = λ route. text ("discovery/httproute/" ∷ route.namespace ∷ "/" ∷ route.name ∷ []);
  default_href = http_route_href;
  list_error = "listing HTTPRoutes: ";
}

module _ (to_lower : String → String) where
  icon_of : String → String
  icon_of icon = if icon == "" then "" else icon_url to_lower (some icon)

  module _ {A : Type 0} (source : Source A) where
    -- The body of the loop: the service of an object that opts in.
    pub service_of : A → Map String → DiscoveredService
    unfolding icon_of
    service_of a ann = record {
      key = source.key a;
      group = either (value_at "group" ann) default_discovery_group;
      name = either (value_at "name" ann) (source.name a);
      icon_url = icon_of (value_at "icon" ann);
      description = value_at "description" ann;
      href = either (value_at "href" ann) (source.default_href a);
      monitor = discovery_monitor_enabled ann;
    }

    unfoldable pub services_of : DiscoverySpec → List A → List DiscoveredService
    unfolding service_of
    services_of spec [] = []
    services_of spec (a ∷ rest) =
        let others = services_of spec rest in
        elim (discovery_annotations (source.annotations a) (annotation_prefix spec)
          (or_else spec.homepage_compat false)) [
            | some ann ↦ service_of a ann ∷ others
            | none ↦ others
          ]

    -- What an extra namespace adds: nothing where its `List` fails.
    pub extra_items : Listed A → List A
    extra_items (items found) = found
    extra_items (list_failed e) = []

    pub append_extras : (String → Listed A) → List String → List A → List A
    unfolding extra_items
    append_extras list_extra [] found = found
    append_extras list_extra (ns ∷ rest) found =
        append_extras list_extra rest (found ++ extra_items (list_extra ns))

    unfoldable pub discover :
        Listed A
        → (String → Listed A)
        → List String
        → DiscoverySpec
        → Result (List DiscoveredService)
    unfolding services_of append_extras
    discover (list_failed e) list_extra extra_namespaces spec =
        err (text (source.list_error ∷ e ∷ []))
    discover (items own) list_extra extra_namespaces spec = ok (
        sort_func (by_key compare_text (λ s. s.key))
          (services_of spec (append_extras list_extra extra_namespaces own)))

-- `list` is the reader's `List` by namespace, `list_extra` the extra reader's.
module _ (to_lower : String → String) where
  unfoldable pub discover_services :
      (String → Listed Ingress)
      → String
      → (String → Listed Ingress)
      → List String
      → DiscoverySpec
      → Result (List DiscoveredService)
  unfolding discover
  discover_services list namespace list_extra extra_namespaces spec =
      discover to_lower ingresses (list namespace) list_extra extra_namespaces spec

  unfoldable pub discover_http_routes :
      (String → Listed HttpRoute)
      → String
      → (String → Listed HttpRoute)
      → List String
      → DiscoverySpec
      → Result (List DiscoveredService)
  unfolding discover
  discover_http_routes list namespace list_extra extra_namespaces spec =
      discover to_lower http_routes (list namespace) list_extra extra_namespaces spec
