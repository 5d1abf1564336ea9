-- ===== src/Api/Boards.antt =====
-- api/v1alpha1/dashboard_types.go: the Dashboard, as far as RBAC, polling and authentication read it.
use kubepage_operator.Prelude.{String, Bool, Option, List, [], ◌∷◌, ◌==◌, contains}
use kubepage_operator.Prelude.Map.{Map}
use kubepage_operator.Api.Common.{SecretValueSource}

pub record WidgetDefaultsEntry : Type 0 where
  pub secrets : Map SecretValueSource
  pub ca_cert : Option SecretValueSource

-- AuthSpec, by the name in its `basicAuthSecretRef`
pub record AuthSpec : Type 0 where
  pub basic_auth_secret_ref : Option String

-- StyleSpec, as far as the poller reads it
pub record StyleSpec : Type 0 where
  pub status_style : Option String
  pub error_display : Option Bool

abbrev pub discovery_source_ingress : String
discovery_source_ingress = "Ingress"

abbrev pub discovery_source_httproute : String
discovery_source_httproute = "HTTPRoute"

pub record DiscoverySpec : Type 0 where
  pub enabled : Bool
  pub annotation_prefix : Option String
  pub homepage_compat : Option Bool
  pub namespaces : List String
  pub sources : List String

unfoldable pub has_source : DiscoverySpec → String → Bool
has_source d source = elim d.sources [
  | [] ↦ source == discovery_source_ingress
  | s ∷ rest ↦ contains (s ∷ rest) source
]

abbrev pub secret_policy_labeled : String
secret_policy_labeled = "Labeled"

abbrev pub secret_allow_widgets_label : String
secret_allow_widgets_label = "page.kubepage.dev/allow-widgets"

pub record Dashboard : Type 0 where
  pub namespace : String
  pub name : String
  pub widget_defaults : Map WidgetDefaultsEntry
  pub secret_policy : Option String
  pub auth : Option AuthSpec
  pub style : Option StyleSpec
  pub discovery : Option DiscoverySpec
  pub monitor_namespaces : List String
  pub cluster_domain : Option String
