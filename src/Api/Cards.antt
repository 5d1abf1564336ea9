-- ===== src/Api/Cards.antt =====
-- api/v1alpha1/servicecard_types.go and infowidget_types.go: the config objects that carry widgets.
-- A `*apiextensionsv1.JSON` is its raw text.
use kubepage_operator.Prelude.{String, Bool, ℤ, Option, none, some, List, map, ◌==◌, if◌then◌else◌}
use kubepage_operator.Prelude.Map.{Map}
use kubepage_operator.Api.Common.{SecretValueSource}

pub record HighlightRuleSpec : Type 0 where
  pub level : String
  pub when : String
  pub value : String
  pub value2 : Option String
  pub negate : Option Bool
  pub case_sensitive : Option Bool

pub record FieldHighlight : Type 0 where
  pub rules : List HighlightRuleSpec
  pub scope : Option String

pub record ServiceWidget : Type 0 where
  pub type : String
  pub url : Option String
  pub secrets : Map SecretValueSource
  pub secret_ref : Option String
  pub ca_cert : Option SecretValueSource
  pub config : Option String
  pub fields : List String
  pub highlight : Map FieldHighlight
  pub poll_interval_seconds : Option ℤ

pub record LabelSelectorRequirement : Type 0 where
  pub key : String
  pub operator : String
  pub values : List String

-- metav1.LabelSelector
pub record LabelSelector : Type 0 where
  pub match_labels : Map String
  pub match_expressions : List LabelSelectorRequirement

pub record ServiceEntry : Type 0 where
  pub group : String
  pub name : String
  pub order : Option ℤ
  pub href : Option String
  pub internal_url : Option String
  pub target : Option String
  pub icon : Option String
  pub description : Option String
  pub show_stats : Option Bool
  pub error_display : Option Bool
  pub monitor : Option String
  pub app : Option String
  pub namespace : Option String
  pub pod_selector : Option LabelSelector
  pub status_style : Option String
  pub widgets : List ServiceWidget

abbrev pub monitor_self : String
monitor_self = "self"

abbrev pub internal_url_auto : String
internal_url_auto = "auto"

-- The value of an optional text, or "" (Go's zero value).
abbrev pub or_empty : Option String → String
or_empty none = ""
or_empty (some s) = s

unfoldable pub base_url : ServiceEntry → String
base_url se = elim se.internal_url [
  | some url ↦ if url == "" then or_empty se.href else url
  | none ↦ or_empty se.href
]

unfoldable pub monitor_url_with_base : ServiceEntry → String → String
monitor_url_with_base se base = elim se.monitor [
  | none ↦ ""
  | some monitor ↦ if monitor == "" then "" else if monitor == monitor_self then base else monitor
]

unfoldable pub monitor_url : ServiceEntry → String
unfolding monitor_url_with_base base_url
monitor_url se = monitor_url_with_base se (base_url se)

-- A ServiceCard with the fields of its metadata that the program reads.
pub record ServiceCard : Type 0 where
  pub namespace : String
  pub name : String
  pub dashboard_ref : Option String
  pub group : String
  pub services : List ServiceEntry

abbrev with_group : String → ServiceEntry → ServiceEntry
with_group group se = if se.group == "" then record se { group = group } else se

unfoldable pub service_entries : ServiceCard → List ServiceEntry
service_entries s = map (with_group s.group) s.services

pub record InfoWidgetEntry : Type 0 where
  pub type : String
  pub url : Option String
  pub order : Option ℤ
  pub icon : Option String
  pub align : Option String
  pub secrets : Map SecretValueSource
  pub secret_ref : Option String
  pub ca_cert : Option SecretValueSource
  pub config : Option String
  pub poll_interval_seconds : Option ℤ

pub record InfoWidget : Type 0 where
  pub namespace : String
  pub name : String
  pub dashboard_ref : Option String
  pub widgets : List InfoWidgetEntry

unfoldable pub info_widget_entries : InfoWidget → List InfoWidgetEntry
info_widget_entries s = s.widgets
