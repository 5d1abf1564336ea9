-- ===== src/Controller/Condition.antt =====
-- internal/controller/conditions.go: the conditions' types and reasons.
use kubepage_operator.Prelude.{ℕ, String}

-- metav1.ConditionStatus, for the two values that these reconcilers set
pub data Status : Type 0 where
  condition_true condition_false : Status

-- metav1.Condition, less the transition time that the API library stamps
pub record Condition : Type 0 where
  pub type : String
  pub status : Status
  pub reason : String
  pub message : String
  pub observed_generation : ℕ

abbrev pub reason_dashboard_not_found : String
reason_dashboard_not_found = "DashboardNotFound"

abbrev pub reason_ambiguous_dashboard_ref : String
reason_ambiguous_dashboard_ref = "AmbiguousDashboardRef"

abbrev pub reason_bound : String
reason_bound = "Bound"

abbrev pub reason_invalid_widget_config : String
reason_invalid_widget_config = "InvalidWidgetConfig"

abbrev pub reason_unknown_config_keys : String
reason_unknown_config_keys = "UnknownConfigKeys"

abbrev pub reason_config_valid : String
reason_config_valid = "ConfigValid"

abbrev pub type_available_bound : String
type_available_bound = "Available"

abbrev pub type_config_valid : String
type_config_valid = "ConfigValid"
