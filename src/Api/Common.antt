-- ===== src/Api/Common.antt =====
-- api/v1alpha1/common_types.go: binding a config object to its Dashboard, and secret sources.
use kubepage_operator.Prelude.{ℕ, String, Bool, Option, none, some, ◌==◌, eqb, if◌then◌else◌}

-- A `*DashboardRef` is the name that it holds, or nothing.
unfoldable pub ref_name : Option String → String
ref_name none = ""
ref_name (some name) = name

unfoldable pub bound_to : String → String → ℕ → Bool
bound_to ref dashboard_name namespace_dashboard_count =
    if ref == "" then eqb namespace_dashboard_count 1 else ref == dashboard_name

pub record SecretKeySelector : Type 0 where
  pub name : String
  pub key : String

pub record SecretValueSource : Type 0 where
  pub value : Option String
  pub secret_key_ref : Option SecretKeySelector
