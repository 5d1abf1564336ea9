-- ===== src/Controller/Binding.antt =====
-- internal/controller/conditions.go, boundDashboardCondition and namespaceDashboardCount: does a
-- config object's dashboardRef resolve?
pub mod Agreement
mod Tests
use kubepage_operator.Prelude.{ℕ, String, List, [], ◌∷◌, map, ◌==◌, if◌then◌else◌, length}
use kubepage_operator.Prelude.Format.{Format, text, join}
use kubepage_operator.Prelude.Result.{Result, ok, err}
use kubepage_operator.Prelude.Sort.{sort}
use kubepage_operator.Api.{Dashboard}
use kubepage_operator.Cluster.{Reader, Read, found, not_found, failed, Listed, items, list_failed}
use kubepage_operator.Controller.Condition.{
  Condition, condition_true, condition_false, type_available_bound, reason_dashboard_not_found,
  reason_ambiguous_dashboard_ref, reason_bound,
}

module _ (fmt : Format) where
  open fmt use {quote}

  -- The branch of an explicit ref.
  explicit_condition : String → String → ℕ → Read Dashboard → Result Condition
  explicit_condition namespace ref generation (found instance) = ok (record {
    type = type_available_bound;
    status = condition_true;
    reason = reason_bound;
    message = text ("Bound to Dashboard " ∷ quote ref ∷ []);
    observed_generation = generation;
  })
  explicit_condition namespace ref generation not_found = ok (record {
    type = type_available_bound;
    status = condition_false;
    reason = reason_dashboard_not_found;
    message = text (
        "Dashboard "
        ∷ quote ref
        ∷ " referenced by dashboardRef does not exist in namespace "
        ∷ quote namespace
        ∷ []);
    observed_generation = generation;
  })
  explicit_condition namespace ref generation (failed e) = err e

  -- The branch of an unset ref, by the Dashboards of the namespace.
  default_condition : String → ℕ → List Dashboard → Condition
  default_condition namespace generation [] = record {
    type = type_available_bound;
    status = condition_false;
    reason = reason_dashboard_not_found;
    message = text (
        "dashboardRef is not set and namespace "
        ∷ quote namespace
        ∷ " has no Dashboard to default to"
        ∷ []);
    observed_generation = generation;
  }
  default_condition namespace generation (d ∷ []) = record {
    type = type_available_bound;
    status = condition_true;
    reason = reason_bound;
    message = text (
        "dashboardRef is not set; defaulted to namespace "
        ∷ quote namespace
        ∷ "'s sole Dashboard "
        ∷ quote d.name
        ∷ []);
    observed_generation = generation;
  }
  default_condition namespace generation (d ∷ e ∷ rest) = record {
    type = type_available_bound;
    status = condition_false;
    reason = reason_ambiguous_dashboard_ref;
    message = text (
        "dashboardRef is not set and namespace "
        ∷ quote namespace
        ∷ " has multiple Dashboards ("
        ∷ join ", " (sort (map (λ (i : Dashboard). i.name) (d ∷ e ∷ rest)))
        ∷ "); set dashboardRef to disambiguate"
        ∷ []);
    observed_generation = generation;
  }

  listed_condition : String → ℕ → Listed Dashboard → Result Condition
  listed_condition namespace generation (items ds) = ok (default_condition namespace generation ds)
  listed_condition namespace generation (list_failed e) = err e

  unfoldable pub bound_dashboard_condition : Reader → String → String → ℕ → Result Condition
  unfolding explicit_condition listed_condition default_condition
  bound_dashboard_condition c namespace instance_ref_name generation =
      if instance_ref_name == ""
      then listed_condition namespace generation (c.list_dashboards namespace)
      else explicit_condition namespace instance_ref_name generation
          (c.get_dashboard namespace instance_ref_name)

abbrev pub count_listed : Listed Dashboard → Result ℕ
count_listed (items ds) = ok (length ds)
count_listed (list_failed e) = err e

unfoldable pub namespace_dashboard_count : Reader → String → Result ℕ
namespace_dashboard_count c namespace = count_listed (c.list_dashboards namespace)
