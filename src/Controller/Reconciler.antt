-- ===== src/Controller/Reconciler.antt =====
-- internal/controller/bound_config_reconciler.go: the reconciler that ServiceCard, Bookmark and
-- InfoWidget share. `T` is the kind; an `Adapter` holds what a kind gives.
pub mod Availability
pub mod Watch
mod Tests
use kubepage_operator.Prelude.{
  ℕ, String, Bool, Option, none, some, List, [], ◌∷◌, ◌++◌, map, if◌then◌else◌, ◌≡◌, ◌==◌,
}
use kubepage_operator.Prelude.Format.{Format}
use kubepage_operator.Prelude.Result.{Result, ok, err}
use kubepage_operator.Api.{Dashboard}
use kubepage_operator.Cluster.{Reader, Read, found, not_found, failed, Listed, items, list_failed}
use kubepage_operator.Controller.Condition.{Condition, Status, condition_true, condition_false}
use kubepage_operator.Controller.Binding.{bound_dashboard_condition}
use kubepage_operator.Controller.WidgetConfig.{WidgetConfigInstance, validate_widget_configs}

pub record Adapter (T : Type 0) : Type 0 where
  pub namespace : T → String
  pub name : T → String
  pub generation : T → ℕ
  pub ref_name : T → String
  pub conditions : T → List Condition
  pub set_conditions : T → List Condition → T
  pub apply_entries : T → T
  pub widget_configs : Option (T → List WidgetConfigInstance)

-- The API library's `meta.SetStatusCondition`, `meta.FindStatusCondition`, and the writing of a
-- status, which may fail.
pub record Api (T : Type 0) : Type 0 where
  pub set_condition : List Condition → Condition → List Condition
  pub find_condition : List Condition → String → Option Condition
  pub get : String → String → Read T
  pub update_status : T → Option String

-- What a reconcile did: nothing (the object is gone), an error, or a status written.
pub data Outcome (T : Type 0) : Type 0 where
  gone : Outcome T
  errored : String → Outcome T
  written : T → Outcome T

-- An Available condition that is True gives way to the override.
override_condition : Condition → Status → Option Condition → Condition
override_condition cond condition_true (some override) = override
override_condition cond condition_true none = cond
override_condition cond condition_false override = cond

module _ {T : Type 0} (fmt : Format) (parse_object : String → Option (List String)) where
  module _ (r : Adapter T) (api : Api T) (c : Reader) where
    -- The new conditions of an object.
    new_conditions : T → Condition → Option (T → List WidgetConfigInstance) → List Condition
    unfolding override_condition
    new_conditions obj cond none = api.set_condition (r.conditions obj) cond
    new_conditions obj cond (some widget_configs) =
        let (available_override, config_valid) =
          validate_widget_configs fmt parse_object (widget_configs obj) (r.generation obj) in
        let cond' = override_condition cond cond.status available_override in
        api.set_condition (api.set_condition (r.conditions obj) cond') config_valid

    write_status : T → Option String → Outcome T
    write_status obj none = written obj
    write_status obj (some e) = errored e

    with_condition : T → Result Condition → Outcome T
    unfolding new_conditions write_status
    with_condition obj (err e) = errored e
    with_condition obj (ok cond) =
        let obj' =
          r.apply_entries (r.set_conditions obj (new_conditions obj cond r.widget_configs)) in
        write_status obj' (api.update_status obj')

    reconcile_read : Read T → Outcome T
    unfolding with_condition
    reconcile_read not_found = gone
    reconcile_read (failed e) = errored e
    reconcile_read (found obj) =
        with_condition obj
          (bound_dashboard_condition fmt c (r.namespace obj) (r.ref_name obj) (r.generation obj))

    unfoldable pub reconcile : String → String → Outcome T
    unfolding reconcile_read
    reconcile namespace name = reconcile_read (api.get namespace name)

pub record Request : Type 0 where
  pub name : String
  pub namespace : String

module _ {T : Type 0} (r : Adapter T) where
  abbrev request_of : T → Request
  request_of t = record { name = r.name t; namespace = r.namespace t }

  -- A failed list is passed over.
  requests_of : Listed T → List Request
  requests_of (items ts) = map request_of ts
  requests_of (list_failed e) = []

  -- `list_by_ref` is the indexed list call: a namespace, and the dashboardRef's name.
  unfoldable pub map_dashboard_to_requests : (String → String → Listed T) → Dashboard → List Request
  unfolding requests_of
  map_dashboard_to_requests list_by_ref dash =
      requests_of (list_by_ref dash.namespace dash.name)
      ++ requests_of (list_by_ref dash.namespace "")
