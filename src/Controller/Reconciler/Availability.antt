-- ===== src/Controller/Reconciler/Availability.antt =====
-- What a reconcile writes into the Available and ConfigValid conditions.
use kubepage_operator.Prelude.{
  ℕ, String, Bool, false, not, Option, none, some, List, ◌≡◌, refl, ◌==◌, ◌&&◌, ◌||◌, any, arith,
  if◌then◌else◌, length, is_some, ◌∙◌,
}
use kubepage_operator.Prelude.Format.{Format}
use kubepage_operator.Prelude.Result.{Result, ok, err}
use kubepage_operator.Api.{Dashboard, bound_to}
use kubepage_operator.Cluster.{Reader, found}
use kubepage_operator.Controller.Condition.{Condition, type_available_bound, type_config_valid}
use kubepage_operator.Controller.Binding.{bound_dashboard_condition}
use kubepage_operator.Controller.Binding.Agreement.{
  Serves, condition-answers, is_true, condition-bound_to,
}
use kubepage_operator.Controller.WidgetConfig.{WidgetConfigInstance, validate_widget_configs}
use kubepage_operator.Controller.WidgetConfig.Laws.{
  is_invalid, has_unknown, validate_widget_configs_lem,
}
use kubepage_operator.Controller.Reconciler.{
  Adapter, Api, Outcome, gone, errored, written, override_condition, new_conditions, write_status,
  with_condition, reconcile,
}

-- The documented behaviour of the API library's condition functions, and of a kind's accessors.
pub record Lawful {T : Type 0} (r : Adapter T) (api : Api T) : Type 0 where
  pub sets :
      (cs : List Condition) (c : Condition) (t : String)
      → api.find_condition (api.set_condition cs c) t
        ≡ (if c.type == t then some c else api.find_condition cs t)
  pub keeps :
      (obj : T) (cs : List Condition)
      → r.conditions (r.apply_entries (r.set_conditions obj cs)) ≡ cs

abbrev pub shows : Option Condition → Bool
shows none = false
shows (some c) = is_true c.status

-- Whether a condition of the object is there and True.
abbrev pub condition_holds : {T : Type 0} (r : Adapter T) → Api T → String → Outcome T → Bool
condition_holds r api t gone = false
condition_holds r api t (errored e) = false
condition_holds r api t (written obj) = shows (api.find_condition (r.conditions obj) t)

abbrev AreType : String → Option Condition → Type 0
AreType t none = Unit
AreType t (some c) = c.type ≡ t

abbrev good : Result Condition → Option Condition
good (ok c) = some c
good (err e) = none

module _ (fmt : Format) (parse_object : String → Option (List String)) where
  available_type :
      (c : Reader) (namespace ref : String) (generation : ℕ)
      → AreType type_available_bound
          (good (bound_dashboard_condition fmt c namespace ref generation))
  unfolding bound_dashboard_condition
  available_type c namespace ref generation = ground arith

  override_type :
      (insts : List WidgetConfigInstance) (generation : ℕ)
      → AreType type_available_bound (validate_widget_configs fmt parse_object insts generation).0
  unfolding validate_widget_configs
  override_type insts generation = ground arith

  override_false :
      (insts : List WidgetConfigInstance) (generation : ℕ)
      → shows (validate_widget_configs fmt parse_object insts generation).0 ≡ false
  unfolding validate_widget_configs
  override_false insts generation = ground arith

  valid_type :
      (insts : List WidgetConfigInstance) (generation : ℕ)
      → (validate_widget_configs fmt parse_object insts generation).1.type ≡ type_config_valid
  unfolding validate_widget_configs
  valid_type insts generation = ground arith

  -- The Available condition that is set last, and whether it is True.
  overridden :
      (cond : Condition) (override : Option Condition)
      → cond.type ≡ type_available_bound
      → AreType type_available_bound override
      → shows override ≡ false
      → ((override_condition cond cond.status override).type ≡ type_available_bound)
        × (is_true (override_condition cond cond.status override).status
            ≡ (is_true cond.status && not (is_some override)))
  unfolding override_condition
  overridden cond override t u f = ground arith

  module _ {T : Type 0} {r : Adapter T} {api : Api T} (laws : Lawful r api) where
    -- The two conditions after they are set one after the other.
    both_set :
        (cs : List Condition) (a v : Condition)
        → a.type ≡ type_available_bound
        → v.type ≡ type_config_valid
        → (api.find_condition (api.set_condition (api.set_condition cs a) v) type_available_bound
            ≡ some a)
          × (api.find_condition (api.set_condition (api.set_condition cs a) v) type_config_valid
              ≡ some v)
    both_set cs a v ea ev =
        let one = laws.sets (api.set_condition cs a) v type_available_bound in
        let two = laws.sets cs a type_available_bound in
        let three = laws.sets (api.set_condition cs a) v type_config_valid in
        (one ∙ simp ev (two ∙ simp ea refl), three ∙ simp ev refl)

    module _ (c : Reader) (namespace name : String) (obj : T) where
      abbrev validated : (T → List WidgetConfigInstance) → Option Condition × Condition
      validated widget_configs =
          validate_widget_configs fmt parse_object (widget_configs obj) (r.generation obj)

      -- The conditions that a reconcile of a kind with widgets writes.
      abbrev set_both : Condition → (T → List WidgetConfigInstance) → List Condition
      set_both cond widget_configs =
          api.set_condition
            (api.set_condition (r.conditions obj)
              (override_condition cond cond.status (validated widget_configs).0))
            (validated widget_configs).1

      reconcile_written :
          (cond : Condition) (widget_configs : T → List WidgetConfigInstance)
          → api.get namespace name ≡ found obj
          → ((t : T) → api.update_status t ≡ none)
          → bound_dashboard_condition fmt c (r.namespace obj) (r.ref_name obj) (r.generation obj)
            ≡ ok cond
          → r.widget_configs ≡ some widget_configs
          → reconcile fmt parse_object r api c namespace name
            ≡ written (r.apply_entries (r.set_conditions obj (set_both cond widget_configs)))
      unfolding reconcile
      reconcile_written cond widget_configs got taken checked has =
          rw (got, reconcile)
            (rw (checked, with_condition)
              (rw (has, new_conditions) (rw (taken, write_status) refl)))

      -- A kind with widgets, whose object the server has and whose status it takes: after a reconcile
      -- Available is True exactly when a Dashboard of the namespace takes the object as bound to it
      -- and no widget's config is invalid; ConfigValid is True exactly when no widget's config is
      -- invalid or has an unknown key.
      pub reconcile_conditions :
          (ds : List Dashboard) (widget_configs : T → List WidgetConfigInstance)
          → api.get namespace name ≡ found obj
          → ((t : T) → api.update_status t ≡ none)
          → Serves c (r.namespace obj) ds
          → r.widget_configs ≡ some widget_configs
          → (condition_holds r api type_available_bound
                (reconcile fmt parse_object r api c namespace name)
              ≡ (any (λ d. bound_to (r.ref_name obj) d.name (length ds)) ds
                  && not (any (is_invalid fmt parse_object) (widget_configs obj))))
            × (condition_holds r api type_config_valid
                  (reconcile fmt parse_object r api c namespace name)
                ≡ not (
                    any (is_invalid fmt parse_object) (widget_configs obj)
                    || any (has_unknown fmt parse_object) (widget_configs obj)))
      unfolding reconcile
      reconcile_conditions ds widget_configs got taken serves has =
          let (cond, checked) = condition-answers fmt c _ _ (r.generation obj) serves in
          let agreed = condition-bound_to fmt c _ (r.ref_name obj) (r.generation obj) ds serves in
          let V = validated widget_configs in
          let override = override_condition cond cond.status V.0 in
          let cond_type : cond.type ≡ type_available_bound =
            rw checked at
              (available_type c (r.namespace obj) (r.ref_name obj) (r.generation obj)) in
          let (typed, status) =
            overridden cond V.0 cond_type (override_type _ _) (override_false _ _) in
          let (first, second) = both_set (r.conditions obj) override V.1 typed (valid_type _ _) in
          let (overrides, valid) =
            validate_widget_configs_lem fmt parse_object (widget_configs obj) (r.generation obj) in
          rw (reconcile_written cond widget_configs got taken checked has) (
            rw (laws.keeps)
              (rw (first, second) (simp (status, overrides, ← agreed, checked), valid)))
