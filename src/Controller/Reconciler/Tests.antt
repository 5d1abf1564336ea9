-- ===== src/Controller/Reconciler/Tests.antt =====
-- A kind with one field for each thing that the reconciler uses, and its reconcile.
use kubepage_operator.Prelude.{
  String, true, not, Option, none, some, List, [], ◌∷◌, ◌≡◌, refl, ◌==◌, ◌||◌, ◌&&◌, any,
  if◌then◌else◌, select,
}
use kubepage_operator.Api.{bound_to}
use kubepage_operator.Cluster.{found, Listed, items}
use kubepage_operator.Controller.Condition.{Condition, type_available_bound, type_config_valid}
use kubepage_operator.Controller.WidgetConfig.{WidgetConfigInstance}
use kubepage_operator.Controller.WidgetConfig.Laws.{is_invalid, has_unknown}
use kubepage_operator.Controller.Reconciler.{Adapter, Api, reconcile, map_dashboard_to_requests}
use kubepage_operator.Controller.Reconciler.Availability.{
  Lawful, condition_holds, reconcile_conditions,
}
use kubepage_operator.Controller.Reconciler.Watch.{asks, watch_complete}
use kubepage_operator.Fixtures.{plain_format, home, boards, server, server-Serves}

record Panel : Type 0 where
  name : String
  ref : String
  conditions : List Condition
  configs : List WidgetConfigInstance

abbrev panels : Adapter Panel
panels = record {
  namespace = λ p. "apps";
  name = λ p. p.name;
  generation = λ p. 1;
  ref_name = λ p. p.ref;
  conditions = λ p. p.conditions;
  set_conditions = λ p cs. record p { conditions = cs };
  apply_entries = λ p. p;
  widget_configs = some (λ p. p.configs);
}

abbrev find : List Condition → String → Option Condition
find [] t = none
find (c ∷ cs) t = if c.type == t then some c else find cs t

abbrev stats : Panel
stats = record {
  name = "stats";
  ref = "home";
  conditions = [];
  configs = record { location = "widget[0]"; widget_type = "openmeteo"; raw = none } ∷ [];
}

abbrev panel_api : Api Panel
panel_api = record {
  set_condition = λ cs c. c ∷ cs;
  find_condition = find;
  get = λ namespace name. found stats;
  update_status = λ p. none;
}

panels-Lawful : Lawful panels panel_api
panels-Lawful = record { sets = λ cs c t. refl; keeps = λ p cs. refl }

abbrev parse : String → Option (List String)
parse s = none

reconcile_conditions_example :
    (condition_holds panels panel_api type_available_bound
        (reconcile plain_format parse panels panel_api server "apps" "stats")
      ≡ (any (λ d. bound_to "home" d.name 1) boards
          && not (any (is_invalid plain_format parse) stats.configs)))
    × (condition_holds panels panel_api type_config_valid
          (reconcile plain_format parse panels panel_api server "apps" "stats")
        ≡ not (
            any (is_invalid plain_format parse) stats.configs
            || any (has_unknown plain_format parse) stats.configs))
reconcile_conditions_example =
    reconcile_conditions plain_format parse panels-Lawful server "apps" "stats" stats boards
      (λ p. p.configs) refl (λ p. refl) server-Serves refl

abbrev loose : Panel
loose = record { name = "loose"; ref = ""; conditions = []; configs = [] }

abbrev list_panels : String → String → Listed Panel
list_panels namespace ref = items (select (λ p. p.ref == ref) (stats ∷ loose ∷ []))

-- The arrival of a second Dashboard unbinds `loose`, which the event enqueues.
watch_complete_example :
    any
      (asks "apps" "loose")
      (map_dashboard_to_requests panels list_panels (record home { name = "lab" }))
    ≡ true
unfolding bound_to
watch_complete_example =
    watch_complete panels list_panels (record home { name = "lab" }) boards loose
      (stats ∷ loose ∷ []) (λ ref. refl) refl (λ e. cc e)
