-- ===== src/Controller/WidgetConfig/Tests.antt =====
-- Validation of the configs of the fixtures' widgets.
use kubepage_operator.Prelude.{
  String, false, not, Option, none, some, List, [], ◌∷◌, map, if◌then◌else◌, ◌≡◌, refl, ◌==◌, ◌||◌,
  ◌&&◌, any, is_some, contains,
}
use kubepage_operator.Prelude.Map.{lookup}
use kubepage_operator.Prelude.Order.{compare_text}
use kubepage_operator.Prelude.Sort.{sort, sort_func, insert_func, IsSorted}
use kubepage_operator.Controller.Condition.{reason_invalid_widget_config}
use kubepage_operator.Controller.Binding.Agreement.{is_true}
use kubepage_operator.Controller.WidgetSchema.{ConfigSchema, validate_config}
use kubepage_operator.Controller.WidgetConfig.{
  WidgetConfigInstance, decode_config_keys, instance_messages, collect_messages, available_override,
  config_valid_condition, validate_widget_configs, widget_instances, entry_instances,
  service_card_widget_config_instances, info_instances, info_widget_config_instances,
}
use kubepage_operator.Controller.WidgetConfig.Laws.{
  is_invalid, has_unknown, validate_widget_configs_lem, validate_config_exact,
}
use kubepage_operator.Fixtures.{plain_format, media_entry, weather}

-- One config that is an object with the key `qeury`; every other text is none.
abbrev parse : String → Option (List String)
parse s = if s == "{\"qeury\": 1}" then some ("qeury" ∷ []) else none

abbrev wanted : ConfigSchema
wanted = record { required = "query" ∷ []; optional = "label" ∷ [] }

abbrev given : List WidgetConfigInstance
given =
    record { location = "widget[0]"; widget_type = "sonarr"; raw = some "{\"qeury\": 1}" }
    ∷ record { location = "widget[1]"; widget_type = "openmeteo"; raw = none }
    ∷ record { location = "widget[2]"; widget_type = "unheard"; raw = some "[" }
    ∷ []

abbrev location : WidgetConfigInstance → String
location i = i.location

validate_config_tests :
    (validate_config ("qeury" ∷ []) wanted ≡ ("query" ∷ [], "qeury" ∷ []))
    × (validate_config ("label" ∷ "query" ∷ []) wanted ≡ ([], []))
unfolding validate_config sort sort_func insert_func compare_text
validate_config_tests = (refl, refl)

validate_widget_configs_tests :
    ((validate_widget_configs plain_format parse given 3).1.reason ≡ reason_invalid_widget_config)
    × (is_some (validate_widget_configs plain_format parse [] 3).0 ≡ false)
unfolding validate_widget_configs collect_messages instance_messages decode_config_keys
    validate_config sort sort_func insert_func compare_text lookup config_valid_condition
    available_override
validate_widget_configs_tests = (refl, refl)

instances_tests :
    (map location (service_card_widget_config_instances plain_format (media_entry ∷ []))
      ≡ "entry Sonarr widget[0] (type sonarr)" ∷ [])
    × (map location (info_widget_config_instances plain_format (weather ∷ []))
        ≡ "widget[0] (type openweathermap)" ∷ [])
unfolding service_card_widget_config_instances entry_instances widget_instances
    info_widget_config_instances info_instances
instances_tests = (refl, refl)

validate_widget_configs_lem_example :
    (is_some (validate_widget_configs plain_format parse given 3).0
      ≡ any (is_invalid plain_format parse) given)
    × (is_true (validate_widget_configs plain_format parse given 3).1.status
        ≡ not (
            any (is_invalid plain_format parse) given
            || any (has_unknown plain_format parse) given))
validate_widget_configs_lem_example = validate_widget_configs_lem plain_format parse given 3

validate_config_exact_example :
    ((k : String)
      → contains (validate_config ("qeury" ∷ []) wanted).0 k
        ≡ (contains ("query" ∷ []) k && not (contains ("qeury" ∷ []) k)))
    × ((k : String)
        → contains (validate_config ("qeury" ∷ []) wanted).1 k ≡ (
            contains ("qeury" ∷ []) k
            && not (contains ("query" ∷ []) k || contains ("label" ∷ []) k)))
    × IsSorted compare_text (validate_config ("qeury" ∷ []) wanted).0
    × IsSorted compare_text (validate_config ("qeury" ∷ []) wanted).1
validate_config_exact_example = validate_config_exact ("qeury" ∷ []) wanted
