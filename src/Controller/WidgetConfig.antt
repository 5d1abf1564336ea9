-- ===== src/Controller/WidgetConfig.antt =====
-- internal/controller/widget_config.go, and the flattening of a config object's widgets in
-- servicecard_controller.go and infowidget_controller.go.
pub mod Laws
mod Tests
use kubepage_operator.Prelude.{
  ℕ, suc, String, Option, none, some, List, [], ◌∷◌, ◌++◌, ◌==◌, if◌then◌else◌,
}
use kubepage_operator.Prelude.Format.{Format, text, join}
use kubepage_operator.Prelude.Map
use kubepage_operator.Api.{ServiceWidget, ServiceEntry, InfoWidgetEntry}
use kubepage_operator.Controller.Condition.{
  Condition, condition_true, condition_false, type_available_bound, type_config_valid,
  reason_invalid_widget_config, reason_unknown_config_keys, reason_config_valid,
}
use kubepage_operator.Controller.WidgetSchema.{ConfigSchema, config_schemas, validate_config}

pub record WidgetConfigInstance : Type 0 where
  pub location : String
  pub widget_type : String
  pub raw : Option String

-- What the loop collects for the conditions' messages.
pub record Messages : Type 0 where
  pub invalid : List String
  pub unknown : List String

-- A message where the list is not empty.
abbrev when_any : List String → String → List String
when_any [] message = []
when_any (key ∷ keys) message = message ∷ []

-- `parse_object` is `json.Unmarshal` into a map: the keys of the object, or nothing where the text
-- is no JSON object. (For the text `null` it gives no keys.)
module _ (fmt : Format) (parse_object : String → Option (List String)) where
  open fmt use {quote, decimal}

  unfoldable pub decode_config_keys : Option String → Option (List String)
  decode_config_keys none = some []
  decode_config_keys (some raw) = if raw == "" then some [] else parse_object raw

  abbrev key_messages : String → List String × List String → Messages
  key_messages location (missing, unknown) = record {
    invalid =
        when_any missing
          (text (location ∷ ": missing required config keys: " ∷ join ", " missing ∷ []));
    unknown =
        when_any unknown (text (location ∷ ": unknown config keys: " ∷ join ", " unknown ∷ []));
  }

  checked_messages : String → ConfigSchema → Option (List String) → Messages
  checked_messages location schema none = record {
    invalid = text (location ∷ ": config is not a JSON object" ∷ []) ∷ [];
    unknown = [];
  }
  checked_messages location schema (some keys) = key_messages location (validate_config keys schema)

  -- A type with no schema is passed over.
  schema_messages : WidgetConfigInstance → Option ConfigSchema → Messages
  unfolding checked_messages
  schema_messages inst none = record { invalid = []; unknown = [] }
  schema_messages inst (some schema) =
      checked_messages inst.location schema (decode_config_keys inst.raw)

  -- One round of the loop.
  instance_messages : WidgetConfigInstance → Messages
  unfolding schema_messages
  instance_messages inst = schema_messages inst (Map.lookup inst.widget_type config_schemas)

  collect_messages : List WidgetConfigInstance → Messages
  collect_messages [] = record { invalid = []; unknown = [] }
  collect_messages (inst ∷ rest) =
      let here = instance_messages inst in
      let later = collect_messages rest in
      record { invalid = here.invalid ++ later.invalid; unknown = here.unknown ++ later.unknown }

  available_override : ℕ → List String → Option Condition
  available_override generation [] = none
  available_override generation (m ∷ ms) = some (record {
    type = type_available_bound;
    status = condition_false;
    reason = reason_invalid_widget_config;
    message = join "; " (m ∷ ms);
    observed_generation = generation;
  })

  config_valid_condition : ℕ → List String → List String → Condition
  config_valid_condition generation (m ∷ ms) unknown = record {
    type = type_config_valid;
    status = condition_false;
    reason = reason_invalid_widget_config;
    message = join "; " ((m ∷ ms) ++ unknown);
    observed_generation = generation;
  }
  config_valid_condition generation [] (m ∷ ms) = record {
    type = type_config_valid;
    status = condition_false;
    reason = reason_unknown_config_keys;
    message = join "; " (m ∷ ms);
    observed_generation = generation;
  }
  config_valid_condition generation [] [] = record {
    type = type_config_valid;
    status = condition_true;
    reason = reason_config_valid;
    message = "Every widget config key is recognized";
    observed_generation = generation;
  }

  unfoldable pub validate_widget_configs :
      List WidgetConfigInstance → ℕ → Option Condition × Condition
  unfolding collect_messages instance_messages available_override config_valid_condition
  validate_widget_configs instances generation =
      let found = collect_messages instances in
      (
        available_override generation found.invalid,
        config_valid_condition generation found.invalid found.unknown,
      )

module _ (fmt : Format) where
  open fmt use {quote, decimal}

  abbrev entry_label : ℕ → ServiceEntry → String
  entry_label idx e = if e.name == "" then text ("entries[" ∷ decimal idx ∷ "]" ∷ []) else e.name

  widget_instances : String → ℕ → List ServiceWidget → List WidgetConfigInstance
  widget_instances label idx [] = []
  widget_instances label idx (w ∷ ws) =
      record {
        location = text (
            "entry "
            ∷ quote label
            ∷ " widget["
            ∷ decimal idx
            ∷ "] (type "
            ∷ quote w.type
            ∷ ")"
            ∷ []);
        widget_type = w.type;
        raw = w.config;
      }
      ∷ widget_instances label (suc idx) ws

  entry_instances : ℕ → List ServiceEntry → List WidgetConfigInstance
  entry_instances idx [] = []
  entry_instances idx (e ∷ es) =
      widget_instances (entry_label idx e) 0 e.widgets ++ entry_instances (suc idx) es

  unfoldable pub service_card_widget_config_instances :
      List ServiceEntry → List WidgetConfigInstance
  unfolding entry_instances widget_instances
  service_card_widget_config_instances entries = entry_instances 0 entries

  info_instances : ℕ → List InfoWidgetEntry → List WidgetConfigInstance
  info_instances idx [] = []
  info_instances idx (e ∷ es) =
      record {
        location = text ("widget[" ∷ decimal idx ∷ "] (type " ∷ quote e.type ∷ ")" ∷ []);
        widget_type = e.type;
        raw = e.config;
      }
      ∷ info_instances (suc idx) es

  unfoldable pub info_widget_config_instances : List InfoWidgetEntry → List WidgetConfigInstance
  unfolding info_instances
  info_widget_config_instances entries = info_instances 0 entries
