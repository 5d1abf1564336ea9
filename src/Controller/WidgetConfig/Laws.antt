-- ===== src/Controller/WidgetConfig/Laws.antt =====
-- What the conditions of a validation say.
use kubepage_operator.Prelude.{
  ℕ, String, Bool, true, false, not, Option, none, some, List, [], ◌∷◌, ◌++◌, ◌≡◌, refl, ap, ◌∙◌,
  ◌||◌, ◌&&◌, arith, any, Option-cases, inl, inr, ◌==◌, if◌then◌else◌, contains, contains-select,
  contains-append, select, is_some,
}
use kubepage_operator.Prelude.Format.{Format}
use kubepage_operator.Prelude.Map
use kubepage_operator.Prelude.Order.{compare_text}
use kubepage_operator.Prelude.Sort.{is_empty, is_empty-sort, contains-sort, sort-IsSorted, IsSorted}
use kubepage_operator.Controller.WidgetSchema.{ConfigSchema, config_schemas, validate_config}
use kubepage_operator.Controller.WidgetConfig.{
  WidgetConfigInstance, decode_config_keys, checked_messages, schema_messages, instance_messages,
  collect_messages, available_override, config_valid_condition, validate_widget_configs, when_any,
}
use kubepage_operator.Controller.Binding.Agreement.{is_true}

-- The missing keys of a config are exactly the required keys that it lacks, and the unknown ones
-- exactly its keys that the schema lists neither as required nor as optional; both lists are sorted.
pub validate_config_exact :
    (keys : List String) (schema : ConfigSchema)
    → ((k : String)
        → contains (validate_config keys schema).0 k
          ≡ (contains schema.required k && not (contains keys k)))
      × ((k : String)
          → contains (validate_config keys schema).1 k
            ≡ (contains keys k && not (contains schema.required k || contains schema.optional k)))
      × IsSorted compare_text (validate_config keys schema).0
      × IsSorted compare_text (validate_config keys schema).1
unfolding validate_config
validate_config_exact keys schema = (
  λ k. contains-sort _ k ∙ contains-select (λ key. not (contains keys key)) schema.required k,
  λ k. rw (contains-sort, contains-select, contains-append) refl,
  sort-IsSorted _,
  sort-IsSorted _,
)

is_empty-append : (xs ys : List String) → is_empty (xs ++ ys) ≡ (is_empty xs && is_empty ys)
is_empty-append [] ys = refl
is_empty-append (x ∷ xs) ys = refl

is_empty-select : (p : String → Bool) (xs : List String) → is_empty (select p xs) ≡ not (any p xs)
is_empty-select p [] = refl
is_empty-select p (x ∷ xs) = ground (arith, is_empty-select p xs)

is_empty-when_any : (keys : List String) (m : String) → is_empty (when_any keys m) ≡ is_empty keys
is_empty-when_any [] m = refl
is_empty-when_any (k ∷ ks) m = refl

module _ (fmt : Format) (parse_object : String → Option (List String)) where
  -- A required key is missing, or the config is no JSON object.
  abbrev invalid_keys : ConfigSchema → Option (List String) → Bool
  invalid_keys schema none = true
  invalid_keys schema (some keys) = any (λ k. not (contains keys k)) schema.required

  abbrev unknown_keys : ConfigSchema → Option (List String) → Bool
  unknown_keys schema none = false
  unknown_keys schema (some keys) =
      any (λ k. not (contains schema.required k || contains schema.optional k)) keys

  -- An absent or an empty config has no keys; any other text has those of its object, if it is one.
  abbrev pub stated_keys : Option String → Option (List String)
  stated_keys none = some []
  stated_keys (some raw) = elim (parse_object raw) [
    | some keys ↦ some (if raw == "" then [] else keys)
    | none ↦ if raw == "" then some [] else none
  ]

  decode_config_keys-stated :
      (raw : Option String) → decode_config_keys fmt parse_object raw ≡ stated_keys raw
  unfolding decode_config_keys
  decode_config_keys-stated none = refl
  decode_config_keys-stated (some raw) = elim (Option-cases (parse_object raw)) [
    | inl e ↦ rw (e, stated_keys) refl
    | inr (keys, e) ↦ rw (e, stated_keys) (ground arith)
  ]

  abbrev judge :
      (ConfigSchema → Option (List String) → Bool) → Option ConfigSchema → Option String → Bool
  judge p none raw = false
  judge p (some schema) raw = p schema (stated_keys raw)

  abbrev pub is_invalid : WidgetConfigInstance → Bool
  is_invalid inst = judge invalid_keys (Map.lookup inst.widget_type config_schemas) inst.raw

  abbrev pub has_unknown : WidgetConfigInstance → Bool
  has_unknown inst = judge unknown_keys (Map.lookup inst.widget_type config_schemas) inst.raw

  checked_invalid :
      (location : String) (schema : ConfigSchema) (keys : Option (List String))
      → is_empty (checked_messages fmt parse_object location schema keys).invalid
        ≡ not (invalid_keys schema keys)
  unfolding checked_messages validate_config
  checked_invalid location schema none = refl
  checked_invalid location schema (some keys) =
      is_empty-when_any _ _ ∙ is_empty-sort _ ∙ is_empty-select _ schema.required

  unknown_keys-append :
      (schema : ConfigSchema) (keys : List String)
      → any (λ k. not (contains (schema.required ++ schema.optional) k)) keys
        ≡ any (λ k. not (contains schema.required k || contains schema.optional k)) keys
  unknown_keys-append schema [] = refl
  unknown_keys-append schema (k ∷ ks) =
      ground
        (arith, unknown_keys-append schema ks, contains-append schema.required schema.optional k)

  checked_unknown :
      (location : String) (schema : ConfigSchema) (keys : Option (List String))
      → is_empty (checked_messages fmt parse_object location schema keys).unknown
        ≡ not (unknown_keys schema keys)
  unfolding checked_messages validate_config
  checked_unknown location schema none = refl
  checked_unknown location schema (some keys) =
      is_empty-when_any _ _
      ∙ is_empty-sort _
      ∙ is_empty-select _ keys
      ∙ ap not (unknown_keys-append schema keys)

  schema_invalid :
      (inst : WidgetConfigInstance) (schema : Option ConfigSchema)
      → is_empty (schema_messages fmt parse_object inst schema).invalid
        ≡ not (judge invalid_keys schema inst.raw)
  unfolding schema_messages
  schema_invalid inst none = refl
  schema_invalid inst (some schema) =
      rw (decode_config_keys-stated inst.raw) (checked_invalid inst.location schema _)

  collect_invalid :
      (insts : List WidgetConfigInstance)
      → is_empty (collect_messages fmt parse_object insts).invalid
        ≡ not (any (λ i. judge invalid_keys (Map.lookup i.widget_type config_schemas) i.raw) insts)
  unfolding collect_messages instance_messages
  collect_invalid [] = refl
  collect_invalid (inst ∷ insts) =
      let schema = Map.lookup inst.widget_type config_schemas in
      is_empty-append (schema_messages fmt parse_object inst schema).invalid
        (collect_messages fmt parse_object insts).invalid
      ∙ ground (arith, schema_invalid inst schema, collect_invalid insts)

  schema_unknown :
      (inst : WidgetConfigInstance) (schema : Option ConfigSchema)
      → is_empty (schema_messages fmt parse_object inst schema).unknown
        ≡ not (judge unknown_keys schema inst.raw)
  unfolding schema_messages
  schema_unknown inst none = refl
  schema_unknown inst (some schema) =
      rw (decode_config_keys-stated inst.raw) (checked_unknown inst.location schema _)

  collect_unknown :
      (insts : List WidgetConfigInstance)
      → is_empty (collect_messages fmt parse_object insts).unknown
        ≡ not (any (λ i. judge unknown_keys (Map.lookup i.widget_type config_schemas) i.raw) insts)
  unfolding collect_messages instance_messages
  collect_unknown [] = refl
  collect_unknown (inst ∷ insts) =
      let schema = Map.lookup inst.widget_type config_schemas in
      is_empty-append (schema_messages fmt parse_object inst schema).unknown
        (collect_messages fmt parse_object insts).unknown
      ∙ ground (arith, schema_unknown inst schema, collect_unknown insts)

  override_of :
      (generation : ℕ) (ms : List String)
      → is_some (available_override fmt parse_object generation ms) ≡ not (is_empty ms)
  unfolding available_override
  override_of generation [] = refl
  override_of generation (m ∷ ms) = refl

  valid_of :
      (generation : ℕ) (ms us : List String)
      → is_true (config_valid_condition fmt parse_object generation ms us).status
        ≡ (is_empty ms && is_empty us)
  unfolding config_valid_condition
  valid_of generation [] [] = refl
  valid_of generation [] (u ∷ us) = refl
  valid_of generation (m ∷ ms) us = refl

  -- The Available override is given exactly when some widget, of a type that has a schema, lacks a
  -- required key or has a config that is no JSON object; ConfigValid is True exactly when no widget of
  -- such a type does, and none of them has an unknown key. So an unknown key alone never flips
  -- Available, and a widget of another type never counts, whatever its config.
  pub validate_widget_configs_lem :
      (insts : List WidgetConfigInstance) (generation : ℕ)
      → (is_some (validate_widget_configs fmt parse_object insts generation).0
          ≡ any is_invalid insts)
        × (is_true (validate_widget_configs fmt parse_object insts generation).1.status
            ≡ not (any is_invalid insts || any has_unknown insts))
  unfolding validate_widget_configs
  validate_widget_configs_lem insts generation = (
    ground (
      arith,
      override_of generation (collect_messages fmt parse_object insts).invalid,
      collect_invalid insts,
    ),
    ground (
      arith,
      valid_of generation (collect_messages fmt parse_object insts).invalid
          (collect_messages fmt parse_object insts).unknown,
      collect_invalid insts,
      collect_unknown insts,
    ),
  )
