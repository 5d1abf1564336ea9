-- ===== src/Pod/Highlight/Spec.antt =====
-- What a highlight is meant to be: the evaluation without a cache of compiled patterns.
use kubepage_operator.Prelude.{
  String, Bool, not, Option, none, some, List, [], ◌∷◌, ◌==◌, if◌then◌else◌, ◌≡◌,
}
use kubepage_operator.Prelude.Map.{Map, lookup}
use kubepage_operator.Api.{HighlightRuleSpec, FieldHighlight}
use kubepage_operator.Pod.Field.{Field}
use kubepage_operator.Pod.Highlight.{
  Engine, RegexCache, is_numeric, is_set, evaluate_numeric_rule, regex_pattern, match_string,
  text_rule, folded, find_rules, normalize_field_key,
}

module _ (engine : Engine) where
  open engine use {compile}

  abbrev pub holds : HighlightRuleSpec → String → Bool
  holds r value =
      if is_numeric r.when
      then evaluate_numeric_rule engine r value
      else if r.when == "regex"
      then match_string engine (compile (regex_pattern engine r)) value
      else text_rule engine r.when (folded engine r value) (folded engine r r.value)

  abbrev pub matches : HighlightRuleSpec → String → Bool
  matches r value = if is_set r.negate then not (holds r value) else holds r value

  -- The level of the first rule that matches.
  abbrev pub level : List HighlightRuleSpec → String → String
  level [] value = ""
  level (r ∷ rules) value = if matches r value then r.level else level rules value

  abbrev pub field_level : Option FieldHighlight → String → String
  field_level none value = ""
  field_level (some fh) value = level fh.rules value

  -- A field that a widget has highlighted keeps its highlight.
  abbrev pub highlighted : Map FieldHighlight → Field → Field
  highlighted rules f = record f {
    highlight =
        if f.highlight == ""
        then field_level (find_rules engine (normalize_field_key f.label) rules) f.value
        else f.highlight;
  }

  -- A cache holds what a compilation gives.
  abbrev pub IsCache : RegexCache engine → Type 0
  IsCache cache =
      (p : String) (c : Option (String → Bool)) → lookup p cache ≡ some c → compile p ≡ c
