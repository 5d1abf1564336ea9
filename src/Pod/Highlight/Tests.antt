-- ===== src/Pod/Highlight/Tests.antt =====
-- An engine whose numbers are the texts "1", "2" and "3", and a field that it highlights.
use Prim.Native.Nat.{compare}
use kubepage_operator.Prelude.{
  ℕ, String, Bool, true, false, Option, none, some, [], ◌∷◌, map, ◌==◌, ◌≡◌, refl, inl, inr,
  if◌then◌else◌, arith, Bool-cases, eq_iff,
}
use kubepage_operator.Prelude.Map
use kubepage_operator.Prelude.Map.{Map}
use kubepage_operator.Prelude.Order.{IsOrder}
use kubepage_operator.Api.{HighlightRuleSpec, FieldHighlight}
use kubepage_operator.Pod.Field.{Field}
use kubepage_operator.Pod.Number.{
  numeric_value, find_number, match_here, found_or, unsigned, signed, span_digits, fraction,
}
use kubepage_operator.Pod.Highlight.{
  Engine, numeric_rule, evaluate_numeric_rule, normalize_field_key, filter_fields, cached,
  compile_regex_cached, evaluate_regex_rule, evaluate_string_rule, evaluate_rule, rule_matches,
  first_matching_level, find_rules, highlight_field, highlight_fields, apply_highlights, includes,
  has_suffix,
}
use kubepage_operator.Pod.Highlight.Spec.{highlighted, IsCache}
use kubepage_operator.Pod.Highlight.Evaluation.{apply_highlights_lem}

abbrev digit : String → Option ℕ
digit s =
    if s == "1" then some 1 else if s == "2" then some 2 else if s == "3" then some 3 else none

-- A pattern matches the same text, and "(" is none.
abbrev literal : String → Option (String → Bool)
literal p = if p == "(" then none else some (λ s. s == p)

abbrev digits : Engine
digits = record {
  to_lower = λ s. s;
  compile = literal;
  Float = ℕ;
  parse_float = digit;
  compare_floats = compare;
}

compare-IsOrder : IsOrder compare
compare-IsOrder = record { flips = λ a b. ground arith; chains = λ a b c h k. ground arith }

abbrev rule : String → String → Option String → HighlightRuleSpec
rule when value value2 = record {
  level = "warn";
  when = when;
  value = value;
  value2 = value2;
  negate = none;
  case_sensitive = some true;
}

abbrev queue_rules : Map FieldHighlight
queue_rules =
    (
      "queueSize",
      record { rules = rule "regex" "(" none ∷ rule "between" "3" (some "1") ∷ []; scope = none },
    )
    ∷ []

abbrev queue : Field
queue = record { label = "Queue Size"; value = "2"; percent = none; highlight = "" }

highlights_computed : Unit {0}
unfolding apply_highlights highlight_fields highlight_field find_rules first_matching_level
    rule_matches evaluate_rule evaluate_string_rule evaluate_regex_rule compile_regex_cached cached
    evaluate_numeric_rule numeric_rule numeric_value find_number match_here found_or unsigned signed
    span_digits fraction normalize_field_key filter_fields includes has_suffix Map.lookup Map.set
highlights_computed = tt

apply_highlights_tests :
    ((apply_highlights digits (queue ∷ []) queue_rules []).0
      ≡ record queue { highlight = "warn" } ∷ [])
    × ((apply_highlights digits (record queue { highlight = "good" } ∷ []) queue_rules []).0
        ≡ record queue { highlight = "good" } ∷ [])
    × (filter_fields (queue ∷ record queue { label = "Wanted" } ∷ []) ("queue_size" ∷ [])
        ≡ queue ∷ [])
    × (includes "abc" "bc" ≡ true)
    × (has_suffix "abc" "ab" ≡ false)
unfolding highlights_computed
apply_highlights_tests = (refl, refl, refl, refl, refl)

abbrev compiled : Map (Option (String → Bool))
compiled = ("(", none) ∷ []

compiled-IsCache : IsCache digits compiled
unfolding highlights_computed
compiled-IsCache p c e = elim (Bool-cases ("(" == p)) [
  | inl same ↦ let names : "(" ≡ p = (eq_iff "(" p).0 same in rw (← names) cc (rw same at e)
  | inr other ↦ cc (rw other at e)
]

apply_highlights_lem_example :
    ((apply_highlights digits (queue ∷ []) queue_rules compiled).0
      ≡ map (highlighted digits queue_rules) (queue ∷ []))
    × IsCache digits (apply_highlights digits (queue ∷ []) queue_rules compiled).1
apply_highlights_lem_example =
    apply_highlights_lem digits (queue ∷ []) queue_rules compiled compiled-IsCache
