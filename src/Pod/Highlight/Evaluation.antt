-- ===== src/Pod/Highlight/Evaluation.antt =====
-- The evaluation with the cache of compiled patterns gives what the one without gives.
use kubepage_operator.Prelude.{
  String, true, Option, none, some, List, [], ◌∷◌, map, ◌==◌, ◌≡◌, refl, sym, ap, if◌then◌else◌,
  Bool-cases, Option-cases, inl, inr, eq_iff,
}
use kubepage_operator.Prelude.Map.{Map, lookup, set, lookup-set}
use kubepage_operator.Api.{HighlightRuleSpec, FieldHighlight}
use kubepage_operator.Pod.Field.{Field}
use kubepage_operator.Pod.Highlight.{
  Engine, RegexCache, is_numeric, regex_pattern, match_string, cached, compile_regex_cached,
  evaluate_regex_rule, evaluate_string_rule, evaluate_rule, rule_matches, first_matching_level,
  level_for, find_rules, normalize_field_key, highlight_field, highlight_fields, apply_highlights,
}
use kubepage_operator.Pod.Highlight.Spec.{holds, matches, level, field_level, highlighted, IsCache}

module _ (engine : Engine) where
  open engine use {compile}

  -- A step gives a value and leaves a cache that is right.
  abbrev Gives : {A : Type 0} → A → A × RegexCache engine → Type 0
  Gives a (b, cache) = (b ≡ a) × IsCache engine cache

  IsCache-set :
      (p : String) (cache : RegexCache engine)
      → IsCache engine cache
      → IsCache engine (set p (compile p) cache)
  IsCache-set p cache h q c e = elim (Bool-cases (p == q)) [
    | inl same ↦
        let stored = rw (lookup-set, same) at e in
        let names : p ≡ q = (eq_iff p q).0 same in rw (← names) cc
    | inr other ↦ h q c (rw (lookup-set, other) at e)
  ]

  compile-Gives :
      (p : String) (cache : RegexCache engine)
      → IsCache engine cache
      → Gives (compile p) (compile_regex_cached engine p cache)
  unfolding compile_regex_cached cached
  compile-Gives p cache h = elim (Option-cases (lookup p cache)) [
    | inl absent ↦ rw absent (refl, IsCache-set p cache h)
    | inr (c, stored) ↦ rw stored (sym (h p c stored), h)
  ]

  regex-Gives :
      (r : HighlightRuleSpec) (value : String) (cache : RegexCache engine)
      → IsCache engine cache
      → Gives
          (match_string engine (compile (regex_pattern engine r)) value)
          (evaluate_regex_rule engine r value cache)
  unfolding evaluate_regex_rule
  regex-Gives r value cache h =
      let (same, valid) = compile-Gives (regex_pattern engine r) cache h in
      (ap (λ c. match_string engine c value) same, valid)

  rule-Gives :
      (r : HighlightRuleSpec) (value : String) (cache : RegexCache engine)
      → IsCache engine cache
      → Gives (holds engine r value) (evaluate_rule engine r value cache)
  unfolding evaluate_rule evaluate_string_rule
  rule-Gives r value cache h = elim (Bool-cases (is_numeric r.when)) [
    | inl numeric ↦ rw numeric (refl, h)
    | inr text ↦ elim (Bool-cases (r.when == "regex")) [
      | inl regex ↦ rw (text, regex) (regex-Gives r value cache h)
      | inr other ↦ rw (text, other) (refl, h)
    ]
  ]

  matches-Gives :
      (r : HighlightRuleSpec) (value : String) (cache : RegexCache engine)
      → IsCache engine cache
      → Gives (matches engine r value) (rule_matches engine r value cache)
  unfolding rule_matches
  matches-Gives r value cache h =
      let (same, valid) = rule-Gives r value cache h in (rw same refl, valid)

  level-Gives :
      (rules : List HighlightRuleSpec) (value : String) (cache : RegexCache engine)
      → IsCache engine cache
      → Gives (level engine rules value) (first_matching_level engine rules value cache)
  unfolding first_matching_level
  level-Gives [] value cache h = (refl, h)
  level-Gives (r ∷ rules) value cache h =
      let (same, valid) = matches-Gives r value cache h in
      elim (Bool-cases (matches engine r value)) [
        | inl hit ↦ rw (same, hit) (refl, valid)
        | inr miss ↦ rw (same, miss) (level-Gives rules value _ valid)
      ]

  field_level-Gives :
      (fh : Option FieldHighlight) (value : String) (cache : RegexCache engine)
      → IsCache engine cache
      → Gives (field_level engine fh value) (level_for engine fh value cache)
  field_level-Gives none value cache h = (refl, h)
  field_level-Gives (some fh) value cache h = level-Gives fh.rules value cache h

  with_level :
      (f : Field) (l : String)
      → (f.highlight == "") ≡ true
      → (if l == "" then f else record f { highlight = l }) ≡ record f { highlight = l }
  with_level f l unset = elim (Bool-cases (l == "")) [
    | inl none_matches ↦
        let e : l ≡ "" = (eq_iff l "").0 none_matches in
        let g : f.highlight ≡ "" = (eq_iff f.highlight "").0 unset in
        rw none_matches (rw (e, ← g) refl)
    | inr level ↦ rw level refl
  ]

  field-Gives :
      (rules : Map FieldHighlight) (f : Field) (cache : RegexCache engine)
      → IsCache engine cache
      → Gives (highlighted engine rules f) (highlight_field engine rules f cache)
  unfolding highlight_field
  field-Gives rules f cache h = elim (Bool-cases (f.highlight == "")) [
    | inl unset ↦
        let found = find_rules engine (normalize_field_key f.label) rules in
        let (same, valid) = field_level-Gives found f.value cache h in
        rw unset (rw same (with_level f (field_level engine found f.value) unset), valid)
    | inr own ↦ rw own (refl, h)
  ]

  fields-Gives :
      (rules : Map FieldHighlight) (fields : List Field) (cache : RegexCache engine)
      → IsCache engine cache
      → Gives (map (highlighted engine rules) fields) (highlight_fields engine rules fields cache)
  unfolding highlight_fields
  fields-Gives rules [] cache h = (refl, h)
  fields-Gives rules (f ∷ fields) cache h =
      let (same, valid) = field-Gives rules f cache h in
      let (rest, valid') = fields-Gives rules fields _ valid in (rw (same, rest) refl, valid')

  -- With no rules a field keeps its highlight.
  unruled : (fields : List Field) → map (highlighted engine []) fields ≡ fields
  unfolding find_rules
  unruled [] = refl
  unruled (f ∷ fields) = elim (Bool-cases (f.highlight == "")) [
    | inl unset ↦
        let g : f.highlight ≡ "" = (eq_iff f.highlight "").0 unset in
        rw unset (rw (unruled fields, ← g) refl)
    | inr own ↦ rw own (rw (unruled fields) refl)
  ]

  -- With a cache of patterns that holds what a compilation gives, each field gets the level of the
  -- first rule of its own that matches, evaluated without a cache, unless a widget has highlighted it
  -- already; its label, value and percent stay, and the cache left behind is right again.
  pub apply_highlights_lem :
      (fields : List Field) (rules : Map FieldHighlight) (cache : RegexCache engine)
      → IsCache engine cache
      → ((apply_highlights engine fields rules cache).0 ≡ map (highlighted engine rules) fields)
        × IsCache engine (apply_highlights engine fields rules cache).1
  unfolding apply_highlights
  apply_highlights_lem fields [] cache h = (sym (unruled fields), h)
  apply_highlights_lem fields (r ∷ rules) cache h = fields-Gives (r ∷ rules) fields cache h
