-- ===== src/Pod/Highlight.antt =====
-- internal/dashboard/highlight.go: which fields of a widget show, and how they are highlighted.
pub mod Spec
pub mod Evaluation
pub mod Ranges
mod Tests
use Prim.Native.Nat.{Ordering}
use Prim.Native.Char.{Char, code}
use Prim.Native.String
use kubepage_operator.Prelude.{
  ℕ, ◌+◌, ◌-◌, String, Bool, true, false, not, Option, none, some, List, [], ◌∷◌, map, ◌==◌, ◌&&◌,
  ◌||◌, leb, eqb, if◌then◌else◌, select, any,
}
use kubepage_operator.Prelude.Format.{has_prefix}
use kubepage_operator.Prelude.Map
use kubepage_operator.Prelude.Map.{Map}
use kubepage_operator.Api.{HighlightRuleSpec, FieldHighlight}
use kubepage_operator.Pod.Field.{Field}
use kubepage_operator.Pod.Number.{numeric_value}

-- One rune of the loop of `normalizeFieldKey`.
abbrev normal_rune : ℕ → List ℕ → List ℕ
normal_rune r rest =
    if leb b'A' r && leb r b'Z'
    then (r - b'A' + b'a') ∷ rest
    else if (leb b'a' r && leb r b'z') || (leb b'0' r && leb r b'9')
    then r ∷ rest
    else rest

-- The normalised key, as its code points.
unfoldable pub normalize_field_key : String → List ℕ
normalize_field_key String.[] = []
normalize_field_key (String.◌∷◌ c s) = normal_rune (code c) (normalize_field_key s)

abbrev pub same_key : List ℕ → List ℕ → Bool
same_key [] [] = true
same_key [] (y ∷ ys) = false
same_key (x ∷ xs) [] = false
same_key (x ∷ xs) (y ∷ ys) = eqb x y && same_key xs ys

abbrev pub is_kept : List String → Field → Bool
is_kept allowlist f =
    any (λ label. same_key (normalize_field_key label) (normalize_field_key f.label)) allowlist

unfoldable pub filter_fields : List Field → List String → List Field
filter_fields fields [] = fields
filter_fields fields (label ∷ labels) = select (is_kept (label ∷ labels)) fields

-- What the engine takes from Go's library: `strings.ToLower`, `regexp.Compile` (nothing where the
-- pattern is invalid, else `MatchString`), and `strconv.ParseFloat` (nothing where it fails), which of
-- a decimal number gives no NaN, so that the comparisons of two floats are those of an order.
pub record Engine : Type 1 where
  pub to_lower : String → String
  pub compile : String → Option (String → Bool)
  pub Float : Type 0
  pub parse_float : String → Option Float
  pub compare_floats : Float → Float → Ordering

abbrev pub is_lt : Ordering → Bool
is_lt Ordering.lt = true
is_lt Ordering.eq = false
is_lt Ordering.gt = false

abbrev pub is_eq : Ordering → Bool
is_eq Ordering.lt = false
is_eq Ordering.eq = true
is_eq Ordering.gt = false

abbrev pub is_gt : Ordering → Bool
is_gt Ordering.lt = false
is_gt Ordering.eq = false
is_gt Ordering.gt = true

-- A `*bool` that is set and true.
abbrev pub is_set : Option Bool → Bool
is_set none = false
is_set (some b) = b

-- strings.Contains, strings.HasSuffix
unfoldable pub includes : String → String → Bool
includes String.[] t = t == ""
includes (String.◌∷◌ c s) t = has_prefix (String.◌∷◌ c s) t || includes s t

unfoldable pub has_suffix : String → String → Bool
has_suffix String.[] t = t == ""
has_suffix (String.◌∷◌ c s) t = String.◌∷◌ c s == t || has_suffix s t

abbrev pub is_numeric : String → Bool
is_numeric w =
    w == "gt"
    || w == "gte"
    || w == "lt"
    || w == "lte"
    || w == "eq"
    || w == "ne"
    || w == "between"
    || w == "outside"

module _ (engine : Engine) where
  open engine use {to_lower, compile, Float, parse_float, compare_floats}

  abbrev pub least : Float → Float → Float
  least a b = if is_gt (compare_floats a b) then b else a

  abbrev pub greatest : Float → Float → Float
  greatest a b = if is_gt (compare_floats a b) then a else b

  abbrev pub within : Float → Float → Float → Bool
  within v lo hi = not (is_lt (compare_floats v lo)) && not (is_gt (compare_floats v hi))

  abbrev between_rule : String → Float → Float → Option Float → Bool
  between_rule w v bound none = false
  between_rule w v bound (some bound2) =
      let inside = within v (least bound bound2) (greatest bound bound2) in
      if w == "outside" then not inside else inside

  abbrev second_value : Option String → Option Float
  second_value none = none
  second_value (some s) = numeric_value parse_float s

  abbrev compare_rule : String → Float → Float → Option String → Bool
  compare_rule w v bound value2 =
      let o = compare_floats v bound in
      if w == "gt"
      then is_gt o
      else if w == "gte"
      then not (is_lt o)
      else if w == "lt"
      then is_lt o
      else if w == "lte"
      then not (is_gt o)
      else if w == "eq"
      then is_eq o
      else if w == "ne"
      then not (is_eq o)
      else between_rule w v bound (second_value value2)

  numeric_rule : String → Option Float → Option Float → Option String → Bool
  numeric_rule w none bound value2 = false
  numeric_rule w (some v) none value2 = false
  numeric_rule w (some v) (some bound) value2 = compare_rule w v bound value2

  unfoldable pub evaluate_numeric_rule : HighlightRuleSpec → String → Bool
  unfolding numeric_rule
  evaluate_numeric_rule r value =
      numeric_rule r.when (numeric_value parse_float value) (numeric_value parse_float r.value)
        r.value2

  -- The compiled patterns, by pattern; a failed compilation is kept too.
  abbrev pub RegexCache : Type 0
  RegexCache = Map (Option (String → Bool))

  cached :
      String → Option (Option (String → Bool)) → RegexCache → Option (String → Bool) × RegexCache
  cached pattern_text (some c) cache = (c, cache)
  cached pattern_text none cache =
      let re = compile pattern_text in (re, Map.set pattern_text re cache)

  unfoldable pub compile_regex_cached : String → RegexCache → Option (String → Bool) × RegexCache
  unfolding cached
  compile_regex_cached pattern_text cache =
      cached pattern_text (Map.lookup pattern_text cache) cache

  abbrev pub regex_pattern : HighlightRuleSpec → String
  regex_pattern r = if is_set r.case_sensitive then r.value else String.◌++◌ "(?i)" r.value

  abbrev pub match_string : Option (String → Bool) → String → Bool
  match_string none value = false
  match_string (some re) value = re value

  unfoldable pub evaluate_regex_rule : HighlightRuleSpec → String → RegexCache → Bool × RegexCache
  unfolding compile_regex_cached
  evaluate_regex_rule r value cache =
      let (re, cache') = compile_regex_cached (regex_pattern r) cache in
      (match_string re value, cache')

  abbrev pub text_rule : String → String → String → Bool
  text_rule w v target =
      if w == "equals"
      then v == target
      else if w == "includes"
      then includes v target
      else if w == "startsWith"
      then has_prefix v target
      else if w == "endsWith"
      then has_suffix v target
      else false

  abbrev pub folded : HighlightRuleSpec → String → String
  folded r s = if is_set r.case_sensitive then s else to_lower s

  unfoldable pub evaluate_string_rule : HighlightRuleSpec → String → RegexCache → Bool × RegexCache
  unfolding evaluate_regex_rule
  evaluate_string_rule r value cache =
      if r.when == "regex"
      then evaluate_regex_rule r value cache
      else (text_rule r.when (folded r value) (folded r r.value), cache)

  unfoldable pub evaluate_rule : HighlightRuleSpec → String → RegexCache → Bool × RegexCache
  unfolding evaluate_string_rule evaluate_numeric_rule
  evaluate_rule r value cache =
      if is_numeric r.when
      then (evaluate_numeric_rule r value, cache)
      else evaluate_string_rule r value cache

  unfoldable pub rule_matches : HighlightRuleSpec → String → RegexCache → Bool × RegexCache
  rule_matches r value cache =
      let (matched, cache') = evaluate_rule r value cache in
      (if is_set r.negate then not matched else matched, cache')

  unfoldable pub first_matching_level :
      List HighlightRuleSpec → String → RegexCache → String × RegexCache
  first_matching_level [] value cache = ("", cache)
  first_matching_level (r ∷ rules) value cache =
      let (matched, cache') = rule_matches r value cache in
      let later = first_matching_level rules value cache' in
      if matched then (r.level, cache') else later

  -- `byKey[key]`: of the rules in the order of the `range` loop, the last with the key.
  unfoldable pub find_rules : List ℕ → Map FieldHighlight → Option FieldHighlight
  find_rules key [] = none
  find_rules key ((label, fh) ∷ rest) = elim (find_rules key rest) [
    | some later ↦ some later
    | none ↦ if same_key (normalize_field_key label) key then some fh else none
  ]

  abbrev level_for : Option FieldHighlight → String → RegexCache → String × RegexCache
  level_for none value cache = ("", cache)
  level_for (some fh) value cache = first_matching_level fh.rules value cache

  -- One round of the loop over the fields.
  unfoldable pub highlight_field : Map FieldHighlight → Field → RegexCache → Field × RegexCache
  highlight_field rules f cache =
      if f.highlight == ""
      then (let (level, cache') =
            level_for (find_rules (normalize_field_key f.label) rules) f.value cache in
          (if level == "" then f else record f { highlight = level }, cache'))
      else (f, cache)

  unfoldable pub highlight_fields :
      Map FieldHighlight → List Field → RegexCache → List Field × RegexCache
  highlight_fields rules [] cache = ([], cache)
  highlight_fields rules (f ∷ fields) cache =
      let (f', cache') = highlight_field rules f cache in
      let (fields', cache'') = highlight_fields rules fields cache' in (f' ∷ fields', cache'')

  unfoldable pub apply_highlights :
      List Field → Map FieldHighlight → RegexCache → List Field × RegexCache
  apply_highlights fields [] cache = (fields, cache)
  apply_highlights fields (r ∷ rules) cache = highlight_fields (r ∷ rules) fields cache
