-- ===== src/Pod/Highlight/Ranges.antt =====
-- The rules `between` and `outside`.
use kubepage_operator.Prelude.{
  String, Bool, not, some, ◌==◌, ◌≡◌, ◌⊎◌, inl, inr, ap, ◌||◌, if◌then◌else◌, arith,
}
use kubepage_operator.Prelude.Order.{IsOrder}
use kubepage_operator.Api.{HighlightRuleSpec}
use kubepage_operator.Pod.Highlight.{
  Engine, within, least, greatest, numeric_rule, evaluate_numeric_rule,
}
use kubepage_operator.Pod.Number.{numeric_value}

module _ (engine : Engine) where
  open engine use {Float, parse_float, compare_floats}

  within-swap :
      IsOrder compare_floats
      → (v a b : Float)
      → within engine v (least engine a b) (greatest engine a b)
        ≡ (within engine v a b || within engine v b a)
  within-swap order v a b = ground (
    arith,
    order.flips a b,
    order.flips v a,
    order.flips v b,
    order.chains a v b,
    order.chains b v a,
    order.chains a b v,
    order.chains b a v,
    order.chains v a b,
    order.chains v b a,
  )

  -- A value that is not outside of two bounds, in whichever order they are written.
  abbrev pub in_range : Float → Float → Float → Bool
  in_range v a b = within engine v a b || within engine v b a

  -- Where the engine's numbers are ordered and the field's value and both bounds have a number, a
  -- rule `between` holds exactly when the value's number lies between those of the bounds, both
  -- included, in whichever order the bounds are written; and a rule `outside` exactly when it does
  -- not.
  pub evaluate_numeric_rule-ranges :
      IsOrder compare_floats
      → (r : HighlightRuleSpec) (value second : String) (v a b : Float) → r.value2 ≡ some second
      → numeric_value parse_float value ≡ some v
      → numeric_value parse_float r.value ≡ some a
      → numeric_value parse_float second ≡ some b
      → (r.when ≡ "between") ⊎ (r.when ≡ "outside")
      → evaluate_numeric_rule engine r value
        ≡ (if r.when == "outside" then not (in_range v a b) else in_range v a b)
  unfolding evaluate_numeric_rule numeric_rule
  evaluate_numeric_rule-ranges order r value second v a b two parsed low high (inl between) =
      rw (between, two, parsed, low, high) (within-swap order v a b)
  evaluate_numeric_rule-ranges order r value second v a b two parsed low high (inr outside) =
      rw (outside, two, parsed, low, high) (ap not (within-swap order v a b))
