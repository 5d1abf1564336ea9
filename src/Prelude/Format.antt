-- ===== src/Prelude/Format.antt =====
-- Texts put together: concatenation, `strings.Join`, and what Go's `fmt` does with a value.
use Prim.Native.Nat.{ℕ}
use Prim.Native.String
use Prim.Native.String.{String}
use Prim.Native.Char.{Char, code}
use mathlib.Core.Bool.{Bool, true, false, ◌&&◌}
use mathlib.Core.Option.{Option, none, some}
use mathlib.Core.Option
use package.text.Mathlib.Text.{◌==◌}
use kubepage_operator.Prelude.Tests.{eqb, if◌then◌else◌}
use mathlib.Core.List.{List, [], ◌∷◌}

-- The verbs `%q` and `%d` of `fmt.Sprintf`. No property rests on how they print.
pub record Format : Type 0 where
  pub quote : String → String
  pub decimal : ℕ → String

abbrev pub text : List String → String
text [] = ""
text (s ∷ []) = s
text (s ∷ t) = String.◌++◌ s (text t)

-- strings.Join
unfoldable pub join : String → List String → String
join sep [] = ""
join sep (s ∷ []) = s
join sep (s ∷ t) = String.◌++◌ s (String.◌++◌ sep (join sep t))

abbrev pub same_char : Char → Char → Bool
same_char c d = eqb (code c) (code d)

-- strings.HasPrefix
abbrev pub has_prefix : String → String → Bool
has_prefix s String.[] = true
has_prefix String.[] (String.◌∷◌ d t) = false
has_prefix (String.◌∷◌ c s) (String.◌∷◌ d t) = same_char c d && has_prefix s t

-- strings.Cut at a character: what is before its first occurrence and after it, if it occurs.
unfoldable pub cut : Char → String → Option (String × String)
cut sep String.[] = none
cut sep (String.◌∷◌ c s) =
    let rest = cut sep s in
    if same_char c sep then some ("", s) else Option.map (λ (a, b). (String.◌∷◌ c a, b)) rest

-- strings.CutPrefix and strings.CutSuffix
unfoldable pub cut_prefix : String → String → Option String
cut_prefix String.[] s = some s
cut_prefix (String.◌∷◌ c p) String.[] = none
cut_prefix (String.◌∷◌ c p) (String.◌∷◌ d s) =
    let rest = cut_prefix p s in if same_char c d then rest else none

unfoldable pub cut_suffix : String → String → Option String
cut_suffix suffix String.[] = if suffix == "" then some "" else none
cut_suffix suffix (String.◌∷◌ c s) =
    let rest = cut_suffix suffix s in
    if String.◌∷◌ c s == suffix then some "" else Option.map (String.◌∷◌ c) rest

-- What is before and after the last place of a separator, by strings.LastIndex.
unfoldable pub cut_here : String → String → Option (String × String) → Option (String × String)
cut_here sep s (some (before, after)) = some (before, after)
cut_here sep s none = Option.map (λ after. ("", after)) (cut_prefix sep s)

unfoldable pub cut_last : String → String → Option (String × String)
unfolding cut_here
cut_last sep String.[] = cut_here sep "" none
cut_last sep (String.◌∷◌ c s) =
    cut_here sep (String.◌∷◌ c s)
      (Option.map (λ (before, after). (String.◌∷◌ c before, after)) (cut_last sep s))
