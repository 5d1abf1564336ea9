-- ===== src/Prelude/Affix.antt =====
-- What `strings.CutPrefix` gives, by concatenation.
use Prim.Native.Char.{Char}
use Prim.Native.String
use Prim.Native.String.{String}
use mathlib.Core.Path.{◌≡◌, refl, sym, ap, ap₂}
use mathlib.Core.Logic.{◌⊎◌, inl, inr}
use mathlib.Core.Bool.{true}
use mathlib.Core.Option
use mathlib.Core.Option.{Option, none, some}
use native.Mathlib.Omega.{arith}
use text.Mathlib.TextEquality.{Char-path}
use text.Mathlib.TextLemmas.{nil-append, cons-append}
use kubepage_operator.Prelude.Tests.{Bool-cases, Option-cases}
use kubepage_operator.Prelude.Format.{cut_prefix, same_char, has_prefix, cut_here, cut_last}

pub same_char_refl : (c : Char) → same_char c c ≡ true
same_char_refl c = ground arith

pub eq_of_same_char : (c d : Char) → same_char c d ≡ true → c ≡ d
eq_of_same_char c d h = Char-path c d (ground arith)

pub cut_prefix-append : (p s : String) → cut_prefix p (String.◌++◌ p s) ≡ some s
unfolding cut_prefix
cut_prefix-append String.[] s = rw (nil-append s) refl
cut_prefix-append (String.◌∷◌ c p) s =
    rw (cons-append c p s, cut_prefix, same_char_refl c) (cut_prefix-append p s)

pub eq_of_cut_prefix : (p k s : String) → cut_prefix p k ≡ some s → k ≡ String.◌++◌ p s
unfolding cut_prefix
eq_of_cut_prefix String.[] k s h = ground (arith, nil-append s)
eq_of_cut_prefix (String.◌∷◌ c p) String.[] s h = cc
eq_of_cut_prefix (String.◌∷◌ c p) (String.◌∷◌ d k) s h = elim (Bool-cases (same_char c d)) [
  | inl same ↦
      let ih = eq_of_cut_prefix p k s (ground arith) in
      rw (cons-append c p s) (ap₂ String.◌∷◌ (sym (eq_of_same_char c d same)) ih)
  | inr other ↦ ground arith
]

cut_here-eq :
    (sep s b a : String) (o : Option (String × String))
    → cut_here sep s o ≡ some (b, a)
    → (o ≡ some (b, a)) ⊎ ((o ≡ none) × (b ≡ "") × (cut_prefix sep s ≡ some a))
unfolding cut_here
cut_here-eq sep s b a (some (x, y)) h = inl h
cut_here-eq sep s b a none h = ground arith

pub eq_of_cut_last :
    (sep s b a : String) → cut_last sep s ≡ some (b, a) → s ≡ String.◌++◌ b (String.◌++◌ sep a)
unfolding cut_last
eq_of_cut_last sep String.[] b a h = elim (cut_here-eq sep "" b a none h) [
  | inl found ↦ absurd (cc found)
  | inr (none_found, e, cut) ↦
      rw (e, nil-append (String.◌++◌ sep a)) (eq_of_cut_prefix sep "" a cut)
]
eq_of_cut_last sep (String.◌∷◌ c s) b a h =
    let earlier : Option (String × String) → Option (String × String) =
      λ o. Option.map (λ (before, after). (String.◌∷◌ c before, after)) o in
    elim (cut_here-eq sep (String.◌∷◌ c s) b a (earlier (cut_last sep s)) h) [
      | inl found ↦ elim (Option-cases (cut_last sep s)) [
        | inl e ↦ absurd (cc (rw e at found))
        | inr ((b', a'), e) ↦
            let ih = eq_of_cut_last sep s b' a' e in
            let pair = Option.some-injective (String.◌∷◌ c b', a') (b, a) (rw e at found) in
            let here : String.◌∷◌ c b' ≡ b = ap (λ p. p.0) pair in
            let after : a' ≡ a = ap (λ p. p.1) pair in
            rw (← here, ← after, ih, cons-append c b' (String.◌++◌ sep a')) refl
      ]
      | inr (none_found, e, cut) ↦
          rw (e, nil-append (String.◌++◌ sep a)) (eq_of_cut_prefix sep (String.◌∷◌ c s) a cut)
    ]

pub has_prefix-append :
    (b x p : String) → has_prefix b p ≡ true → has_prefix (String.◌++◌ b x) p ≡ true
has_prefix-append b x String.[] h = refl
has_prefix-append String.[] x (String.◌∷◌ d p) h = absurd (cc h)
has_prefix-append (String.◌∷◌ c b) x (String.◌∷◌ d p) h =
    rw (cons-append c b x) (ground (arith, has_prefix-append b x p))
