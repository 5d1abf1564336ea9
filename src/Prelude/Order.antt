-- ===== src/Prelude/Order.antt =====
-- The comparisons that the sorts use: Go's `strings.Compare`, over code points, which orders UTF-8
-- texts as their bytes do, and `int32` values as integers.
use Prim.Native.Nat.{ℕ, compare, Ordering}
use Prim.Native.Char.{code}
use Prim.Native.String.{String}
use mathlib.Core.Path.{◌≡◌, refl, ap₂}
use mathlib.Core.Logic.{◌≢◌}
use native.Mathlib.Omega.{arith}
use text.Mathlib.TextEquality.{Char-path}

abbrev pub flip : Ordering → Ordering
flip Ordering.lt = Ordering.gt
flip Ordering.eq = Ordering.eq
flip Ordering.gt = Ordering.lt

-- The next comparison where the first one ties.
abbrev pub then_compare : Ordering → Ordering → Ordering
then_compare Ordering.lt o = Ordering.lt
then_compare Ordering.eq o = o
then_compare Ordering.gt o = Ordering.gt

unfoldable pub compare_text : String → String → Ordering
compare_text String.[] String.[] = Ordering.eq
compare_text String.[] (String.◌∷◌ d t) = Ordering.lt
compare_text (String.◌∷◌ c s) String.[] = Ordering.gt
compare_text (String.◌∷◌ c s) (String.◌∷◌ d t) =
    then_compare (compare (code c) (code d)) (compare_text s t)

-- What `slices.SortFunc` asks of a comparison.
pub record IsOrder {ℓ} {A : Type ℓ} (cmp : A → A → Ordering) : Type ℓ where
  pub flips : (a b : A) → cmp b a ≡ flip (cmp a b)
  pub chains : (a b c : A) → cmp a b ≢ Ordering.gt → cmp b c ≢ Ordering.gt → cmp a c ≢ Ordering.gt

pub compare_flips : (a b : ℕ) → compare b a ≡ flip (compare a b)
compare_flips a b = ground arith

pub compare_text-flips : (s t : String) → compare_text t s ≡ flip (compare_text s t)
unfolding compare_text
compare_text-flips String.[] String.[] = refl
compare_text-flips String.[] (String.◌∷◌ d t) = refl
compare_text-flips (String.◌∷◌ c s) String.[] = refl
compare_text-flips (String.◌∷◌ c s) (String.◌∷◌ d t) =
    ground (arith, compare_text-flips s t, compare_flips (code c) (code d))

pub eq_of_compare_text : (s t : String) → compare_text s t ≡ Ordering.eq → s ≡ t
unfolding compare_text
eq_of_compare_text String.[] String.[] h = refl
eq_of_compare_text String.[] (String.◌∷◌ d t) h = cc
eq_of_compare_text (String.◌∷◌ c s) String.[] h = cc
eq_of_compare_text (String.◌∷◌ c s) (String.◌∷◌ d t) h =
    ap₂ String.◌∷◌ (Char-path c d (ground arith)) (eq_of_compare_text s t (ground arith))

compare_text-chains :
    (s t u : String)
    → compare_text s t ≢ Ordering.gt
    → compare_text t u ≢ Ordering.gt
    → compare_text s u ≢ Ordering.gt
unfolding compare_text
compare_text-chains String.[] t String.[] h k = ground arith
compare_text-chains String.[] t (String.◌∷◌ e u) h k = ground arith
compare_text-chains (String.◌∷◌ c s) String.[] u h k = absurd (h refl)
compare_text-chains (String.◌∷◌ c s) (String.◌∷◌ d t) String.[] h k = absurd (k refl)
compare_text-chains (String.◌∷◌ c s) (String.◌∷◌ d t) (String.◌∷◌ e u) h k =
    ground (arith, compare_text-chains s t u)

pub compare_text-IsOrder : IsOrder compare_text
compare_text-IsOrder = record { flips = compare_text-flips; chains = compare_text-chains }

-- One comparison, and another where the first one ties.
abbrev pub lex {ℓ} : {A : Type ℓ} → (A → A → Ordering) → (A → A → Ordering) → A → A → Ordering
lex f g a b = then_compare (f a b) (g a b)

-- A comparison of a part.
abbrev pub by_key {ℓ κ} :
    {A : Type ℓ} {B : Type κ} → (B → B → Ordering) → (A → B) → A → A → Ordering
by_key f key a b = f (key a) (key b)

lex-chains {ℓ} :
    {A : Type ℓ} (f g : A → A → Ordering)
    → IsOrder f
    → IsOrder g
    → (a b c : A) → lex f g a b ≢ Ordering.gt
    → lex f g b c ≢ Ordering.gt
    → lex f g a c ≢ Ordering.gt
lex-chains f g p q a b c h k = ground (
  arith,
  p.flips a b,
  p.flips b c,
  p.flips a c,
  p.chains a b c,
  p.chains b c a,
  p.chains c a b,
  q.chains a b c,
)

pub lex-IsOrder {ℓ} :
    {A : Type ℓ} (f g : A → A → Ordering) → IsOrder f → IsOrder g → IsOrder (lex f g)
lex-IsOrder f g p q = record {
  flips = λ a b. ground (arith, p.flips a b, q.flips a b);
  chains = λ a b c. lex-chains f g p q a b c;
}

pub by_key-IsOrder {ℓ κ} :
    {A : Type ℓ} {B : Type κ} (f : B → B → Ordering) (key : A → B)
    → IsOrder f
    → IsOrder (by_key f key)
by_key-IsOrder f key p = record {
  flips = λ a b. p.flips (key a) (key b);
  chains = λ a b c. p.chains (key a) (key b) (key c);
}
