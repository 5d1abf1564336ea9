-- ===== src/Prelude/Segments.antt =====
-- Texts put together with slashes, taken apart at the last one.
use Prim.Native.Char.{Char}
use Prim.Native.String
use Prim.Native.String.{String}
use mathlib.Core.Path.{◌≡◌, refl, ap₂}
use mathlib.Core.Bool.{Bool, true, false, not, ◌&&◌}
use mathlib.Core.Option.{none, some}
use native.Mathlib.Omega.{arith}
use package.text.Mathlib.TextLemmas.{nil-append, cons-append}
use kubepage_operator.Prelude.Affix.{eq_of_same_char}
use kubepage_operator.Prelude.Decimal.{all_digits}
use kubepage_operator.Prelude.Format.{text, cut_prefix, same_char, has_prefix, cut_here, cut_last}

abbrev pub slash : Char
slash = "/"

unfoldable pub lacks_slash : String → Bool
lacks_slash String.[] = true
lacks_slash (String.◌∷◌ c s) = not (same_char slash c) && lacks_slash s

pub cut_last-lacks_slash : (s : String) → lacks_slash s ≡ true → cut_last "/" s ≡ none
unfolding lacks_slash cut_last cut_here cut_prefix
cut_last-lacks_slash String.[] h = refl
cut_last-lacks_slash (String.◌∷◌ c s) h =
    let other : same_char slash c ≡ false = ground arith in
    rw (cut_last-lacks_slash s (ground arith), cut_here, cut_prefix, other) refl

cut_last_cons :
    (c : Char) (s b a : String)
    → cut_last "/" s ≡ some (b, a)
    → cut_last "/" (String.◌∷◌ c s) ≡ some (String.◌∷◌ c b, a)
unfolding cut_last cut_here
cut_last_cons c s b a h = rw (h, cut_here) refl

pub cut_last-append :
    (b d : String)
    → lacks_slash d ≡ true
    → cut_last "/" (String.◌++◌ b (String.◌∷◌ slash d)) ≡ some (b, d)
unfolding cut_last cut_here cut_prefix
cut_last-append String.[] d h =
    rw (nil-append (String.◌∷◌ slash d), cut_last, cut_last-lacks_slash d h) refl
cut_last-append (String.◌∷◌ c b) d h =
    rw (cons-append c b (String.◌∷◌ slash d))
      (cut_last_cons c (String.◌++◌ b (String.◌∷◌ slash d)) b d (cut_last-append b d h))

pub lacks_slash-digits : (s : String) → all_digits s ≡ true → lacks_slash s ≡ true
unfolding lacks_slash all_digits
lacks_slash-digits String.[] h = refl
lacks_slash-digits (String.◌∷◌ c s) h = ground (arith, lacks_slash-digits s)

-- A text without a slash is all that stands before the first one.
pub eq_of_has_prefix :
    (n p rest : String)
    → lacks_slash n ≡ true
    → lacks_slash p ≡ true
    → has_prefix (String.◌++◌ n (String.◌∷◌ slash rest)) (String.◌++◌ p "/") ≡ true
    → n ≡ p
unfolding lacks_slash
eq_of_has_prefix String.[] String.[] rest h k e = refl
eq_of_has_prefix String.[] (String.◌∷◌ d p) rest h k e =
    let e' = rw (nil-append (String.◌∷◌ slash rest), cons-append d p "/") at e in
    absurd (ground arith)
eq_of_has_prefix (String.◌∷◌ c n) String.[] rest h k e =
    let e' = rw (cons-append c n (String.◌∷◌ slash rest)) at e in absurd (ground arith)
eq_of_has_prefix (String.◌∷◌ c n) (String.◌∷◌ d p) rest h k e =
    let e' = rw (cons-append c n (String.◌∷◌ slash rest), cons-append d p "/") at e in
    ap₂ String.◌∷◌ (eq_of_same_char c d (ground arith))
      (eq_of_has_prefix n p rest (ground arith) (ground arith) (ground arith))
