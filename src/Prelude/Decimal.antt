-- ===== src/Prelude/Decimal.antt =====
-- Decimal numbers: what `%d` prints, and digits read back.
use Prim.Native.Nat.{ℕ, zero, suc, ◌+◌, ◌*◌, ◌-◌, ◌/◌, ◌%◌, ◌<◌}
use Prim.Native.Char.{Char, code}
use Prim.Native.String.{String}
use mathlib.Core.Path.{◌≡◌, refl, ap, ◌∙◌}
use mathlib.Core.Logic.{inl, inr}
use mathlib.Core.Bool.{Bool, true, false, ◌&&◌}
use mathlib.Core.Option.{Option, none, some}
use native.Mathlib.Omega.{arith}
use text.Mathlib.Text.{◌==◌}
use text.Mathlib.TextEquality.{eq_iff}
use kubepage_operator.Prelude.Tests.{ltb, leb, if◌then◌else◌, Bool-cases}

abbrev pub is_digit : ℕ → Bool
is_digit c = leb 48 c && leb c 57

unfoldable pub all_digits : String → Bool
all_digits String.[] = true
all_digits (String.◌∷◌ c s) = is_digit (code c) && all_digits s

-- The number that digits stand for after those read so far.
unfoldable pub parse_digits : ℕ → String → Option ℕ
parse_digits n String.[] = some n
parse_digits n (String.◌∷◌ c s) =
    let rest = parse_digits (n * 10 + (code c - 48)) s in if is_digit (code c) then rest else none

digit : ℕ → Char
digit zero = "0"
digit (suc zero) = "1"
digit (suc (suc zero)) = "2"
digit (suc (suc (suc zero))) = "3"
digit (suc (suc (suc (suc zero)))) = "4"
digit (suc (suc (suc (suc (suc zero))))) = "5"
digit (suc (suc (suc (suc (suc (suc zero)))))) = "6"
digit (suc (suc (suc (suc (suc (suc (suc zero))))))) = "7"
digit (suc (suc (suc (suc (suc (suc (suc (suc zero)))))))) = "8"
digit _ = "9"

-- The digits of a number before a text, on fuel.
print_into : ℕ → ℕ → String → String
unfolding digit
print_into zero n s = s
print_into (suc fuel) n s =
    let more = print_into fuel (n / 10) (String.◌∷◌ (digit (n % 10)) s) in
    if ltb n 10 then String.◌∷◌ (digit n) s else more

unfoldable pub decimal : ℕ → String
unfolding print_into
decimal n = print_into (suc n) n ""

code-digit : (d : ℕ) → d < 10 → code (digit d) ≡ 48 + d
unfolding digit
code-digit zero h = refl
code-digit (suc zero) h = refl
code-digit (suc (suc zero)) h = refl
code-digit (suc (suc (suc zero))) h = refl
code-digit (suc (suc (suc (suc zero)))) h = refl
code-digit (suc (suc (suc (suc (suc zero))))) h = refl
code-digit (suc (suc (suc (suc (suc (suc zero)))))) h = refl
code-digit (suc (suc (suc (suc (suc (suc (suc zero))))))) h = refl
code-digit (suc (suc (suc (suc (suc (suc (suc (suc zero)))))))) h = refl
code-digit (suc (suc (suc (suc (suc (suc (suc (suc (suc zero))))))))) h = refl
code-digit (suc (suc (suc (suc (suc (suc (suc (suc (suc (suc d)))))))))) h = absurd (omega arith)

parse_digits-digit :
    (d m : ℕ) (s : String)
    → d < 10
    → parse_digits m (String.◌∷◌ (digit d) s) ≡ parse_digits (m * 10 + d) s
unfolding parse_digits
parse_digits-digit d m s h =
    let here : is_digit (code (digit d)) ≡ true = rw (code-digit d h) (ground arith) in
    let value : m * 10 + (code (digit d) - 48) ≡ m * 10 + d = rw (code-digit d h) (omega arith) in
    rw (here, value, parse_digits) refl

parse_digits-print_into :
    (fuel n : ℕ) (s : String) → n < fuel → parse_digits 0 (print_into fuel n s) ≡ parse_digits n s
unfolding print_into
parse_digits-print_into zero n s h = absurd (omega arith)
parse_digits-print_into (suc fuel) n s h = elim (Bool-cases (ltb n 10)) [
  | inl small ↦
      rw (small, print_into)
        (parse_digits-digit n 0 s (ground arith) ∙ ap (λ k. parse_digits k s) (omega arith))
  | inr large ↦
      let ih =
        parse_digits-print_into fuel (n / 10) (String.◌∷◌ (digit (n % 10)) s) (ground arith) in
      rw (large, print_into)
        (ih
          ∙ parse_digits-digit (n % 10) (n / 10) s (omega arith)
          ∙ ap (λ k. parse_digits k s) (omega arith))
]

-- What is printed reads back.
pub parse_digits-decimal : (n : ℕ) → parse_digits 0 (decimal n) ≡ some n
unfolding decimal parse_digits
parse_digits-decimal n = parse_digits-print_into (suc n) n "" (omega arith)

all_digits-parse_digits :
    (m : ℕ) (s : String) (n : ℕ) → parse_digits m s ≡ some n → all_digits s ≡ true
unfolding all_digits parse_digits
all_digits-parse_digits m String.[] n h = refl
all_digits-parse_digits m (String.◌∷◌ c s) n h = elim (Bool-cases (is_digit (code c))) [
  | inl here ↦ rw (here) (all_digits-parse_digits (m * 10 + (code c - 48)) s n (ground arith))
  | inr other ↦ ground arith
]

pub all_digits-decimal : (n : ℕ) → all_digits (decimal n) ≡ true
all_digits-decimal n = all_digits-parse_digits 0 (decimal n) n (parse_digits-decimal n)

pub decimal_not_empty : (n : ℕ) → (decimal n == "") ≡ false
unfolding decimal print_into digit parse_digits
decimal_not_empty zero = refl
decimal_not_empty (suc n) = elim (Bool-cases (decimal (suc n) == "")) [
  | inr other ↦ other
  | inl empty ↦
      let e = (eq_iff (decimal (suc n)) "").0 empty in
      let reads = rw e at (parse_digits-decimal (suc n)) in absurd (ground arith)
]
