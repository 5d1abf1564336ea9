-- ===== src/Prelude/Int.antt =====
-- Go's signed integers, over the native numbers, and their comparisons.
use Prim.Native.Nat.{ℕ, compare, Ordering, ◌+◌}
use mathlib.Core.Path.{◌≡◌, ap}
use mathlib.Core.Logic.{◌≢◌}
use native.Mathlib.Omega.{arith}
use kubepage_operator.Prelude.Tests.{ltb, leb, if◌then◌else◌}
use kubepage_operator.Prelude.Order.{flip, IsOrder}

-- `negsuc n` is -(n + 1).
pub data ℤ : Type 0 where
  pos : ℕ → ℤ
  negsuc : ℕ → ℤ

abbrev pub compare_int : ℤ → ℤ → Ordering
compare_int (pos a) (pos b) = compare a b
compare_int (pos a) (negsuc b) = Ordering.gt
compare_int (negsuc a) (pos b) = Ordering.lt
compare_int (negsuc a) (negsuc b) = compare b a

compare_int-flips : (a b : ℤ) → compare_int b a ≡ flip (compare_int a b)
compare_int-flips a b = ground arith

compare_int-chains :
    (a b c : ℤ)
    → compare_int a b ≢ Ordering.gt
    → compare_int b c ≢ Ordering.gt
    → compare_int a c ≢ Ordering.gt
compare_int-chains a b c h k = ground arith

pub compare_int-IsOrder : IsOrder compare_int
compare_int-IsOrder = record { flips = compare_int-flips; chains = compare_int-chains }

pub eq_of_compare_int : (a b : ℤ) → compare_int a b ≡ Ordering.eq → a ≡ b
eq_of_compare_int (pos a) (pos b) h = let e : a ≡ b = ground arith in ap pos e
eq_of_compare_int (pos a) (negsuc b) h = absurd (cc h)
eq_of_compare_int (negsuc a) (pos b) h = absurd (cc h)
eq_of_compare_int (negsuc a) (negsuc b) h = let e : a ≡ b = ground arith in ap negsuc e

-- The sign of `a - b` for 64-bit integers, which wraps around.
unfoldable pub compare_difference : ℤ → ℤ → Ordering
compare_difference (pos a) (pos b) = compare a b
compare_difference (pos a) (negsuc b) =
    if ltb (a + b + 1) 9223372036854775808 then Ordering.gt else Ordering.lt
compare_difference (negsuc a) (pos b) =
    if leb (a + b + 1) 9223372036854775808 then Ordering.lt else Ordering.gt
compare_difference (negsuc a) (negsuc b) = compare b a
