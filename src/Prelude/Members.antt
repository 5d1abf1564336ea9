-- ===== src/Prelude/Members.antt =====
-- The members of a list that is put together or sorted.
use Prim.Native.Nat.{Ordering}
use mathlib.Core.Logic.{◌↔◌, ◌⊎◌, inl, inr}
use mathlib.Core.List.{List, [], ◌∷◌, ◌++◌}
use native.Mathlib.Omega.{arith}
use kubepage_operator.Prelude.Lists.{In, All}
use kubepage_operator.Prelude.Sort.{Ordering-cases, insert_func, insert_func_le, sort_func}

module _ {A : Type 0} where
  pub In-append : (a : A) (xs ys : List A) → In a (xs ++ ys) ↔ (In a xs ⊎ In a ys)
  In-append a [] ys = ground arith
  In-append a (x ∷ xs) ys = ground (arith, In-append a xs ys)

  In-insert_func :
      (cmp : A → A → Ordering) (a x : A) (ys : List A) → In a (insert_func cmp x ys) ↔ In a (x ∷ ys)
  unfolding insert_func
  In-insert_func cmp a x [] = ground arith
  In-insert_func cmp a x (y ∷ ys) = elim (Ordering-cases (cmp x y)) [
    | inl e ↦ rw (e, insert_func) (ground (arith, In-insert_func cmp a x ys))
    | inr n ↦ rw (insert_func_le cmp x y ys n) (ground arith)
  ]

  pub In-sort_func :
      (cmp : A → A → Ordering) (a : A) (xs : List A) → In a (sort_func cmp xs) ↔ In a xs
  unfolding sort_func
  In-sort_func cmp a [] = ground arith
  In-sort_func cmp a (x ∷ xs) =
      ground (arith, In-insert_func cmp a x (sort_func cmp xs), In-sort_func cmp a xs)

  pub All-In : (P : A → Type 0) (a : A) (xs : List A) → All P xs → In a xs → P a
  All-In P a [] h i = absurd i
  All-In P a (x ∷ xs) (h, hs) (inl e) = rw (e) h
  All-In P a (x ∷ xs) (h, hs) (inr i) = All-In P a xs hs i
