-- ===== src/Prelude/Sort.antt =====
-- Go's `slices.SortFunc` and `slices.Sort`, as insertion sort.
use Prim.Native.Nat.{Ordering}
use Prim.Native.String.{String}
use mathlib.Core.Path.{◌≡◌, refl, ap, ◌∙◌}
use mathlib.Core.Logic.{◌≢◌, ◌⊎◌, inl, inr}
use mathlib.Core.Bool.{Bool, true, false, ◌||◌}
use mathlib.Core.List.{List, [], ◌∷◌, Permᴰ}
use mathlib.Core.List.Permᴰ
use native.Mathlib.Omega.{arith}
use text.Mathlib.Text.{◌==◌}
use kubepage_operator.Prelude.Lists.{All, contains}
use kubepage_operator.Prelude.Order.{IsOrder, compare_text, compare_text-IsOrder}

pub Ordering-cases : (o : Ordering) → (o ≡ Ordering.gt) ⊎ (o ≢ Ordering.gt)
Ordering-cases Ordering.lt = inr (λ e. cc e)
Ordering-cases Ordering.eq = inr (λ e. cc e)
Ordering-cases Ordering.gt = inl refl

pub Ordering-split : (o : Ordering) → (o ≡ Ordering.lt) ⊎ ((o ≡ Ordering.eq) ⊎ (o ≡ Ordering.gt))
Ordering-split Ordering.lt = inl refl
Ordering-split Ordering.eq = inr (inl refl)
Ordering-split Ordering.gt = inr (inr refl)

module _ {ℓ} {A : Type ℓ} (cmp : A → A → Ordering) where
  unfoldable pub insert_func : A → List A → List A
  insert_func x [] = x ∷ []
  insert_func x (y ∷ ys) =
      let later = y ∷ insert_func x ys in elim (cmp x y) [ Ordering.gt ↦ later | _ ↦ x ∷ y ∷ ys ]

  pub insert_func_le :
      (x y : A) (ys : List A) → cmp x y ≢ Ordering.gt → insert_func x (y ∷ ys) ≡ x ∷ y ∷ ys
  unfolding insert_func
  insert_func_le x y ys n = ground arith

  unfoldable pub sort_func : List A → List A
  unfolding insert_func
  sort_func [] = []
  sort_func (x ∷ xs) = insert_func x (sort_func xs)

  abbrev pub IsSorted : List A → Type ℓ
  IsSorted [] = Unit
  IsSorted (x ∷ xs) = All (λ y. cmp x y ≢ Ordering.gt) xs × IsSorted xs

unfoldable pub sort : List String → List String
unfolding sort_func
sort xs = sort_func compare_text xs

module _ {ℓ} {A : Type ℓ} (cmp : A → A → Ordering) where
  All-insert_func :
      (P : A → Type 0) (x : A) (ys : List A) → P x → All P ys → All P (insert_func cmp x ys)
  unfolding insert_func
  All-insert_func P x [] h hs = (h, tt)
  All-insert_func P x (y ∷ ys) h (hy, hs) = ground (arith, All-insert_func P x ys h hs)

  pub All-sort_func : (P : A → Type 0) (xs : List A) → All P xs → All P (sort_func cmp xs)
  unfolding sort_func
  All-sort_func P [] h = tt
  All-sort_func P (x ∷ xs) (h, hs) =
      All-insert_func P x (sort_func cmp xs) h (All-sort_func P xs hs)

module _ {ℓ} {A : Type ℓ} (cmp : A → A → Ordering) (order : IsOrder cmp) where
  All-chains :
      (x y : A) (ys : List A)
      → cmp x y ≢ Ordering.gt
      → All (λ z. cmp y z ≢ Ordering.gt) ys
      → All (λ z. cmp x z ≢ Ordering.gt) ys
  All-chains x y [] h hs = tt
  All-chains x y (z ∷ zs) h (hz, hs) = (order.chains x y z h hz, All-chains x y zs h hs)

  insert_func-IsSorted :
      (x : A) (ys : List A) → IsSorted cmp ys → IsSorted cmp (insert_func cmp x ys)
  unfolding insert_func
  insert_func-IsSorted x [] h = (tt, tt)
  insert_func-IsSorted x (y ∷ ys) (h, hs) = elim (Ordering-cases (cmp x y)) [
    | inl e ↦
        let below : cmp y x ≢ Ordering.gt = ground (arith, order.flips x y) in
        rw (e, insert_func)
          (
            All-insert_func cmp (λ z. cmp y z ≢ Ordering.gt) x ys below h,
            insert_func-IsSorted x ys hs,
          )
    | inr n ↦ rw (insert_func_le cmp x y ys n) ((n, All-chains x y ys n h), (h, hs))
  ]

  pub sort_func-IsSorted : (xs : List A) → IsSorted cmp (sort_func cmp xs)
  unfolding sort_func
  sort_func-IsSorted [] = tt
  sort_func-IsSorted (x ∷ xs) = insert_func-IsSorted x (sort_func cmp xs) (sort_func-IsSorted xs)

module _ {ℓ} {A : Type ℓ} (cmp : A → A → Ordering) where
  insert_func-Perm : (x : A) (ys : List A) → Permᴰ (insert_func cmp x ys) (x ∷ ys)
  unfolding insert_func
  insert_func-Perm x [] = Permᴰ.cons refl Permᴰ.nil
  insert_func-Perm x (y ∷ ys) = elim (Ordering-cases (cmp x y)) [
    | inl e ↦
        rw (e, insert_func)
          (Permᴰ.trans (Permᴰ.cons refl (insert_func-Perm x ys)) (Permᴰ.swap refl refl))
    | inr n ↦ rw (insert_func_le cmp x y ys n) (Permᴰ.refl (x ∷ y ∷ ys))
  ]

  pub sort_func-Perm : (xs : List A) → Permᴰ (sort_func cmp xs) xs
  unfolding sort_func
  sort_func-Perm [] = Permᴰ.nil
  sort_func-Perm (x ∷ xs) =
      Permᴰ.trans (insert_func-Perm x (sort_func cmp xs)) (Permᴰ.cons refl (sort_func-Perm xs))

contains-insert :
    (x : String) (ys : List String) (s : String)
    → contains (insert_func compare_text x ys) s ≡ (x == s || contains ys s)
unfolding insert_func
contains-insert x [] s = refl
contains-insert x (y ∷ ys) s = ground (arith, contains-insert x ys s)

-- Sorting changes no set of names.
pub contains-sort : (xs : List String) (s : String) → contains (sort xs) s ≡ contains xs s
unfolding sort
contains-sort [] s = refl
contains-sort (x ∷ xs) s =
    contains-insert x (sort_func compare_text xs) s ∙ ap (λ b. x == s || b) (contains-sort xs s)

pub sort-IsSorted : (xs : List String) → IsSorted compare_text (sort xs)
unfolding sort
sort-IsSorted xs = sort_func-IsSorted compare_text compare_text-IsOrder xs

abbrev pub is_empty : List String → Bool
is_empty [] = true
is_empty (x ∷ xs) = false

is_empty-insert : (x : String) (ys : List String) → is_empty (insert_func compare_text x ys) ≡ false
unfolding insert_func
is_empty-insert x [] = refl
is_empty-insert x (y ∷ ys) = ground arith

pub is_empty-sort : (xs : List String) → is_empty (sort xs) ≡ is_empty xs
unfolding sort
is_empty-sort [] = refl
is_empty-sort (x ∷ xs) = is_empty-insert x (sort_func compare_text xs)
