-- ===== src/Pod/Store/Laws.antt =====
-- The order of a snapshot.
use Prim.Native.Nat.{Ordering}
use mathlib.Core.List.{Permᴰ}
use kubepage_operator.Prelude.{
  ℤ, Option, none, some, List, [], ◌∷◌, ◌≡◌, ◌≢◌, refl, ap, arith, ◌⊎◌, inl, inr, All, compare_int,
}
use kubepage_operator.Prelude.Int.{compare_int-IsOrder, eq_of_compare_int}
use kubepage_operator.Prelude.Map
use kubepage_operator.Prelude.Order.{
  flip, IsOrder, lex-IsOrder, by_key-IsOrder, compare_text, compare_text-IsOrder,
  eq_of_compare_text,
}
use kubepage_operator.Prelude.Sort.{IsSorted, Ordering-split, sort_func-IsSorted, sort_func-Perm}
use kubepage_operator.Pod.Store.{Card, Store, compare_order, compare_cards, snapshot}

compare_order-flips : (a b : Option ℤ) → compare_order b a ≡ flip (compare_order a b)
unfolding compare_order
compare_order-flips none none = refl
compare_order-flips none (some b) = refl
compare_order-flips (some a) none = refl
compare_order-flips (some a) (some b) = compare_int-IsOrder.flips a b

compare_order-chains :
    (a b c : Option ℤ)
    → compare_order a b ≢ Ordering.gt
    → compare_order b c ≢ Ordering.gt
    → compare_order a c ≢ Ordering.gt
unfolding compare_order
compare_order-chains (some a) (some b) (some c) h k = compare_int-IsOrder.chains a b c h k
compare_order-chains a b c h k = ground arith

compare_order-IsOrder : IsOrder compare_order
compare_order-IsOrder = record { flips = compare_order-flips; chains = compare_order-chains }

-- `Snapshot`'s comparison is a total order, as `slices.SortFunc` asks.
compare_cards-IsOrder : IsOrder compare_cards
unfolding compare_cards
compare_cards-IsOrder =
    lex-IsOrder _ _ (by_key-IsOrder compare_text (λ c. c.group) compare_text-IsOrder) (
      lex-IsOrder _ _ (by_key-IsOrder compare_order (λ c. c.order) compare_order-IsOrder) (
        lex-IsOrder _ _ (by_key-IsOrder compare_text (λ c. c.service_name) compare_text-IsOrder)
          (by_key-IsOrder compare_text (λ c. c.key) compare_text-IsOrder)))

-- A place in the order: numbers as integers, and a card without one after those with one.
pub data OrderBefore : Option ℤ → Option ℤ → Type 0 where
  numbered : (a b : ℤ) → compare_int a b ≡ Ordering.lt → OrderBefore (some a) (some b)
  unset_last : (a : ℤ) → OrderBefore (some a) none

-- Where the page shows a card before another: by group, in a group by order, at the same order by the
-- service's name, and by the key where all these are the same.
pub data IsBefore (a b : Card) : Type 0 where
  by_group : compare_text a.group b.group ≡ Ordering.lt → IsBefore a b
  by_order : a.group ≡ b.group → OrderBefore a.order b.order → IsBefore a b
  by_name :
      a.group ≡ b.group
      → a.order ≡ b.order
      → compare_text a.service_name b.service_name ≡ Ordering.lt
      → IsBefore a b
  by_key :
      a.group ≡ b.group
      → a.order ≡ b.order
      → a.service_name ≡ b.service_name
      → compare_text a.key b.key ≢ Ordering.gt
      → IsBefore a b

abbrev pub AreInOrder : List Card → Type 0
AreInOrder [] = Unit
AreInOrder (c ∷ cards) = All (IsBefore c) cards × AreInOrder cards

compare_order-cases :
    (a b : Option ℤ)
    → compare_order a b ≢ Ordering.gt
    → OrderBefore a b ⊎ ((a ≡ b) × (compare_order a b ≡ Ordering.eq))
unfolding compare_order
compare_order-cases none none h = inr (refl, refl)
compare_order-cases none (some b) h = absurd (h refl)
compare_order-cases (some a) none h = inl (unset_last a)
compare_order-cases (some a) (some b) h = elim (Ordering-split (compare_int a b)) [
  | inl less ↦ inl (numbered a b less)
  | inr (inl same) ↦ inr (ap (λ n. some n) (eq_of_compare_int a b same), same)
  | inr (inr greater) ↦ absurd (h greater)
]

compare_cards-IsBefore : (a b : Card) → compare_cards a b ≢ Ordering.gt → IsBefore a b
unfolding compare_cards
compare_cards-IsBefore a b h = elim (Ordering-split (compare_text a.group b.group)) [
  | inl less ↦ by_group less
  | inr (inr greater) ↦ absurd (h (rw greater refl))
  | inr (inl group) ↦
      let same_group = eq_of_compare_text a.group b.group group in
      let rest = rw group at h in
      elim (compare_order-cases a.order b.order (λ e. rest (rw e refl))) [
        | inl before ↦ by_order same_group before
        | inr (same_order, tie) ↦
            let names = rw tie at rest in
            elim (Ordering-split (compare_text a.service_name b.service_name)) [
              | inl less ↦ by_name same_group same_order less
              | inr (inr greater) ↦ absurd (names (rw greater refl))
              | inr (inl name) ↦
                  by_key same_group same_order
                    (eq_of_compare_text a.service_name b.service_name name) (rw name at names)
            ]
      ]
]

All-IsBefore :
    (c : Card) (cards : List Card)
    → All (λ d. compare_cards c d ≢ Ordering.gt) cards
    → All (IsBefore c) cards
All-IsBefore c [] h = tt
All-IsBefore c (d ∷ cards) (h, hs) = (compare_cards-IsBefore c d h, All-IsBefore c cards hs)

IsSorted-AreInOrder : (cards : List Card) → IsSorted compare_cards cards → AreInOrder cards
IsSorted-AreInOrder [] h = tt
IsSorted-AreInOrder (c ∷ cards) (h, hs) = (All-IsBefore c cards h, IsSorted-AreInOrder cards hs)

-- A snapshot holds the stored cards, each once, and shows them by group, in a group by order with the
-- cards without one last, then by service name and by key.
pub snapshot_lem : (s : Store) → AreInOrder (snapshot s) × Permᴰ (snapshot s) (Map.values s)
unfolding snapshot
snapshot_lem s = (
  IsSorted-AreInOrder (snapshot s)
      (sort_func-IsSorted compare_cards compare_cards-IsOrder (Map.values s)),
  sort_func-Perm compare_cards (Map.values s),
)
