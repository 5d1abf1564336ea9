-- ===== src/Pod/Merge/Entries.antt =====
-- The groups of cards by entry, and the keys of the merged cards.
use kubepage_operator.Prelude.{
  String, List, [], ◌∷◌, ◌++◌, map, ◌==◌, ◌≡◌, refl, sym, ap, ◌∙◌, inl, inr, arith, eq_iff,
  Bool-cases, contains, AreDistinct, All, ◌||◌,
}
use kubepage_operator.Prelude.Sort.{sort_func, All-sort_func}
use kubepage_operator.Pod.Store.{Card}
use kubepage_operator.Pod.Merge.{
  Group, add_card, group_by_key, merge_group, merge_cards, merged, head_of, compare_index,
  merge_service_cards, merge_card_group_key,
}

abbrev pub keys_of : List Group → List String
keys_of groups = map (λ g. g.key) groups

abbrev BelongsTo : String → Card → Type 0
BelongsTo k c = merge_card_group_key c.key ≡ k

-- Every card of a group has the group's key.
abbrev AreGrouped : List Group → Type 0
AreGrouped groups = All (λ g. BelongsTo g.key g.first × All (BelongsTo g.key) g.rest) groups

All-append :
    (P : Card → Type 0) (xs : List Card) (c : Card) → All P xs → P c → All P (xs ++ (c ∷ []))
All-append P [] c h hc = (hc, tt)
All-append P (x ∷ xs) c (h, hs) hc = (h, All-append P xs c hs hc)

add_card-AreGrouped :
    (k : String) (c : Card) (groups : List Group)
    → BelongsTo k c
    → AreGrouped groups
    → AreGrouped (add_card k c groups)
unfolding add_card
add_card-AreGrouped k c [] h hs = ((h, tt), tt)
add_card-AreGrouped k c (g ∷ groups) h ((first, rest), hs) = elim (Bool-cases (g.key == k)) [
  | inl same ↦
      let in_group : BelongsTo g.key c = h ∙ sym ((eq_iff g.key k).0 same) in
      rw (same, add_card) ((first, All-append (BelongsTo g.key) g.rest c rest in_group), hs)
  | inr other ↦ rw (other, add_card) ((first, rest), add_card-AreGrouped k c groups h hs)
]

pub contains-add_card :
    (k : String) (c : Card) (groups : List Group) (s : String)
    → contains (keys_of (add_card k c groups)) s ≡ (k == s || contains (keys_of groups) s)
unfolding add_card
contains-add_card k c [] s = refl
contains-add_card k c (g ∷ groups) s =
    ground (arith, contains-add_card k c groups s, eq_iff g.key k, eq_iff g.key s, eq_iff k s)

add_card-AreDistinct :
    (k : String) (c : Card) (groups : List Group)
    → AreDistinct (keys_of groups)
    → AreDistinct (keys_of (add_card k c groups))
unfolding add_card
add_card-AreDistinct k c [] h = (refl, tt)
add_card-AreDistinct k c (g ∷ groups) (h, hs) = elim (Bool-cases (g.key == k)) [
  | inl same ↦ rw (same, add_card) (h, hs)
  | inr other ↦
      rw (other, add_card)
        (
          ground (arith, contains-add_card k c groups g.key, eq_iff k g.key, eq_iff g.key k),
          add_card-AreDistinct k c groups hs,
        )
]

group_by_key-AreGrouped :
    (groups : List Group) (cards : List Card)
    → AreGrouped groups
    → AreDistinct (keys_of groups)
    → AreGrouped (group_by_key groups cards) × AreDistinct (keys_of (group_by_key groups cards))
unfolding group_by_key
group_by_key-AreGrouped groups [] h d = (h, d)
group_by_key-AreGrouped groups (c ∷ cards) h d =
    let k = merge_card_group_key c.key in
    group_by_key-AreGrouped (add_card k c groups) cards (add_card-AreGrouped k c groups refl h)
      (add_card-AreDistinct k c groups d)

pub head_of-All :
    (P : Card → Type 0) (d : Card) (cards : List Card) → P d → All P cards → P (head_of d cards)
unfolding head_of
head_of-All P d [] h hs = h
head_of-All P d (c ∷ cards) h (hc, hs) = hc

-- A merged card stays with its group.
merge_group-BelongsTo :
    (k : String) (first : Card) (rest : List Card)
    → BelongsTo k first
    → All (BelongsTo k) rest
    → BelongsTo k (merge_group (record { key = k; first = first; rest = rest }))
unfolding merge_group merge_cards merged
merge_group-BelongsTo k first [] h hs = h
merge_group-BelongsTo k first (c ∷ rest) h hs =
    head_of-All (BelongsTo k) first (sort_func compare_index (first ∷ c ∷ rest)) h
      (All-sort_func compare_index (BelongsTo k) (first ∷ c ∷ rest) (h, hs))

unfoldable pub group_keys : List Card → List String
group_keys cards = map (λ c. merge_card_group_key c.key) cards

merge_groups-keys :
    (groups : List Group) → AreGrouped groups → group_keys (map merge_group groups) ≡ keys_of groups
unfolding group_keys
merge_groups-keys [] h = refl
merge_groups-keys (g ∷ groups) ((first, rest), hs) =
    ap (λ k. k ∷ group_keys (map merge_group groups))
      (merge_group-BelongsTo g.key g.first g.rest first rest)
    ∙ ap (λ ks. g.key ∷ ks) (merge_groups-keys groups hs)

contains-group_by_key :
    (groups : List Group) (cards : List Card) (s : String)
    → contains (keys_of (group_by_key groups cards)) s
      ≡ (contains (keys_of groups) s || contains (group_keys cards) s)
unfolding group_by_key group_keys
contains-group_by_key groups [] s = ground arith
contains-group_by_key groups (c ∷ cards) s =
    let k = merge_card_group_key c.key in
    ground
      (arith, contains-group_by_key (add_card k c groups) cards s, contains-add_card k c groups s)

pub merge_service_cards-entries :
    (cards : List Card) (entry : String)
    → AreDistinct (group_keys (merge_service_cards cards))
      × (contains (group_keys (merge_service_cards cards)) entry
          ≡ contains (group_keys cards) entry)
unfolding merge_service_cards
merge_service_cards-entries cards entry =
    let (grouped, distinct) = group_by_key-AreGrouped [] cards tt tt in
    rw (merge_groups-keys (group_by_key [] cards) grouped)
      (distinct, contains-group_by_key [] cards entry)
