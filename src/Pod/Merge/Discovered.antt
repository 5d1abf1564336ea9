-- ===== src/Pod/Merge/Discovered.antt =====
-- Merging leaves the cards of discovered services alone.
use Prim.Native.String
use kubepage_operator.Prelude.{
  String, true, false, List, [], ◌∷◌, map, ◌==◌, ◌≡◌, ◌⊎◌, refl, sym, ap, ◌∙◌, inl, inr, arith,
  eq_iff, Bool-cases, Option-cases, contains, AreDistinct, In, ◌||◌,
}
use kubepage_operator.Prelude.Affix.{eq_of_cut_last, has_prefix-append}
use kubepage_operator.Prelude.Format.{has_prefix, cut_last}
use kubepage_operator.Pod.Store.{Card}
use kubepage_operator.Pod.Merge.{
  Group, add_card, group_by_key, merge_group, merge_service_cards, merge_card_group_key,
  discovery_prefix, is_decimal_digits,
}
use kubepage_operator.Pod.Merge.Entries.{keys_of, contains-add_card}

merge_card_group_key-cases :
    (key : String)
    → (merge_card_group_key key ≡ key)
      ⊎ ((before : String) × (last : String) × (key ≡ String.◌++◌ before (String.◌++◌ "/" last))
          × (merge_card_group_key key ≡ before)
          × (has_prefix key discovery_prefix ≡ false))
unfolding merge_card_group_key
merge_card_group_key-cases key = elim (Bool-cases (has_prefix key discovery_prefix)) [
  | inl own ↦ inl (rw (own, merge_card_group_key) refl)
  | inr other ↦ elim (Option-cases (cut_last "/" key)) [
    | inl whole ↦ inl (rw (other, whole, merge_card_group_key) refl)
    | inr ((before, last), parts) ↦
        elim (Bool-cases (last == "monitor" || is_decimal_digits last)) [
          | inl index ↦ inr (
            before,
            last,
            eq_of_cut_last "/" key before last parts,
            rw (other, parts, index, merge_card_group_key) refl,
            other,
          )
          | inr name ↦ inl (rw (other, parts, name, merge_card_group_key) refl)
        ]
  ]
]

-- No key but itself has a discovered service's key as its group's.
merge_card_group_key-discovered :
    (key : String)
    → has_prefix (merge_card_group_key key) discovery_prefix ≡ true
    → merge_card_group_key key ≡ key
merge_card_group_key-discovered key h = elim (merge_card_group_key-cases key) [
  | inl same ↦ same
  | inr (before, last, parts, group, other) ↦
      let longer =
        has_prefix-append before (String.◌++◌ "/" last) discovery_prefix (rw group at h) in
      absurd (cc (sym other ∙ ap (λ k. has_prefix k discovery_prefix) parts ∙ longer))
]

alone : Card → Group
alone c = record { key = c.key; first = c; rest = [] }

add_card-In_other :
    (k : String) (d : Card) (g : Group) (groups : List Group)
    → (g.key == k) ≡ false
    → In g groups
    → In g (add_card k d groups)
unfolding add_card
add_card-In_other k d g [] h i = absurd i
add_card-In_other k d g (x ∷ groups) h i = elim (Bool-cases (x.key == k)) [
  | inl same ↦ elim i [
    | inl here ↦ absurd (cc (sym h ∙ ap (λ y. y.key == k) here ∙ same))
    | inr there ↦ rw (same, add_card) (inr there)
  ]
  | inr other ↦ elim i [
    | inl here ↦ rw (other, add_card) (inl here)
    | inr there ↦ rw (other, add_card) (inr (add_card-In_other k d g groups h there))
  ]
]

add_card-In_new :
    (k : String) (c : Card) (groups : List Group)
    → contains (keys_of groups) k ≡ false
    → In (record { key = k; first = c; rest = [] }) (add_card k c groups)
unfolding add_card
add_card-In_new k c [] h = inl refl
add_card-In_new k c (g ∷ groups) h =
    let other : (g.key == k) ≡ false = ground arith in
    rw (other, add_card) (inr (add_card-In_new k c groups (ground arith)))

abbrev pub card_keys : List Card → List String
card_keys cards = map (λ c. c.key) cards

-- Another card has another group than a discovered service's.
other_group :
    (k : String) (d : Card)
    → has_prefix k discovery_prefix ≡ true
    → (d.key == k) ≡ false
    → (k == merge_card_group_key d.key) ≡ false
other_group k d h n = elim (Bool-cases (k == merge_card_group_key d.key)) [
  | inr distinct ↦ distinct
  | inl same ↦
      let e : k ≡ merge_card_group_key d.key = (eq_iff k (merge_card_group_key d.key)).0 same in
      let own = merge_card_group_key-discovered d.key (rw (← e) h) in
      absurd (cc (sym n ∙ (eq_iff d.key k).1 (sym (e ∙ own))))
]

group_by_key-In_kept :
    (c : Card) (groups : List Group) (cards : List Card)
    → has_prefix c.key discovery_prefix ≡ true
    → contains (card_keys cards) c.key ≡ false
    → In (alone c) groups
    → In (alone c) (group_by_key groups cards)
unfolding group_by_key alone
group_by_key-In_kept c groups [] h n i = i
group_by_key-In_kept c groups (d ∷ cards) h n i =
    let k = merge_card_group_key d.key in
    let other = other_group c.key d h (ground arith) in
    group_by_key-In_kept c (add_card k d groups) cards h (ground arith)
      (add_card-In_other k d (alone c) groups other i)

pub own_group :
    (key : String) → has_prefix key discovery_prefix ≡ true → merge_card_group_key key ≡ key
unfolding merge_card_group_key
own_group key h = rw (h, merge_card_group_key) refl

In-distinct :
    (c : Card) (k : String) (cards : List Card)
    → contains (card_keys cards) k ≡ false
    → In c cards
    → (k == c.key) ≡ false
In-distinct c k [] h i = absurd i
In-distinct c k (x ∷ cards) h (inl e) =
    ground (arith, ap (λ y. y.key) e, eq_iff k c.key, eq_iff c.key k, eq_iff x.key k)
In-distinct c k (x ∷ cards) h (inr i) = ground (arith, In-distinct c k cards)

group_by_key-In-alone :
    (c : Card) (groups : List Group) (cards : List Card)
    → has_prefix c.key discovery_prefix ≡ true
    → AreDistinct (card_keys cards)
    → contains (keys_of groups) c.key ≡ false
    → In c cards
    → In (alone c) (group_by_key groups cards)
unfolding group_by_key alone
group_by_key-In-alone c groups [] h d n i = absurd i
group_by_key-In-alone c groups (x ∷ cards) h (d, ds) n (inl e) =
    let key : c.key ≡ x.key = ap (λ y. y.key) e in
    let own : merge_card_group_key x.key ≡ c.key = own_group x.key (rw (← key) h) ∙ sym key in
    group_by_key-In_kept c (add_card (merge_card_group_key x.key) x groups) cards h (rw (key) d)
      (rw (own, ← e) (add_card-In_new c.key c groups n))
group_by_key-In-alone c groups (x ∷ cards) h (d, ds) n (inr i) =
    let k = merge_card_group_key x.key in
    let apart : (x.key == c.key) ≡ false = In-distinct c x.key cards d i in
    let other = other_group c.key x h apart in
    group_by_key-In-alone c (add_card k x groups) cards h ds
      (ground (arith, contains-add_card k x groups c.key, eq_iff k c.key, eq_iff c.key k)) i

In-merge_groups :
    (c : Card) (groups : List Group) → In (alone c) groups → In c (map merge_group groups)
unfolding alone merge_group
In-merge_groups c [] i = absurd i
In-merge_groups c (g ∷ groups) (inl e) = inl (ap merge_group e)
In-merge_groups c (g ∷ groups) (inr i) = inr (In-merge_groups c groups i)

-- Where no two cards have one key, the page shows the card of a discovered service as it is stored,
-- whatever else is stored.
pub merge_service_cards-discovered :
    (c : Card) (cards : List Card)
    → AreDistinct (card_keys cards)
    → has_prefix c.key discovery_prefix ≡ true
    → In c cards
    → In c (merge_service_cards cards)
unfolding merge_service_cards
merge_service_cards-discovered c cards d h i =
    In-merge_groups c (group_by_key [] cards) (group_by_key-In-alone c [] cards h d refl i)
