-- ===== src/Pod/Merge/Laws.antt =====
-- What merging keeps of the cards.
use mathlib.Core.List.{Permᴰ}
use mathlib.Core.List.Permᴰ
use kubepage_operator.Prelude.{
  String, List, [], ◌∷◌, ◌++◌, map, ◌==◌, ◌≡◌, refl, sym, subst, inl, inr, Bool-cases, contains,
  AreDistinct, concat_map,
}
use kubepage_operator.Prelude.Sort.{sort_func-Perm}
use kubepage_operator.Prelude.Permutation.{concat_map-append, concat_map-Perm}
use kubepage_operator.Pod.Field.{Field}
use kubepage_operator.Pod.Store.{Card}
use kubepage_operator.Pod.Merge.Entries.{group_keys, merge_service_cards-entries}
use kubepage_operator.Pod.Merge.{
  Group, add_card, group_by_key, merge_group, merge_cards, merged, compare_index,
  merge_service_cards, merge_card_group_key,
}

abbrev pub fields_of : List Card → List Field
fields_of cards = concat_map (λ c. c.fields) cards

members : Group → List Card
members g = g.first ∷ g.rest

add_card-Perm :
    (k : String) (c : Card) (groups : List Group)
    → Permᴰ (concat_map members (add_card k c groups)) (c ∷ concat_map members groups)
unfolding add_card members
add_card-Perm k c [] = Permᴰ.refl (c ∷ [])
add_card-Perm k c (g ∷ groups) =
    let others = concat_map members groups in
    elim (Bool-cases (g.key == k)) [
      | inl same ↦
          rw (same, add_card)
            (Permᴰ.trans
              (Permᴰ.cons refl (Permᴰ.append_right others (Permᴰ.append_comm g.rest (c ∷ []))))
              (Permᴰ.swap refl refl))
      | inr other ↦
          rw (other, add_card)
            (Permᴰ.trans (Permᴰ.append_left (members g) (add_card-Perm k c groups))
              (Permᴰ.middle c (members g) others))
    ]

group_by_key-Perm :
    (groups : List Group) (cards : List Card)
    → Permᴰ (concat_map members (group_by_key groups cards)) (concat_map members groups ++ cards)
unfolding group_by_key
group_by_key-Perm groups [] = Permᴰ.symm (Permᴰ.append-nil (concat_map members groups))
group_by_key-Perm groups (c ∷ cards) =
    let k = merge_card_group_key c.key in
    Permᴰ.trans (group_by_key-Perm (add_card k c groups) cards) (
      Permᴰ.trans (Permᴰ.append_right cards (add_card-Perm k c groups))
        (Permᴰ.symm (Permᴰ.middle c (concat_map members groups) cards)))

merge_group-fields :
    (k : String) (first : Card) (rest : List Card)
    → Permᴰ
        (merge_group (record { key = k; first = first; rest = rest })).fields
        (fields_of (first ∷ rest))
unfolding merge_group merge_cards merged
merge_group-fields k first [] = Permᴰ.symm (Permᴰ.append-nil first.fields)
merge_group-fields k first (c ∷ rest) =
    concat_map-Perm (λ d. d.fields) (sort_func-Perm compare_index (first ∷ c ∷ rest))

merge_groups-fields :
    (groups : List Group)
    → Permᴰ (fields_of (map merge_group groups)) (fields_of (concat_map members groups))
unfolding members
merge_groups-fields [] = Permᴰ.nil
merge_groups-fields (g ∷ groups) =
    let shown = fields_of (map merge_group groups) in
    subst (Permᴰ ((merge_group g).fields ++ shown))
      (sym (concat_map-append (λ c. c.fields) (members g) (concat_map members groups)))
      (Permᴰ.trans (Permᴰ.append_right shown (merge_group-fields g.key g.first g.rest))
        (Permᴰ.append_left (fields_of (members g)) (merge_groups-fields groups)))

pub merge_service_cards-groups :
    (cards : List Card) (entry : String)
    → AreDistinct (group_keys (merge_service_cards cards))
      × (contains (group_keys (merge_service_cards cards)) entry
          ≡ contains (group_keys cards) entry)
      × Permᴰ (fields_of (merge_service_cards cards)) (fields_of cards)
unfolding merge_service_cards
merge_service_cards-groups cards entry =
    let (distinct, same) = merge_service_cards-entries cards entry in
    (
      distinct,
      same,
      Permᴰ.trans (merge_groups-fields (group_by_key [] cards))
          (concat_map-Perm (λ c. c.fields) (group_by_key-Perm [] cards)),
    )
