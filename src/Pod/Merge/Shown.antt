-- ===== src/Pod/Merge/Shown.antt =====
-- The cards that the page shows, by the entries whose keys the poller has given them.
use mathlib.Core.List.{Permᴰ}
use kubepage_operator.Prelude.{
  ℕ, String, true, false, List, [], ◌∷◌, ◌++◌, map, ◌==◌, ◌≡◌, refl, sym, ap, ap₂, ◌∙◌, subst, inl,
  inr, Bool-cases, contains, AreDistinct, All, ◌<◌, arith,
}
use kubepage_operator.Prelude.Decimal.{decimal}
use kubepage_operator.Prelude.Format.{Format, has_prefix}
use kubepage_operator.Prelude.Segments.{lacks_slash}
use kubepage_operator.Prelude.Sort.{sort_func, All-sort_func}
use kubepage_operator.Pod.Store.{Card}
use kubepage_operator.Pod.Merge.{
  Group, add_card, group_by_key, merge_group, merge_cards, merged, compare_index,
  merge_service_cards, merge_card_group_key,
}
use kubepage_operator.Pod.Merge.Entries.{group_keys, head_of-All}
use kubepage_operator.Pod.Merge.Discovered.{own_group}
use kubepage_operator.Pod.Merge.Keys.{
  entry_key, widget_key, monitor_key, merge_card_group_key-widget_key,
}
use kubepage_operator.Pod.Merge.Laws.{fields_of, merge_service_cards-groups}

-- What merging keeps of the keys.
module _ (P : String → Type 0) where
  abbrev HasKey : Card → Type 0
  HasKey c = P c.key

  abbrev AllHaveKeys : List Group → Type 0
  AllHaveKeys groups = All (λ g. HasKey g.first × All HasKey g.rest) groups

  All-append :
      (c : Card) (cards : List Card) → HasKey c → All HasKey cards → All HasKey (cards ++ (c ∷ []))
  All-append c [] h hs = (h, tt)
  All-append c (d ∷ cards) h (k, ks) = (k, All-append c cards h ks)

  add_card-HaveKeys :
      (k : String) (c : Card) (groups : List Group)
      → HasKey c
      → AllHaveKeys groups
      → AllHaveKeys (add_card k c groups)
  unfolding add_card
  add_card-HaveKeys k c [] h hs = ((h, tt), tt)
  add_card-HaveKeys k c (g ∷ groups) h ((first, rest), hs) = elim (Bool-cases (g.key == k)) [
    | inl same ↦ rw (same, add_card) ((first, All-append c g.rest h rest), hs)
    | inr other ↦ rw (other, add_card) ((first, rest), add_card-HaveKeys k c groups h hs)
  ]

  group_by_key-HaveKeys :
      (groups : List Group) (cards : List Card)
      → AllHaveKeys groups
      → All HasKey cards
      → AllHaveKeys (group_by_key groups cards)
  unfolding group_by_key
  group_by_key-HaveKeys groups [] hs ks = hs
  group_by_key-HaveKeys groups (c ∷ cards) hs (k, ks) =
      group_by_key-HaveKeys (add_card (merge_card_group_key c.key) c groups) cards
        (add_card-HaveKeys (merge_card_group_key c.key) c groups k hs) ks

  merge_group-HasKey :
      (k : String) (first : Card) (rest : List Card)
      → HasKey first
      → All HasKey rest
      → HasKey (merge_group (record { key = k; first = first; rest = rest }))
  unfolding merge_group merge_cards merged
  merge_group-HasKey k first [] h hs = h
  merge_group-HasKey k first (c ∷ rest) h hs =
      head_of-All HasKey first (sort_func compare_index (first ∷ c ∷ rest)) h
        (All-sort_func compare_index HasKey (first ∷ c ∷ rest) (h, hs))

  merge_groups-HaveKeys :
      (groups : List Group) → AllHaveKeys groups → All HasKey (map merge_group groups)
  merge_groups-HaveKeys [] h = tt
  merge_groups-HaveKeys (g ∷ groups) ((first, rest), hs) =
      (merge_group-HasKey g.key g.first g.rest first rest, merge_groups-HaveKeys groups hs)

  merge_service_cards-HaveKeys :
      (cards : List Card) → All HasKey cards → All HasKey (merge_service_cards cards)
  unfolding merge_service_cards
  merge_service_cards-HaveKeys cards h =
      merge_groups-HaveKeys (group_by_key [] cards) (group_by_key-HaveKeys [] cards tt h)

module _ (fmt : Format) where
  -- The key of a card of an entry: of one of its widgets, of the entry itself, or of a discovered
  -- service, which is its own entry.
  pub data IsKeyOf (entry key : String) : Type 0 where
    of_widget :
        (namespace name : String) (idx index : ℕ)
        → lacks_slash namespace ≡ true
        → (namespace == "discovery") ≡ false
        → index < 9223372036854775808
        → entry ≡ entry_key fmt namespace name idx
        → key ≡ widget_key fmt namespace name idx index
        → IsKeyOf entry key
    of_monitor :
        (namespace name : String) (idx : ℕ)
        → lacks_slash namespace ≡ true
        → (namespace == "discovery") ≡ false
        → entry ≡ entry_key fmt namespace name idx
        → key ≡ monitor_key fmt namespace name idx
        → IsKeyOf entry key
    of_service : has_prefix key "discovery/" ≡ true → entry ≡ key → IsKeyOf entry key

  merge_card_group_key-IsKeyOf :
      (entry key : String)
      → ((n : ℕ) → fmt.decimal n ≡ decimal n)
      → IsKeyOf entry key
      → merge_card_group_key key ≡ entry
  merge_card_group_key-IsKeyOf entry key decimals (of_widget ns name idx index s d l e k) =
      let (group, read, own) =
        merge_card_group_key-widget_key fmt ns name idx index decimals s d l in
      rw (k, e) group
  merge_card_group_key-IsKeyOf entry key decimals (of_monitor ns name idx s d e k) =
      let (group, read, own) =
        merge_card_group_key-widget_key fmt ns name idx 0 decimals s d (omega arith) in
      rw (k, e) own
  merge_card_group_key-IsKeyOf entry key decimals (of_service h e) = own_group key h ∙ sym e

  -- Cards with the entries that they are of.
  abbrev pub ArePlaced : List (String × Card) → Type 0
  ArePlaced placed = All (λ (entry, c). IsKeyOf entry c.key) placed

  abbrev pub entries_of : List (String × Card) → List String
  entries_of placed = map (λ p. p.0) placed

  abbrev pub cards_of : List (String × Card) → List Card
  cards_of placed = map (λ p. p.1) placed

  abbrev IsPlaced : String → Type 0
  IsPlaced key = IsKeyOf (merge_card_group_key key) key

  cards_of-IsPlaced :
      (placed : List (String × Card))
      → ((n : ℕ) → fmt.decimal n ≡ decimal n)
      → ArePlaced placed
      → All (λ c. IsPlaced c.key) (cards_of placed)
  cards_of-IsPlaced [] decimals h = tt
  cards_of-IsPlaced ((entry, c) ∷ placed) decimals (h, hs) = (
    subst (λ e. IsKeyOf e c.key) (sym (merge_card_group_key-IsKeyOf entry c.key decimals h)) h,
    cards_of-IsPlaced placed decimals hs,
  )

  group_keys-entries_of :
      (placed : List (String × Card))
      → ((n : ℕ) → fmt.decimal n ≡ decimal n)
      → ArePlaced placed
      → group_keys (cards_of placed) ≡ entries_of placed
  unfolding group_keys
  group_keys-entries_of [] decimals h = refl
  group_keys-entries_of ((entry, c) ∷ placed) decimals (h, hs) =
      ap₂ ◌∷◌ (merge_card_group_key-IsKeyOf entry c.key decimals h)
        (group_keys-entries_of placed decimals hs)

  abbrev place : List Card → List (String × Card)
  place cards = map (λ c. (merge_card_group_key c.key, c)) cards

  cards_of-place : (cards : List Card) → cards_of (place cards) ≡ cards
  cards_of-place [] = refl
  cards_of-place (c ∷ cards) = ap (λ cs. c ∷ cs) (cards_of-place cards)

  entries_of-place : (cards : List Card) → entries_of (place cards) ≡ group_keys cards
  unfolding group_keys
  entries_of-place [] = refl
  entries_of-place (c ∷ cards) = ap (λ es. merge_card_group_key c.key ∷ es) (entries_of-place cards)

  place-ArePlaced : (cards : List Card) → All (λ c. IsPlaced c.key) cards → ArePlaced (place cards)
  place-ArePlaced [] h = tt
  place-ArePlaced (c ∷ cards) (h, hs) = (h, place-ArePlaced cards hs)

  -- Of cards with the keys that the poller gives them, the page shows one card for each entry that has
  -- one, with a key of that entry, and none for another; and of all widgets every field, none twice. An
  -- entry is here one of a namespace that is not called discovery, or a discovered service; numbers in
  -- keys are decimal.
  pub merge_service_cards_lem :
      (placed : List (String × Card)) (entry : String)
      → ((n : ℕ) → fmt.decimal n ≡ decimal n)
      → ArePlaced placed
      → (shown : List (String × Card)) × (cards_of shown ≡ merge_service_cards (cards_of placed))
        × ArePlaced shown
        × AreDistinct (entries_of shown)
        × (contains (entries_of shown) entry ≡ contains (entries_of placed) entry)
        × Permᴰ (fields_of (cards_of shown)) (fields_of (cards_of placed))
  merge_service_cards_lem placed entry decimals h =
      let merged_cards = merge_service_cards (cards_of placed) in
      let (distinct, same, fields) = merge_service_cards-groups (cards_of placed) entry in
      let keys = entries_of-place merged_cards in
      (
        place merged_cards,
        cards_of-place merged_cards,
        place-ArePlaced merged_cards (
            merge_service_cards-HaveKeys IsPlaced (cards_of placed)
              (cards_of-IsPlaced placed decimals h)),
        rw keys distinct,
        rw (keys, same, group_keys-entries_of placed decimals h) refl,
        rw (cards_of-place merged_cards) fields,
      )
