-- ===== src/Pod/Merge.antt =====
-- internal/dashboard/server.go, mergeServiceCards and what it calls: the cards of an entry's widgets
-- become the one card that the page shows.
pub mod Laws
pub mod Entries
pub mod Discovered
pub mod Keys
pub mod Shown
mod Tests
use Prim.Native.Char.{code}
use Prim.Native.Nat.{Ordering}
use Prim.Native.String
use kubepage_operator.Prelude.{
  ℕ, String, Bool, true, false, not, Option, none, some, List, [], ◌∷◌, ◌++◌, map, ◌==◌, ◌&&◌, ◌||◌,
  ◌+◌, ◌*◌, ◌-◌, max, ℤ, pos, negsuc, ltb, leb, if◌then◌else◌, concat_map, compare_difference,
  or_else,
}
use kubepage_operator.Prelude.Decimal.{all_digits, parse_digits}
use kubepage_operator.Prelude.Format.{join, same_char, has_prefix, cut_last}
use kubepage_operator.Prelude.Map.{Map}
use kubepage_operator.Prelude.Sort.{sort_func}
use kubepage_operator.Pod.Field.{Field}
use kubepage_operator.Pod.Store.{Card}

abbrev pub discovery_prefix : String
discovery_prefix = "discovery/"

unfoldable pub is_decimal_digits : String → Bool
unfolding all_digits
is_decimal_digits s = not (s == "") && all_digits s

-- strings.LastIndex(key, "/"), and what stands before and after it.
unfoldable pub merge_card_group_key : String → String
unfolding is_decimal_digits
merge_card_group_key key =
    if has_prefix key discovery_prefix then key else elim (cut_last "/" key) [
      | none ↦ key
      | some (before, last) ↦ if last == "monitor" || is_decimal_digits last then before else key
    ]

-- strconv.Atoi of what stands in a key: digits after at most one sign, in the range of a 64-bit integer.
magnitude : String → Option ℕ
unfolding parse_digits
magnitude s = if s == "" then none else parse_digits 0 s

positive : Option ℕ → Option ℤ
positive none = none
positive (some n) = if ltb n 9223372036854775808 then some (pos n) else none

negative : Option ℕ → Option ℤ
negative none = none
negative (some n) =
    if leb n 9223372036854775808 then some (if ltb 0 n then negsuc (n - 1) else pos 0) else none

unfoldable pub atoi : String → Option ℤ
unfolding magnitude positive negative
atoi String.[] = none
atoi (String.◌∷◌ c s) =
    if same_char c "-"
    then negative (magnitude s)
    else if same_char c "+"
    then positive (magnitude s)
    else positive (magnitude (String.◌∷◌ c s))

unfoldable pub merge_widget_index : String → ℤ
unfolding atoi
merge_widget_index key = elim (cut_last "/" key) [
  | none ↦ pos 0
  | some (before, last) ↦ or_else (atoi last) (pos 0)
]

-- The comparison of `slices.SortStableFunc`: the sign of a difference of 64-bit integers.
unfoldable pub compare_index : Card → Card → Ordering
unfolding merge_widget_index
compare_index a b = compare_difference (merge_widget_index a.key) (merge_widget_index b.key)

errors_of : List Card → List String
errors_of [] = []
errors_of (c ∷ cards) = if c.error == "" then errors_of cards else c.error ∷ errors_of cards

latest_of : ℕ → List Card → ℕ
latest_of latest [] = latest
latest_of latest (c ∷ cards) =
    latest_of (if ltb latest c.updated_at then c.updated_at else latest) cards

-- What the loop puts into the first card.
merged : Card → List Card → Card
unfolding errors_of latest_of
merged first cards = record first {
  fields = concat_map (λ c. c.fields) cards;
  error = join "; " (errors_of cards);
  updated_at = latest_of first.updated_at cards;
}

-- `cards[0]`; the list is never empty.
pub head_of : Card → List Card → Card
head_of d [] = d
head_of d (c ∷ cards) = c

unfoldable pub merge_cards : Card → List Card → Card
unfolding compare_index merged head_of
merge_cards first rest =
    let cards = sort_func compare_index (first ∷ rest) in merged (head_of first cards) cards

-- A group: its key, its first card and the others.
pub record Group : Type 0 where
  pub key : String
  pub first : Card
  pub rest : List Card

-- The map of groups, in the order in which its keys came.
pub add_card : String → Card → List Group → List Group
add_card k c [] = record { key = k; first = c; rest = [] } ∷ []
add_card k c (g ∷ groups) =
    let others = g ∷ add_card k c groups in
    if g.key == k then record g { rest = g.rest ++ (c ∷ []) } ∷ groups else others

unfoldable pub group_by_key : List Group → List Card → List Group
unfolding add_card merge_card_group_key
group_by_key groups [] = groups
group_by_key groups (c ∷ cards) =
    group_by_key (add_card (merge_card_group_key c.key) c groups) cards

merge_group : Group → Card
unfolding merge_cards
merge_group g = elim g.rest [ [] ↦ g.first | c ∷ cards ↦ merge_cards g.first (c ∷ cards) ]

unfoldable pub merge_service_cards : List Card → List Card
unfolding group_by_key merge_group
merge_service_cards cards = map merge_group (group_by_key [] cards)
