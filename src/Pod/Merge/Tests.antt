-- ===== src/Pod/Merge/Tests.antt =====
-- An entry with three widgets, one of them the eleventh, and the card of a discovered service.
use mathlib.Core.List.{Permᴰ}
use kubepage_operator.Prelude.{
  ℕ, String, true, false, none, List, [], ◌∷◌, ◌≡◌, refl, arith, pos, contains, AreDistinct, In,
  inl, inr,
}
use kubepage_operator.Prelude.Decimal.{decimal, all_digits, parse_digits}
use kubepage_operator.Prelude.Format.{Format, cut_last, cut_here, cut_prefix, join}
use kubepage_operator.Prelude.Segments.{lacks_slash}
use kubepage_operator.Prelude.Sort.{sort_func, insert_func}
use kubepage_operator.Prelude.Int.{compare_difference}
use kubepage_operator.Pod.Store.{Card}
use kubepage_operator.Pod.Merge.{
  add_card, group_by_key, merge_group, merge_cards, merged, head_of, compare_index,
  merge_service_cards, merge_card_group_key, merge_widget_index, is_decimal_digits, atoi, magnitude,
  positive, negative, errors_of, latest_of,
}
use kubepage_operator.Pod.Merge.Laws.{fields_of}
use kubepage_operator.Pod.Merge.Shown.{
  of_widget, of_service, ArePlaced, entries_of, cards_of, merge_service_cards_lem,
}
use kubepage_operator.Pod.Merge.Discovered.{merge_service_cards-discovered}
use kubepage_operator.Pod.Merge.Keys.{
  widget_key, monitor_key, entry_key, merge_card_group_key-widget_key,
}

abbrev go_format : Format
go_format = record { quote = λ s. s; decimal = λ n. decimal n }

abbrev card_of : String → String → String → ℕ → Card
card_of key label error updated_at = record {
  key = key;
  group = "Media";
  service_name = "Sonarr";
  widget_type = "sonarr";
  order = none;
  icon_url = "";
  description = "";
  href = "";
  target = "";
  header = false;
  show_stats = true;
  hide_errors = false;
  status = "Up";
  status_style = "dot";
  latency = "";
  pod_status = "";
  pod_ready_text = "";
  fields = record { label = label; value = "1"; percent = none; highlight = "" } ∷ [];
  error = error;
  updated_at = updated_at;
}

abbrev tenth : Card
tenth = card_of "apps/media/0/10" "c" "timeout" 7

abbrev second : Card
second = card_of "apps/media/0/2" "b" "" 9

abbrev first_card : Card
first_card = card_of "apps/media/0/0" "a" "no route" 8

abbrev found_card : Card
found_card = card_of "discovery/apps/10" "d" "" 5

abbrev merged_card : Card
merged_card = record first_card {
  fields =
      record { label = "a"; value = "1"; percent = none; highlight = "" }
      ∷ record { label = "b"; value = "1"; percent = none; highlight = "" }
      ∷ record { label = "c"; value = "1"; percent = none; highlight = "" }
      ∷ [];
  error = "no route; timeout";
  updated_at = 9;
}

merge_service_cards_test :
    merge_service_cards (tenth ∷ found_card ∷ second ∷ first_card ∷ [])
    ≡ merged_card ∷ found_card ∷ []
unfolding merge_service_cards group_by_key add_card merge_group merge_cards merged head_of
    compare_index merge_widget_index compare_difference atoi magnitude positive negative
    parse_digits merge_card_group_key is_decimal_digits all_digits cut_last cut_here cut_prefix
    sort_func insert_func errors_of latest_of join
merge_service_cards_test = refl

-- The cards of a namespace called discovery are kept apart.
discovery_namespace_test : merge_card_group_key "discovery/media/0/1" ≡ "discovery/media/0/1"
unfolding merge_card_group_key
discovery_namespace_test = refl

abbrev placed_cards : List (String × Card)
placed_cards =
    ("apps/media/0", second) ∷ ("apps/media/0", first_card) ∷ ("discovery/apps/10", found_card) ∷ []

merge_service_cards_lem_example :
    (shown : List (String × Card)) × (cards_of go_format shown
      ≡ merge_service_cards (second ∷ first_card ∷ found_card ∷ []))
    × ArePlaced go_format shown
    × AreDistinct (entries_of go_format shown)
    × (contains (entries_of go_format shown) "apps/media/0" ≡ true)
    × Permᴰ
        (fields_of (cards_of go_format shown))
        (fields_of (second ∷ first_card ∷ found_card ∷ []))
unfolding lacks_slash widget_key entry_key decimal
merge_service_cards_lem_example =
    merge_service_cards_lem go_format placed_cards "apps/media/0" (λ n. refl)
      (
        of_widget "apps" "media" 0 2 refl refl (omega arith) refl refl,
        (
          of_widget "apps" "media" 0 0 refl refl (omega arith) refl refl,
          (of_service refl refl, tt),
        ),
      )

merge_service_cards-discovered_example :
    In found_card (merge_service_cards (tenth ∷ found_card ∷ second ∷ []))
merge_service_cards-discovered_example =
    merge_service_cards-discovered found_card (tenth ∷ found_card ∷ second ∷ [])
      (refl, (refl, (refl, tt))) refl (inr (inl refl))

merge_card_group_key-widget_key_example :
    (merge_card_group_key (widget_key go_format "apps" "media" 0 10)
      ≡ entry_key go_format "apps" "media" 0)
    × (merge_widget_index (widget_key go_format "apps" "media" 0 10) ≡ pos 10)
    × (merge_card_group_key (monitor_key go_format "apps" "media" 0)
        ≡ entry_key go_format "apps" "media" 0)
unfolding lacks_slash
merge_card_group_key-widget_key_example =
    merge_card_group_key-widget_key go_format "apps" "media" 0 10 (λ n. refl) refl refl
      (omega arith)
