-- ===== src/Pod/Header/Tests.antt =====
-- A greeting, a weather widget with a live card, and a resource widget without one.
use kubepage_operator.Prelude.{true, false, none, List, [], ◌∷◌, ◌≡◌, refl, map, All}
use kubepage_operator.Prelude.Format.{cut_prefix, cut_last, cut_here}
use kubepage_operator.Prelude.Map.{lookup, set}
use kubepage_operator.Pod.Field.{Field}
use kubepage_operator.Pod.HeaderWidgets.{HeaderWidget}
use kubepage_operator.Pod.Icon.{icon_url, iconify_icon_url, split_color_suffix}
use kubepage_operator.Pod.Store.{Card}
use kubepage_operator.Pod.Header.{
  HeaderWidgetView, view_of, live_view, polled_view, default_header_widget_icon, weather_icon_url,
  weather_slug, contains_text, field_value, header_fields, header_field, split_align, push_first,
  build_header,
}
use kubepage_operator.Pod.Header.Laws.{build_header_lem}
use kubepage_operator.Pod.Header.Shows.{Shows}
use kubepage_operator.Fixtures.{header_widget, header_card_of}

abbrev greeting : HeaderWidget
greeting = record (header_widget "header/hello/0" "greeting" "left") {
  config = ("text", "Hello") ∷ [];
}

abbrev weather_widget : HeaderWidget
weather_widget = header_widget "header/weather/0" "openmeteo" "right"

abbrev cluster : HeaderWidget
cluster = header_widget "header/cluster/0" "kubemetrics" "right"

abbrev rain : Field
rain = record { label = "Conditions"; value = "light rain"; percent = none; highlight = "" }

abbrev defs : List HeaderWidget
defs = weather_widget ∷ greeting ∷ cluster ∷ []

abbrev cards : List Card
cards = header_card_of "header/weather/0" (rain ∷ []) ∷ []

build_header_test :
    (map (λ v. v.type) (build_header (λ s. s) defs cards)
      ≡ "greeting" ∷ "openmeteo" ∷ "kubemetrics" ∷ [])
    × (map (λ v. v.icon_url) (build_header (λ s. s) defs cards)
        ≡ "" ∷ "https://api.iconify.design/wi/day-rain.svg?color=%2394a3b8"
          ∷ "https://api.iconify.design/simple-icons/kubernetes.svg?color=%2394a3b8" ∷ [])
    × (map (λ v. v.push_right) (build_header (λ s. s) defs cards) ≡ false ∷ true ∷ false ∷ [])
unfolding build_header split_align push_first view_of live_view polled_view
    default_header_widget_icon weather_icon_url weather_slug contains_text field_value header_fields
    header_field icon_url iconify_icon_url split_color_suffix cut_prefix cut_last cut_here lookup
    set
build_header_test = (refl, refl, refl)

build_header_lem_example :
    (strip : List (HeaderWidget × HeaderWidgetView)) × (map (λ p. p.1) strip
      ≡ build_header (λ s. s) defs cards)
    × (map (λ p. p.0) strip ≡ greeting ∷ weather_widget ∷ cluster ∷ [])
    × All (λ p. Shows cards p.0 p.1) strip
    × (map (λ p. p.1.push_right) strip ≡ false ∷ true ∷ false ∷ [])
build_header_lem_example = build_header_lem (λ s. s) defs cards
