-- ===== src/Pod/Header.antt =====
-- internal/dashboard/server.go, buildHeader and what it calls: the header strip.
pub mod Shows
pub mod Laws
mod Tests
use kubepage_operator.Prelude.{
  ℤ, String, Bool, true, false, not, Option, none, some, List, [], ◌∷◌, ◌++◌, map, ◌==◌, ◌||◌,
  if◌then◌else◌, or_else,
}
use kubepage_operator.Prelude.Format.{text, has_prefix}
use kubepage_operator.Prelude.Map.{Map, lookup, set}
use kubepage_operator.Pod.Field.{Field}
use kubepage_operator.Pod.HeaderWidgets.{
  HeaderWidget, align_right, header_type_greeting, header_type_datetime,
}
use kubepage_operator.Pod.Icon.{icon_url}
use kubepage_operator.Pod.Store.{Card}

abbrev pub header_type_logo : String
header_type_logo = "logo"

pub record HeaderFieldView : Type 0 where
  pub value : String
  pub label : String
  pub icon_url : String
  pub percent : Option ℤ
  pub highlight : String

pub record HeaderWidgetView : Type 0 where
  pub type : String
  pub greeting : String
  pub format : String
  pub icon_url : String
  pub href : String
  pub fields : List HeaderFieldView
  pub err : String
  pub push_right : Bool

abbrev header_icon_color : String
header_icon_color = "94a3b8"

abbrev header_widget_default_icons : Map String
header_widget_default_icons =
    ("kubemetrics", "si-kubernetes-#94a3b8") ∷ ("longhorn", "lucide-hard-drive-#94a3b8") ∷ []

abbrev field_icon_slugs : Map String
field_icon_slugs =
    ("CPU", "lucide-cpu") ∷ ("Memory", "fa6-solid-memory") ∷ ("Storage", "lucide-hard-drive") ∷ []

unfoldable pub field_value : List Field → String → String
field_value [] label = ""
field_value (f ∷ fields) label =
    let rest = field_value fields label in if f.label == label then f.value else rest

-- strings.Contains
unfoldable pub contains_text : String → String → Bool
contains_text String.[] part = has_prefix "" part
contains_text (String.◌∷◌ c s) part = has_prefix (String.◌∷◌ c s) part || contains_text s part

-- The switch, as the list of its cases.
abbrev weather_slugs : Map String
weather_slugs =
    ("clear", "day-sunny")
    ∷ ("thunderstorm", "day-thunderstorm")
    ∷ ("shower", "day-showers")
    ∷ ("drizzle", "day-sprinkle")
    ∷ ("rain", "day-rain")
    ∷ ("snow", "day-snow")
    ∷ ("smoke", "smoke")
    ∷ ("haze", "day-haze")
    ∷ ("dust", "dust")
    ∷ ("ash", "dust")
    ∷ ("sand", "sandstorm")
    ∷ ("fog", "day-fog")
    ∷ ("mist", "day-fog")
    ∷ ("tornado", "tornado")
    ∷ ("squall", "strong-wind")
    ∷ ("partly", "day-cloudy")
    ∷ ("cloud", "day-cloudy")
    ∷ []

weather_slug : String → Map String → String
weather_slug c [] = "day-sunny"
weather_slug c ((word, slug) ∷ cases) =
    let rest = weather_slug c cases in if contains_text c word then slug else rest

abbrev is_weather : String → Bool
is_weather widget_type = widget_type == "openmeteo" || widget_type == "openweathermap"

abbrev pub live_cards : List Card → Map Card → Map Card
live_cards [] live = live
live_cards (c ∷ cards) live = live_cards cards (if c.header then set c.key c live else live)

module _ (to_lower : String → String) where
  abbrev static_icon : String → String
  static_icon slug = icon_url to_lower (some slug)

  unfoldable pub weather_icon_url : String → String
  unfolding weather_slug
  weather_icon_url condition = static_icon (
      text
        ("wi-" ∷ weather_slug (to_lower condition) weather_slugs ∷ "-#" ∷ header_icon_color ∷ []))

  unfoldable pub default_header_widget_icon : String → List Field → String
  unfolding weather_icon_url
  default_header_widget_icon widget_type fields =
      if is_weather widget_type
      then weather_icon_url (field_value fields "Conditions")
      else elim (lookup widget_type header_widget_default_icons) [
        | some slug ↦ static_icon slug
        | none ↦ ""
      ]

  header_field : Bool → Field → HeaderFieldView
  header_field weather f = elim (lookup f.label field_icon_slugs) [
    | some slug ↦ record {
      value = f.value;
      label = "";
      icon_url = static_icon (text (slug ∷ "-#" ∷ header_icon_color ∷ []));
      percent = f.percent;
      highlight = f.highlight;
    }
    | none ↦ record {
      value = f.value;
      label = if weather then "" else f.label;
      icon_url = "";
      percent = f.percent;
      highlight = f.highlight;
    }
  ]

  unfoldable pub header_fields : String → List Field → List HeaderFieldView
  unfolding header_field
  header_fields widget_type fields = map (header_field (is_weather widget_type)) fields

  abbrev blank_view : String → HeaderWidgetView
  blank_view type = record {
    type = type;
    greeting = "";
    format = "";
    icon_url = "";
    href = "";
    fields = [];
    err = "";
    push_right = false;
  }

  -- The default case, with the fields and the error of the live card.
  polled_view : HeaderWidget → List Field → String → HeaderWidgetView
  unfolding default_header_widget_icon header_fields
  polled_view d live_fields err = record (blank_view d.type) {
    icon_url =
        if d.icon_url == "" then default_header_widget_icon d.type live_fields else d.icon_url;
    fields = header_fields d.type live_fields;
    err = err;
  }

  live_view : HeaderWidget → Option Card → HeaderWidgetView
  unfolding polled_view
  live_view d none = polled_view d [] ""
  live_view d (some c) = polled_view d c.fields c.error

  pub view_of : Map Card → HeaderWidget → HeaderWidgetView
  unfolding live_view
  view_of live d =
      if d.type == header_type_greeting
      then record (blank_view d.type) { greeting = or_else (lookup "text" d.config) "" }
      else if d.type == header_type_datetime
      then record (blank_view d.type) { format = or_else (lookup "format" d.config) "" }
      else if d.type == header_type_logo
      then record (blank_view d.type) {
        icon_url = d.icon_url;
        href = or_else (lookup "href" d.config) "";
      }
      else live_view d (lookup d.key live)

  -- The loop of `partitionHeaderAlign`, over the views with their definitions.
  split_align : Map Card → List HeaderWidget → List HeaderWidgetView × List HeaderWidgetView
  unfolding view_of
  split_align live [] = ([], [])
  split_align live (d ∷ defs) =
      let (left, right) = split_align live defs in
      if d.align == align_right
      then (left, view_of live d ∷ right)
      else (view_of live d ∷ left, right)

  push_first : List HeaderWidgetView → List HeaderWidgetView
  push_first [] = []
  push_first (v ∷ right) = record v { push_right = true } ∷ right

  unfoldable pub build_header : List HeaderWidget → List Card → List HeaderWidgetView
  unfolding split_align push_first
  build_header defs cards =
      let (left, right) = split_align (live_cards cards []) defs in left ++ push_first right
