-- ===== src/Pod/HeaderWidgets.antt =====
-- internal/dashboard/site.go, headerWidgets: the header widgets that the page defines.
pub mod Agreement
mod Tests
use Prim.Native.Nat.{Ordering, compare}
use kubepage_operator.Prelude.{
  ℕ, ◌+◌, String, Bool, true, false, Option, none, some, ℤ, List, [], ◌∷◌, ◌++◌, map, ◌==◌, ◌||◌,
  if◌then◌else◌,
}
use kubepage_operator.Prelude.Format.{Format, text}
use kubepage_operator.Prelude.Map
use kubepage_operator.Prelude.Map.{Map}
use kubepage_operator.Prelude.Order.{then_compare, compare_text}
use kubepage_operator.Prelude.Sort.{sort_func}
use kubepage_operator.Api.{InfoWidgetEntry, InfoWidget, bound_to, ref_name, info_widget_entries}
use kubepage_operator.Pod.Icon.{icon_url}
use kubepage_operator.Pod.Store.{compare_order}

abbrev pub align_left : String
align_left = "left"

abbrev pub align_right : String
align_right = "right"

abbrev pub header_type_greeting : String
header_type_greeting = "greeting"

abbrev pub header_type_datetime : String
header_type_datetime = "datetime"

pub record HeaderWidget : Type 0 where
  pub key : String
  pub name : String
  pub type : String
  pub order : Option ℤ
  pub icon_url : String
  pub config : Map String
  pub align : String

-- headerWidget
pub record FlatWidget : Type 0 where
  pub name : String
  pub idx : ℕ
  pub widget : InfoWidgetEntry

-- A value of a JSON object as `json.Unmarshal` gives it; a number as `strconv.FormatFloat` prints it.
pub data ConfigValue : Type 0 where
  string : String → ConfigValue
  bool : Bool → ConfigValue
  float : String → ConfigValue
  nested : ConfigValue

flatten : String → ℕ → List InfoWidgetEntry → List FlatWidget
flatten name idx [] = []
flatten name idx (e ∷ entries) =
    record { name = name; idx = idx; widget = e } ∷ flatten name (idx + 1) entries

flatten_bound : String → ℕ → List InfoWidget → List FlatWidget
unfolding flatten
flatten_bound dashboard_name count [] = []
flatten_bound dashboard_name count (w ∷ items) =
    let others = flatten_bound dashboard_name count items in
    if bound_to (ref_name w.dashboard_ref) dashboard_name count
    then flatten w.name 0 (info_widget_entries w) ++ others
    else others

compare_flat : FlatWidget → FlatWidget → Ordering
compare_flat a b =
    then_compare (compare_order a.widget.order b.widget.order)
      (then_compare (compare_text a.name b.name) (compare a.idx b.idx))

unfoldable pub default_header_align : String → String
default_header_align widget_type =
    if widget_type == header_type_greeting || widget_type == header_type_datetime
    then align_left
    else align_right

align_of : InfoWidgetEntry → String
unfolding default_header_align
align_of e = elim e.align [
  | none ↦ default_header_align e.type
  | some align ↦ if align == align_right then align_right else align_left
]

add_scalar : String → ConfigValue → Map String → Map String
add_scalar k (string s) cfg = Map.set k s cfg
add_scalar k (bool b) cfg = Map.set k (if b then "true" else "false") cfg
add_scalar k (float s) cfg = Map.set k s cfg
add_scalar k nested cfg = cfg

add_scalars : Map ConfigValue → Map String → Map String
unfolding add_scalar
add_scalars [] cfg = cfg
add_scalars ((k, v) ∷ m) cfg = add_scalars m (add_scalar k v cfg)

-- `unmarshal` is `json.Unmarshal` into a map, or none on its error.
unfoldable pub scalar_config : (String → Option (Map ConfigValue)) → Option String → Map String
unfolding add_scalars
scalar_config unmarshal none = []
scalar_config unmarshal (some raw) =
    if raw == "" then [] else elim (unmarshal raw) [ none ↦ [] | some m ↦ add_scalars m [] ]

module _ (fmt : Format) (to_lower : String → String)
    (unmarshal : String → Option (Map ConfigValue)) where
  pub to_header_widget : FlatWidget → HeaderWidget
  unfolding align_of
  to_header_widget hw = record {
    key = text ("header/" ∷ hw.name ∷ "/" ∷ fmt.decimal hw.idx ∷ []);
    name = hw.name;
    type = hw.widget.type;
    order = hw.widget.order;
    icon_url = icon_url to_lower hw.widget.icon;
    config = scalar_config unmarshal hw.widget.config;
    align = align_of hw.widget;
  }

  unfoldable pub header_widgets : List InfoWidget → String → ℕ → List HeaderWidget
  unfolding flatten_bound compare_flat to_header_widget
  header_widgets items dashboard_name count =
      map to_header_widget (sort_func compare_flat (flatten_bound dashboard_name count items))
