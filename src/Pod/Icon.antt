-- ===== src/Pod/Icon.antt =====
-- internal/dashboard/icon.go: an icon's name becomes a URL. `to_lower` is `strings.ToLower`.

mod Tests
use kubepage_operator.Prelude.{String, Option, none, some, List, [], ◌∷◌, ◌==◌, ◌||◌, if◌then◌else◌}
use kubepage_operator.Prelude.Format.{text, has_prefix, cut_prefix, cut_suffix, cut_last}

abbrev dashboard_icons_base_url : String
dashboard_icons_base_url = "https://cdn.jsdelivr.net/gh/homarr-labs/dashboard-icons/png/"

abbrev iconify_base_url : String
iconify_base_url = "https://api.iconify.design/"

abbrev selfhst_icons_base_url : String
selfhst_icons_base_url = "https://cdn.jsdelivr.net/gh/selfhst/icons/"

unfoldable pub split_color_suffix : String → String × String
split_color_suffix slug = elim (cut_last "-#" slug) [ some parts ↦ parts | none ↦ (slug, "") ]

module _ (to_lower : String → String) where
  unfoldable pub iconify_icon_url : String → String → String
  iconify_icon_url set_name slug =
      let (name, color) = split_color_suffix slug in
      let url = text (iconify_base_url ∷ set_name ∷ "/" ∷ to_lower name ∷ ".svg" ∷ []) in
      if color == "" then url else text (url ∷ "?color=%23" ∷ color ∷ [])

  -- The loop over the extensions, each with its format.
  hosted : String → List (String × String) → String
  hosted slug [] = text (selfhst_icons_base_url ∷ "png/" ∷ to_lower slug ∷ ".png" ∷ [])
  hosted slug ((ext, format) ∷ rest) = elim (cut_suffix ext slug) [
    | some name ↦ text (selfhst_icons_base_url ∷ format ∷ "/" ∷ to_lower name ∷ ext ∷ [])
    | none ↦ hosted slug rest
  ]

  unfoldable pub selfhst_icon_url : String → String
  unfolding hosted
  selfhst_icon_url slug = hosted slug ((".svg", "svg") ∷ (".png", "png") ∷ (".webp", "webp") ∷ [])

  -- The chain of `strings.CutPrefix`: a prefix and the Iconify set that it stands for.
  by_prefix : String → List (String × String) → String
  by_prefix v [] = elim (cut_prefix "sh-" v) [
    | some rest ↦ selfhst_icon_url rest
    | none ↦ text (dashboard_icons_base_url ∷ to_lower v ∷ ".png" ∷ [])
  ]
  by_prefix v ((prefix, set_name) ∷ others) = elim (cut_prefix prefix v) [
    | some rest ↦ iconify_icon_url set_name rest
    | none ↦ by_prefix v others
  ]

  unfoldable pub icon_url : Option String → String
  unfolding by_prefix
  icon_url none = ""
  icon_url (some v) =
      if v == ""
      then ""
      else if has_prefix v "http://" || has_prefix v "https://"
      then v
      else by_prefix v (
          ("mdi-", "mdi")
          ∷ ("si-", "simple-icons")
          ∷ ("lucide-", "lucide")
          ∷ ("wi-", "wi")
          ∷ ("fa6-solid-", "fa6-solid")
          ∷ [])
