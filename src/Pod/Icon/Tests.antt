-- ===== src/Pod/Icon/Tests.antt =====
-- Icon names and their URLs.
use kubepage_operator.Prelude.{none, some, ◌≡◌, refl}
use kubepage_operator.Prelude.Format.{cut_prefix, cut_suffix, cut_last}
use kubepage_operator.Pod.Icon.{
  split_color_suffix, iconify_icon_url, hosted, selfhst_icon_url, by_prefix, icon_url,
}

icon_url_tests :
    (icon_url (λ s. s) (some "mdi-home-#ff0000")
      ≡ "https://api.iconify.design/mdi/home.svg?color=%23ff0000")
    × (icon_url (λ s. s) (some "si-github") ≡ "https://api.iconify.design/simple-icons/github.svg")
    × (icon_url (λ s. s) (some "sh-plex.webp")
        ≡ "https://cdn.jsdelivr.net/gh/selfhst/icons/webp/plex.webp")
    × (icon_url (λ s. s) (some "sonarr")
        ≡ "https://cdn.jsdelivr.net/gh/homarr-labs/dashboard-icons/png/sonarr.png")
    × (icon_url (λ s. s) (some "https://x/y.png") ≡ "https://x/y.png")
    × (icon_url (λ s. s) none ≡ "")
unfolding icon_url by_prefix selfhst_icon_url hosted iconify_icon_url split_color_suffix cut_prefix
    cut_suffix cut_last
icon_url_tests = (refl, refl, refl, refl, refl, refl)
