-- ===== src/Controller/Rbac/Tests.antt =====
-- The Role of the dashboard pod of `home`.
use kubepage_operator.Prelude.{
  String, true, false, none, some, List, [], ◌∷◌, ◌≡◌, refl, ◌==◌, ◌&&◌, any, contains, inl, ◌↔◌,
  ◌⊎◌,
}
use kubepage_operator.Prelude.Map.{lookup}
use kubepage_operator.Prelude.Order.{compare_text}
use kubepage_operator.Prelude.Result.{ok}
use kubepage_operator.Prelude.Sort.{sort, sort_func, insert_func}
use kubepage_operator.Api.{
  bound_to, ref_name, service_entries, Dashboard, info_widget_entries, has_source,
}
use kubepage_operator.Cluster.{not_found, found}
use kubepage_operator.Controller.Binding.{namespace_dashboard_count}
use kubepage_operator.Pod.Secrets.Reads.{widget_credentials}
use kubepage_operator.Controller.Rbac.{
  card_names, info_names, add_names, label_check, filter_labeled_secrets, all_references,
  referenced_secret_names, auth_secret_names, compact_from, compact, add_auth_names, equal_slices,
  string_slices_equal_sorted, policy_rules_equal, keep_role, create_role, change_role, role_names,
  reconcile_role, dashboard_roles, discovery_rules, secret_rules,
}
use kubepage_operator.Controller.Rbac.Exact.{IsPermitted, IsAuthSecret, role_names_exact}
use kubepage_operator.Controller.Rbac.Referenced.{IsReferenced}
use kubepage_operator.Controller.Rbac.Rules.{dashboard_roles_secrets, grants}
use kubepage_operator.Controller.Rbac.Sufficiency.{
  IsRole, restrict, service_widget_role_suffices, info_widget_role_suffices,
}
use kubepage_operator.Fixtures.{
  plain_format, sonarr, media_entry, media_card, weather, header, home, server, secrets,
  scan_ingresses,
}

role_computed : Unit {0}
unfolding role_names referenced_secret_names all_references card_names info_names add_names
    add_auth_names compact compact_from auth_secret_names namespace_dashboard_count bound_to
    ref_name service_entries sort sort_func insert_func lookup filter_labeled_secrets label_check
    reconcile_role change_role policy_rules_equal string_slices_equal_sorted equal_slices
    dashboard_roles discovery_rules secret_rules info_widget_entries compare_text has_source
role_computed = tt

abbrev home_names : List String
home_names = "defaults" ∷ "login" ∷ "shared" ∷ "sonarr" ∷ "weather" ∷ []

abbrev labeled_home : Dashboard
labeled_home = record home { secret_policy = some "Labeled" }

role_names_tests :
    (role_names plain_format server secrets home ≡ ok home_names)
    × (role_names plain_format server secrets labeled_home ≡ ok ("login" ∷ []))
unfolding role_computed
role_names_tests = (refl, refl)

reconcile_role_tests :
    (reconcile_role plain_format server secrets (λ ns n. not_found) none false home
      ≡ ok (create_role (dashboard_roles home_names (some scan_ingresses) false)))
    × (reconcile_role plain_format server secrets
          (λ ns n. found (dashboard_roles home_names (some scan_ingresses) false))
          none
          true
          home
        ≡ ok keep_role)
unfolding role_computed
reconcile_role_tests = (refl, refl)

home-IsRole :
    IsRole plain_format server secrets secrets home home_names 1 (media_card ∷ []) (header ∷ [])
unfolding role_computed
home-IsRole = record {
  role = refl;
  unlabeled = refl;
  counted = refl;
  cards_listed = refl;
  infos_listed = refl;
}

service_widget_role_suffices_example :
    widget_credentials plain_format
      (restrict home_names secrets)
      "apps"
      "sonarr"
      sonarr.secrets
      (some "shared")
      none
      home.widget_defaults
    ≡ widget_credentials plain_format secrets "apps" "sonarr" sonarr.secrets
        (some "shared")
        none
        home.widget_defaults
unfolding role_computed
service_widget_role_suffices_example =
    service_widget_role_suffices plain_format server secrets secrets home home-IsRole media_card
      (record media_entry { group = "Media" }) sonarr (inl refl) refl (inl refl) (inl refl)

info_widget_role_suffices_example :
    widget_credentials plain_format
      (restrict home_names secrets)
      "apps"
      "openweathermap"
      weather.secrets
      none
      none
      home.widget_defaults
    ≡ widget_credentials plain_format secrets "apps" "openweathermap" weather.secrets none none
        home.widget_defaults
unfolding role_computed
info_widget_role_suffices_example =
    info_widget_role_suffices plain_format server secrets secrets home home-IsRole header weather
      (inl refl) refl (inl refl)

role_names_exact_example : (contains ("login" ∷ []) "sonarr" ≡ true) ↔ (
    (IsReferenced labeled_home 1 (media_card ∷ []) (header ∷ []) "sonarr"
      × IsPermitted secrets labeled_home "sonarr")
    ⊎ IsAuthSecret labeled_home "sonarr")
unfolding role_computed
role_names_exact_example =
    role_names_exact plain_format server secrets labeled_home "sonarr" ("login" ∷ []) 1
      (media_card ∷ []) (header ∷ []) refl refl refl refl

dashboard_roles_secrets_example :
    any
      (grants "" "secrets" "list" "sonarr")
      (dashboard_roles home_names (some scan_ingresses) true)
    ≡ ("list" == "get" && contains home_names "sonarr")
dashboard_roles_secrets_example =
    dashboard_roles_secrets "list" "sonarr" home_names (some scan_ingresses) true
