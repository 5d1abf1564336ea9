-- ===== src/Controller/Binding/Tests.antt =====
-- The binding of config objects in a namespace with one Dashboard, and with two.
use kubepage_operator.Prelude.{true, false, List, [], ◌∷◌, ◌≡◌, ◌≤◌, refl, any, length, select}
use kubepage_operator.Prelude.Order.{compare_text}
use kubepage_operator.Prelude.Format.{join}
use kubepage_operator.Prelude.Sort.{sort, sort_func, insert_func}
use kubepage_operator.Api.{bound_to, Dashboard}
use kubepage_operator.Controller.Binding.{
  explicit_condition, default_condition, listed_condition, bound_dashboard_condition,
}
use kubepage_operator.Controller.Binding.Agreement.{
  is_available, condition-bound_to, bound_to_unique,
}
use kubepage_operator.Fixtures.{plain_format, home, boards, server, server-Serves}

abbrev two_boards : List Dashboard
two_boards = home ∷ record home { name = "lab" } ∷ []

binding_tests :
    (is_available (bound_dashboard_condition plain_format server "apps" "" 1) ≡ true)
    × (is_available (bound_dashboard_condition plain_format server "apps" "home" 1) ≡ true)
    × (is_available (bound_dashboard_condition plain_format server "apps" "lab" 1) ≡ false)
    × ((default_condition plain_format "apps" 1 two_boards).message
        ≡ "dashboardRef is not set and namespace apps has multiple Dashboards (home, lab); set dashboardRef to disambiguate")
unfolding bound_dashboard_condition explicit_condition listed_condition default_condition sort
    sort_func insert_func compare_text join
binding_tests = (refl, refl, refl, refl)

condition-bound_to_example :
    is_available (bound_dashboard_condition plain_format server "apps" "home" 1)
    ≡ any (λ d. bound_to "home" d.name 1) boards
condition-bound_to_example =
    condition-bound_to plain_format server "apps" "home" 1 boards server-Serves

bound_to_unique_example : length (select (λ d. bound_to "lab" d.name 2) two_boards) ≤ 1
bound_to_unique_example = bound_to_unique "lab" two_boards (refl, (refl, tt))
