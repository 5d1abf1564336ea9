-- ===== src/Pod/HeaderWidgets/Tests.antt =====
-- The header widget of the fixtures, whose type is registered here.
use kubepage_operator.Prelude.{none, some, [], ◌∷◌, refl, inl, if◌then◌else◌, ◌==◌}
use kubepage_operator.Prelude.Sort.{sort_func, insert_func}
use kubepage_operator.Api.{bound_to, ref_name, info_widget_entries}
use kubepage_operator.Pod.Icon.{icon_url}
use kubepage_operator.Pod.HeaderWidgets.{
  flatten, flatten_bound, align_of, default_header_align, scalar_config, to_header_widget,
  header_widgets,
}
use kubepage_operator.Pod.HeaderWidgets.Agreement.{IsPolled, header_widgets-info_widget_jobs}
use kubepage_operator.Pod.Work.{Cycling}
use kubepage_operator.Fixtures.{header, failing, cycling, header_widget}

abbrev with_weather : Cycling
with_weather = record cycling {
  polling = record cycling.polling {
    lookup = λ type. if type == "openweathermap" then some (λ ca_pem. failing) else none;
  };
}

header_widgets-info_widget_jobs_example :
    IsPolled with_weather 1 (header ∷ []) "header/header/0" "openweathermap"
unfolding header_widgets to_header_widget flatten_bound flatten sort_func insert_func bound_to
    ref_name info_widget_entries align_of default_header_align scalar_config icon_url
header_widgets-info_widget_jobs_example =
    header_widgets-info_widget_jobs with_weather (λ s. s) (λ raw. none) 1 (header ∷ [])
      (header_widget "header/header/0" "openweathermap" "right") refl (inl refl)
