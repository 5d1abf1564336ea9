-- ===== src/Pod/BaseUrl/Tests.antt =====
-- The base URL of the fixtures' entry, by its internalUrl.
use kubepage_operator.Prelude.{some, [], ◌∷◌, ◌≡◌, refl}
use kubepage_operator.Prelude.Format.{Format}
use kubepage_operator.Api.{ServiceEntry, base_url}
use kubepage_operator.Pod.BaseUrl.{
  auto_internal_url_port, lookup_auto_service, named_service, labeled_service, listed_service,
  service_url, app_url, resolve_auto_internal_url, internal_or_href, resolve_base_url,
}
use kubepage_operator.Pod.BaseUrl.Laws.{AgreeAllowed, resolve_base_url-base_url}
use kubepage_operator.Fixtures.{plain_format, media_entry, monitors_with, ready_pod}

abbrev decimal_format : Format
decimal_format = record { quote = λ s. s; decimal = λ n. "8989" }

abbrev auto_entry : ServiceEntry
auto_entry = record media_entry { internal_url = some "auto"; app = some "sonarr" }

abbrev foreign_entry : ServiceEntry
foreign_entry = record auto_entry { namespace = some "other" }

base_urls_computed : Unit {0}
unfolding resolve_base_url internal_or_href resolve_auto_internal_url app_url service_url
    lookup_auto_service named_service labeled_service listed_service auto_internal_url_port
base_urls_computed = tt

resolve_base_url_tests :
    (resolve_base_url decimal_format (monitors_with []) "apps" [] auto_entry ""
      ≡ ("http://sonarr.apps.svc.cluster.local:8989", ""))
    × (resolve_base_url decimal_format (monitors_with []) "apps" [] foreign_entry "" ≡ (
      "",
      "internalUrl: auto namespace other is not allowed: add it to this Dashboard's spec.monitorNamespaces",
    ))
    × (resolve_base_url decimal_format (monitors_with []) "apps" ("other" ∷ []) foreign_entry "" ≡ (
      "",
      "internalUrl: auto found no Service named sonarr or labeled app.kubernetes.io/name=sonarr in namespace other",
    ))
unfolding base_urls_computed
resolve_base_url_tests = (refl, refl, refl)

resolve_base_url-base_url_example :
    resolve_base_url plain_format (monitors_with []) "apps" [] media_entry ""
    ≡ (base_url media_entry, "")
resolve_base_url-base_url_example =
    resolve_base_url-base_url plain_format (monitors_with []) "apps" [] media_entry "" refl refl

other_pods-AgreeAllowed :
    AgreeAllowed plain_format (monitors_with []) (monitors_with (ready_pod ∷ [])) "apps" []
other_pods-AgreeAllowed = record {
  same_reader = refl;
  same_selectors = refl;
  same_preview = refl;
  same_sample = refl;
  services = λ ns h. refl;
  labeled = λ ns h. refl;
  pods = λ ns h. cc h;
}
