-- ===== src/Pod/Store/Tests.antt =====
-- A store of two cards.
use mathlib.Core.List.{Permᴰ}
use kubepage_operator.Prelude.{true, false, none, some, [], ◌∷◌, ◌≡◌, refl, negsuc}
use kubepage_operator.Prelude.Map
use kubepage_operator.Prelude.Order.{compare_text}
use kubepage_operator.Prelude.Sort.{sort_func, insert_func}
use kubepage_operator.Pod.Store.{
  Card, Store, new_store, set, get, prune, compare_order, compare_cards, snapshot,
}
use kubepage_operator.Pod.Store.Laws.{AreInOrder, snapshot_lem}

abbrev sonarr_card : Card
sonarr_card = record {
  key = "servicecard/apps/media/0/0";
  group = "Media";
  service_name = "Sonarr";
  widget_type = "sonarr";
  order = none;
  icon_url = "";
  description = "";
  href = "";
  target = "";
  header = false;
  show_stats = true;
  hide_errors = false;
  status = "";
  status_style = "";
  latency = "";
  pod_status = "";
  pod_ready_text = "";
  fields = [];
  error = "";
  updated_at = 0;
}

-- A negative order, as `negsuc 0` writes -1, is before an unset one.
abbrev plex_card : Card
plex_card = record sonarr_card {
  key = "servicecard/apps/media/1/0";
  service_name = "Plex";
  order = some (negsuc 0);
}

abbrev two_cards : Store
two_cards =
    ("servicecard/apps/media/0/0", sonarr_card) ∷ ("servicecard/apps/media/1/0", plex_card) ∷ []

store_tests :
    (set plex_card (set sonarr_card new_store) ≡ two_cards)
    × (snapshot two_cards ≡ plex_card ∷ sonarr_card ∷ [])
    × (get "servicecard/apps/media/1/0" two_cards ≡ some plex_card)
    × (prune ("servicecard/apps/media/1/0" ∷ []) two_cards
        ≡ ("servicecard/apps/media/1/0", plex_card) ∷ [])
unfolding set get prune snapshot Map.set Map.lookup Map.retain compare_cards compare_order sort_func
    insert_func compare_text
store_tests = (refl, refl, refl, refl)

snapshot_lem_example :
    AreInOrder (snapshot two_cards) × Permᴰ (snapshot two_cards) (Map.values two_cards)
snapshot_lem_example = snapshot_lem two_cards
