-- ===== src/Pod/Cycle/Tests.antt =====
-- A cycle of the fixtures' Dashboard, whose widget fails, from a store with a card of a deleted object.
use kubepage_operator.Prelude.{true, false, none, [], ◌∷◌, ◌≡◌, refl, inl, is_some, length, arith}
use kubepage_operator.Api.{bound_to, ref_name, service_entries}
use kubepage_operator.Pod.Merge.Keys.{widget_key}
use kubepage_operator.Pod.Store
use kubepage_operator.Pod.Work.{Poller}
use kubepage_operator.Pod.Cycle.{poll_once}
use kubepage_operator.Pod.Cycle.Current.{IsCurrent, poll_once-IsCurrent, poll_once-widget}
use kubepage_operator.Fixtures.{cycling, plain_format, media_entry, media_card, boards, start}

abbrev idle : Poller cycling
idle = record {
  poll = start;
  gauges = [];
  monitor_labels = [];
  warned_http_route = false;
  broadcast = none;
}

poll_once-widget_example :
    is_some (
      Store.get
        (widget_key plain_format "apps" "media" 0 0)
        (poll_once cycling (λ jobs. jobs) idle).poll.store)
    ≡ true
unfolding bound_to ref_name service_entries
poll_once-widget_example =
    poll_once-widget cycling (λ jobs. jobs) idle boards (media_card ∷ []) media_card 0
      (record media_entry { group = "Media" }) 0 refl refl (λ jobs job i. i) (inl refl) refl refl
      (omega arith)

poll_once-IsCurrent_example :
    IsCurrent cycling (length boards) (media_card ∷ []) (widget_key plain_format "apps" "media" 0 0)
unfolding bound_to ref_name service_entries
poll_once-IsCurrent_example =
    poll_once-IsCurrent cycling (λ jobs. jobs) idle boards (media_card ∷ [])
      (widget_key plain_format "apps" "media" 0 0) refl refl (λ jobs job i. i)
      (poll_once-widget cycling (λ jobs. jobs) idle boards (media_card ∷ []) media_card 0
        (record media_entry { group = "Media" }) 0 refl refl (λ jobs job i. i) (inl refl) refl refl
        (omega arith))
