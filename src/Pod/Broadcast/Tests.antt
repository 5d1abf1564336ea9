-- ===== src/Pod/Broadcast/Tests.antt =====
-- A subscriber that reads after two cycles, and a page that is told of a change of its header.
use kubepage_operator.Prelude.{true, some, none, [], ◌∷◌, ◌≡◌, refl}
use kubepage_operator.Pod.Broadcast.{
  SseHashes, Broadcaster, Stream, new_broadcaster, subscribe, publish, receive, header_changed,
  on_hashes,
}
use kubepage_operator.Pod.Broadcast.Delivery.{
  at_start, after, subscribes, publishes, IsSound, IsReachable-IsSound, publish_each,
  receive-publish,
}
use kubepage_operator.Pod.Broadcast.Events.{news, latest, on_hashes_lem}

abbrev morning : SseHashes
morning = record { fragment = "f1"; header = "h1" }

abbrev noon : SseHashes
noon = record { fragment = "f1"; header = "h2" }

abbrev one_page : Broadcaster
one_page = record { next = 1; subs = record { id = 0; buffer = none } ∷ [] }

one_page_test : (subscribe new_broadcaster).1 ≡ one_page
unfolding subscribe
one_page_test = refl

IsReachable-IsSound_example : IsSound (publish morning (subscribe new_broadcaster).1)
IsReachable-IsSound_example =
    IsReachable-IsSound (publish morning (subscribe new_broadcaster).1)
      (after (after at_start subscribes) (publishes morning))

receive-publish_example :
    ((receive 0 (publish noon (publish_each (morning ∷ []) one_page))).0 ≡ some noon)
    × ((receive 0 (receive 0 (publish noon (publish_each (morning ∷ []) one_page))).1).0 ≡ none)
receive-publish_example = receive-publish 0 (morning ∷ []) noon one_page refl

abbrev page : Stream
page = record { last_fragment = "f1"; last_header = "h1"; written = [] }

on_hashes_lem_example :
    on_hashes (λ written s. true) noon page
    ≡ some (record { last_fragment = "f1"; last_header = "h2"; written = header_changed ∷ [] })
unfolding news latest
on_hashes_lem_example = on_hashes_lem (λ written s. true) noon page (λ written s. refl)
