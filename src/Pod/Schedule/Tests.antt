-- ===== src/Pod/Schedule/Tests.antt =====
-- A widget with an override of 60 seconds, under a poller with an interval of 15.
use kubepage_operator.Prelude.{
  ◌*◌, ◌-◌, true, false, some, [], ◌∷◌, ◌≡◌, refl, pos, negsuc, leb, max,
}
use kubepage_operator.Prelude.Map
use kubepage_operator.Pod.Schedule.{Schedule, second, due_after, due_poll, prune_widget_last_polled}
use kubepage_operator.Pod.Schedule.Spacing.{due_poll-due_poll}

abbrev empty_schedule : Schedule
empty_schedule = record { widget_last_polled = []; clamp_warned = [] }

due_poll_tests :
    (due_poll (15 * second) "w" (some (pos 60)) 5 6 empty_schedule
      ≡ (true, record { widget_last_polled = ("w", 6) ∷ []; clamp_warned = [] }))
    × (due_poll
          (15 * second)
          "w"
          (some (pos 5))
          9
          9
          (record { widget_last_polled = ("w", 6) ∷ []; clamp_warned = [] })
        ≡ (false, record { widget_last_polled = ("w", 6) ∷ []; clamp_warned = "w" ∷ [] }))
    × (due_poll (15 * second) "w" (some (negsuc 0)) 9 9 empty_schedule ≡ (true, empty_schedule))
unfolding due_poll due_after Map.lookup Map.set
due_poll_tests = (refl, refl, refl)

due_poll-due_poll_example :
    (due_poll (15 * second) "w" (some (pos 60)) (30 * second) (30 * second) (
      prune_widget_last_polled
        ("w" ∷ [])
        (due_poll (15 * second) "w" (some (pos 60)) 5 6 empty_schedule).1)).0
    ≡ leb (max (60 * second) (15 * second)) (30 * second - 6)
unfolding due_poll due_after Map.lookup Map.set
due_poll-due_poll_example =
    due_poll-due_poll (15 * second) "w" 59 5 6 (30 * second) (30 * second) ("w" ∷ []) empty_schedule
      refl refl
