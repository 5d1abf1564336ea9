-- ===== src/Pod/PollFailure/Tests.antt =====
-- A target that fails twice alike, recovers, and fails again.
use kubepage_operator.Prelude.{true, false, not, none, some, List, [], ◌∷◌, ◌==◌, ◌≡◌, refl}
use kubepage_operator.Prelude.Map
use kubepage_operator.Pod.PollFailure.{log_poll_failure, clear_poll_failure}
use kubepage_operator.Pod.PollFailure.Laws.{
  Event, fails, recovers, run, is_logged, log_poll_failure_lem,
}

abbrev history : List Event
history = fails "a" none "down" ∷ fails "b" (some "refused") "down" ∷ recovers "a" ∷ []

log_poll_failure_tests :
    (run history [] ≡ ("b", "down: refused") ∷ [])
    × (is_logged "b" (some "refused") "down" (run history []) ≡ false)
    × (is_logged "a" none "down" (run history []) ≡ true)
unfolding log_poll_failure clear_poll_failure Map.lookup Map.set Map.delete Map.retain
log_poll_failure_tests = (refl, refl, refl)

log_poll_failure_lem_example :
    (is_logged "a" none "up" (log_poll_failure "a" none "down" []).1 ≡ not ("down" == "up"))
    × (is_logged "a" none "up" (clear_poll_failure "a" (log_poll_failure "a" none "down" []).1)
        ≡ not ("" == "up"))
log_poll_failure_lem_example = log_poll_failure_lem "a" "down" "up" none none []
