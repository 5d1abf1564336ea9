-- ===== src/Pod/Schedule.antt =====
-- internal/dashboard/poller.go, duePoll and pruneWidgetLastPolled: which widgets are due in a cycle.
pub mod Spacing
mod Tests
use kubepage_operator.Prelude.{
  ℕ, zero, suc, ◌+◌, ◌-◌, ◌*◌, String, Bool, true, false, not, Option, none, some, List, [], ◌∷◌,
  ◌==◌, ◌&&◌, ltb, max, contains, select, if◌then◌else◌, ℤ, pos, negsuc,
}
use kubepage_operator.Prelude.Map
use kubepage_operator.Prelude.Map.{Map}

-- Times and durations are in nanoseconds. An `int32` of seconds is below 2^63 nanoseconds.
abbrev pub second : ℕ
second = 1000000000

-- When the widgets with an override were polled last, and whose override has been warned of.
pub record Schedule : Type 0 where
  pub widget_last_polled : Map ℕ
  pub clamp_warned : List String

-- The number of seconds where it is above zero.
abbrev pub seconds_of : Option ℤ → Option ℕ
seconds_of none = none
seconds_of (some (pos zero)) = none
seconds_of (some (pos (suc n))) = some (suc n)
seconds_of (some (negsuc n)) = none

abbrev is_recent : ℕ → ℕ → Option ℕ → Bool
is_recent now interval none = false
is_recent now interval (some last) = ltb (now - last) interval

-- With a period in seconds. The code's two reads of the clock are `now` and `later`.
due_after : ℕ → String → Option ℕ → ℕ → ℕ → Schedule → Bool × Schedule
due_after poller_interval key none now later s = (true, s)
due_after poller_interval key (some period) now later s =
    let requested = period * second in
    let interval = max requested poller_interval in
    let warned =
      if ltb requested poller_interval && not (contains s.clamp_warned key)
      then key ∷ s.clamp_warned
      else s.clamp_warned in
    if is_recent now interval (Map.lookup key s.widget_last_polled)
    then (false, record s { clamp_warned = warned })
    else (
      true,
      record { widget_last_polled = Map.set key later s.widget_last_polled; clamp_warned = warned },
    )

unfoldable pub due_poll : ℕ → String → Option ℤ → ℕ → ℕ → Schedule → Bool × Schedule
unfolding due_after
due_poll poller_interval key override_seconds now later s =
    due_after poller_interval key (seconds_of override_seconds) now later s

-- `keep` is the map from the kept keys to true.
unfoldable pub prune_widget_last_polled : List String → Schedule → Schedule
prune_widget_last_polled keep s = record {
  widget_last_polled = Map.retain (contains keep) s.widget_last_polled;
  clamp_warned = select (contains keep) s.clamp_warned;
}
