-- ===== src/Pod/Schedule/Spacing.antt =====
-- How far apart the polls of a widget are.
use kubepage_operator.Prelude.{
  ℕ, suc, ◌-◌, ◌*◌, String, true, not, some, List, ◌≡◌, refl, ltb, leb, max, contains, pos, arith,
  Bool-cases, inl, inr, eq_refl,
}
use kubepage_operator.Prelude.Map.{lookup, lookup-set, lookup-retain}
use kubepage_operator.Pod.Schedule.{
  Schedule, second, is_recent, due_after, due_poll, prune_widget_last_polled,
}

not_recent : (a b : ℕ) → not (ltb a b) ≡ leb b a
not_recent a b = ground arith

after_poll :
    (interval key_time : ℕ) (key : String) (period now later now' later' : ℕ) (s : Schedule)
    → key_time ≡ later
    → lookup key s.widget_last_polled ≡ some key_time
    → (due_after interval key (some period) now' later' s).0
      ≡ leb (max (period * second) interval) (now' - later)
unfolding due_after
after_poll interval key_time key period now later now' later' s e stored =
    elim (Bool-cases (ltb (now' - later) (max (period * second) interval))) [
      | inl recent ↦ rw (stored, e, recent) (ground arith)
      | inr old ↦ rw (stored, e, old) (ground arith)
    ]

stored_time :
    (interval : ℕ) (key : String) (period now later : ℕ) (s : Schedule)
    → (due_after interval key (some period) now later s).0 ≡ true
    → lookup key (due_after interval key (some period) now later s).1.widget_last_polled
      ≡ some later
unfolding due_after
stored_time interval key period now later s due =
    elim (Bool-cases
      (is_recent now (max (period * second) interval) (lookup key s.widget_last_polled))) [
        | inl recent ↦ cc (rw recent at due)
        | inr old ↦ rw (old, lookup-set, eq_refl) refl
      ]

-- A widget with an override of some seconds that is found due, and whose record survives a cycle's
-- pruning, is due again exactly when as many seconds have passed since as the override says, or the
-- poller's own interval if that is longer.
pub due_poll-due_poll :
    (interval : ℕ) (key : String) (n now later now' later' : ℕ) (keep : List String) (s : Schedule)
    → contains keep key ≡ true
    → (due_poll interval key (some (pos (suc n))) now later s).0 ≡ true
    → (due_poll interval key (some (pos (suc n))) now' later' (
        prune_widget_last_polled keep (due_poll interval key (some (pos (suc n))) now later s).1)).0
      ≡ leb (max (suc n * second) interval) (now' - later)
unfolding due_poll prune_widget_last_polled
due_poll-due_poll interval key n now later now' later' keep s kept due =
    after_poll interval later key (suc n) now later now' later' _ refl
      (rw (lookup-retain, kept, stored_time interval key (suc n) now later s due) refl)
