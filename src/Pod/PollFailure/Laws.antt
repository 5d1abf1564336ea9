-- ===== src/Pod/PollFailure/Laws.antt =====
-- The log's bound, and when a failure is logged.
use kubepage_operator.Prelude.{
  ◌≤◌, String, Bool, not, Option, List, [], ◌∷◌, ◌==◌, ◌≡◌, refl, leb, length, arith, Bool-cases,
  inl, inr, eq_iff, eq_refl,
}
use kubepage_operator.Prelude.Map
use kubepage_operator.Prelude.Map.{
  Map, lookup, lookup-set, lookup-delete, length-set, length-retain,
}
use kubepage_operator.Api.{or_empty}
use kubepage_operator.Pod.PollFailure.{
  FailureLog, max_poll_failure_keys, failure_reason, log_reason, log_poll_failure,
  clear_poll_failure,
}

-- What polls do to the log.
pub data Event : Type 0 where
  fails : String → Option String → String → Event
  recovers : String → Event

abbrev pub after : Event → FailureLog → FailureLog
after (fails key error msg) last = (log_poll_failure key error msg last).1
after (recovers key) last = clear_poll_failure key last

abbrev pub run : List Event → FailureLog → FailureLog
run [] last = last
run (e ∷ es) last = run es (after e last)

length-log_reason :
    (key reason before : String) (last : FailureLog)
    → length last ≤ max_poll_failure_keys
    → length (log_reason key reason before last).1 ≤ max_poll_failure_keys
unfolding log_reason
length-log_reason key reason before last h = elim (Bool-cases (before == reason)) [
  | inl same ↦ rw same h
  | inr other ↦ elim (Bool-cases (leb max_poll_failure_keys (length last))) [
    | inl full ↦ rw (other, full) (omega (arith, length-set key reason []))
    | inr room ↦ rw (other, room) (ground (arith, length-set key reason last))
  ]
]

length-after :
    (e : Event) (last : FailureLog)
    → length last ≤ max_poll_failure_keys
    → length (after e last) ≤ max_poll_failure_keys
unfolding log_poll_failure clear_poll_failure Map.delete
length-after (recovers key) last h = omega (arith, length-retain (λ j. not (j == key)) last)
length-after (fails key error msg) last h = length-log_reason key _ _ last h

-- Whatever targets fail and recover in whatever order, the log keeps at most 256 keys.
pub length-run :
    (es : List Event) (last : FailureLog)
    → length last ≤ max_poll_failure_keys
    → length (run es last) ≤ max_poll_failure_keys
length-run [] last h = h
length-run (e ∷ es) last h = length-run es (after e last) (length-after e last h)

abbrev pub is_logged : String → Option String → String → FailureLog → Bool
is_logged key error msg last = (log_poll_failure key error msg last).0

before_second :
    (key reason reason' before : String) (last : FailureLog)
    → or_empty (lookup key last) ≡ before
    → (log_reason key reason'
        (or_empty (lookup key (log_reason key reason before last).1))
        (log_reason key reason before last).1).0
      ≡ not (reason == reason')
unfolding log_reason
before_second key reason reason' before last stored = elim (Bool-cases (before == reason)) [
  | inl same ↦
      let e : before ≡ reason = (eq_iff before reason).0 same in rw (same, stored, e) (ground arith)
  | inr other ↦ rw (other, lookup-set, eq_refl) (ground arith)
]

after_clear :
    (key reason : String) (last : FailureLog)
    → (log_reason key reason (or_empty (lookup key (Map.delete key last))) (Map.delete key last)).0
      ≡ not ("" == reason)
unfolding log_reason
after_clear key reason last = rw (lookup-delete, eq_refl) (ground arith)

-- After a failure, another of the same target is logged exactly if its reason is another; one that
-- comes after a recovery is logged, whatever its reason, unless that is empty.
pub log_poll_failure_lem :
    (key msg msg' : String) (error error' : Option String) (last : FailureLog)
    → (is_logged key error' msg' (after (fails key error msg) last)
        ≡ not (failure_reason msg error == failure_reason msg' error'))
      × (is_logged key error' msg' (clear_poll_failure key (after (fails key error msg) last))
          ≡ not ("" == failure_reason msg' error'))
unfolding log_poll_failure clear_poll_failure
log_poll_failure_lem key msg msg' error error' last = (
  before_second key (failure_reason msg error) (failure_reason msg' error') _ last refl,
  after_clear key (failure_reason msg' error') _,
)
