-- ===== src/Pod/PollFailure.antt =====
-- internal/dashboard/pollfailure.go: each failure of a target is logged once, until its reason
-- changes or the target recovers.
pub mod Laws
mod Tests
use kubepage_operator.Prelude.{
  ℕ, String, Bool, true, false, Option, none, some, List, [], ◌∷◌, ◌==◌, leb, length, if◌then◌else◌,
}
use kubepage_operator.Prelude.Format.{text}
use kubepage_operator.Prelude.Map
use kubepage_operator.Prelude.Map.{Map}
use kubepage_operator.Api.{or_empty}

abbrev pub max_poll_failure_keys : ℕ
max_poll_failure_keys = 256

-- The last logged reason by key.
abbrev pub FailureLog : Type 0
FailureLog = Map String

abbrev failure_reason : String → Option String → String
failure_reason msg none = msg
failure_reason msg (some e) = text (msg ∷ ": " ∷ e ∷ [])

-- By the reason logged before.
log_reason : String → String → String → FailureLog → Bool × FailureLog
log_reason key reason before last =
    let room = if leb max_poll_failure_keys (length last) then [] else last in
    if before == reason then (false, last) else (true, Map.set key reason room)

-- Whether the failure is logged, and the new state.
unfoldable pub log_poll_failure : String → Option String → String → FailureLog → Bool × FailureLog
unfolding log_reason
log_poll_failure key error msg last =
    log_reason key (failure_reason msg error) (or_empty (Map.lookup key last)) last

unfoldable pub clear_poll_failure : String → FailureLog → FailureLog
clear_poll_failure key last = Map.delete key last
