-- ===== src/Pod/Broadcast.antt =====
-- internal/dashboard/sse.go, Broadcaster, and server.go, handleEvents: the event stream of an open
-- page. The mutex makes each operation of the Broadcaster one step.
pub mod Delivery
pub mod Events
mod Tests
use kubepage_operator.Prelude.{
  ℕ, ◌+◌, String, Bool, true, false, not, Option, none, some, List, [], ◌∷◌, ◌++◌, ◌==◌, ◌&&◌, eqb,
  ltb, leb, length, if◌then◌else◌,
}

pub record SseHashes : Type 0 where
  pub fragment : String
  pub header : String

abbrev pub max_sse_subscribers : ℕ
max_sse_subscribers = 256

-- A subscriber's channel, by its identity, and what its buffer of size 1 holds.
pub record Channel : Type 0 where
  pub id : ℕ
  pub buffer : Option SseHashes

-- `next` is an identity that no channel has had: `make` gives a new one.
pub record Broadcaster : Type 0 where
  pub next : ℕ
  pub subs : List Channel

abbrev pub new_broadcaster : Broadcaster
new_broadcaster = record { next = 0; subs = [] }

unfoldable pub subscribe : Broadcaster → Option ℕ × Broadcaster
subscribe b = if leb max_sse_subscribers (length b.subs) then (none, b) else (
  some b.next,
  record { next = b.next + 1; subs = record { id = b.next; buffer = none } ∷ b.subs },
)

remove : ℕ → List Channel → List Channel
remove id [] = []
remove id (ch ∷ subs) = let rest = remove id subs in if eqb ch.id id then rest else ch ∷ rest

unfoldable pub unsubscribe : ℕ → Broadcaster → Broadcaster
unfolding remove
unsubscribe id b = record b { subs = remove id b.subs }

unfoldable pub has_subscribers : Broadcaster → Bool
has_subscribers b = ltb 0 (length b.subs)

-- The two `select`s: a full buffer is emptied first.
publish_to : SseHashes → Option SseHashes → Option SseHashes
publish_to h none = some h
publish_to h (some pending) = some h

publish_all : SseHashes → List Channel → List Channel
unfolding publish_to
publish_all h [] = []
publish_all h (ch ∷ subs) = record ch { buffer = publish_to h ch.buffer } ∷ publish_all h subs

unfoldable pub publish : SseHashes → Broadcaster → Broadcaster
unfolding publish_all
publish h b = record b { subs = publish_all h b.subs }

take_from : ℕ → List Channel → Option SseHashes × List Channel
take_from id [] = (none, [])
take_from id (ch ∷ subs) =
    let (found, rest) = take_from id subs in
    if eqb ch.id id then (ch.buffer, record ch { buffer = none } ∷ subs) else (found, ch ∷ rest)

-- `<-ch`, where something is pending.
unfoldable pub receive : ℕ → Broadcaster → Option SseHashes × Broadcaster
unfolding take_from
receive id b = let (found, subs) = take_from id b.subs in (found, record b { subs = subs })

-- An open stream: the hashes that its page has, and what has been written to it.
pub record Stream : Type 0 where
  pub last_fragment : String
  pub last_header : String
  pub written : List String

abbrev pub fragment_changed : String
fragment_changed = "event: fragmentChanged\ndata: refresh\n\n"

abbrev pub header_changed : String
header_changed = "event: headerChanged\ndata: refresh\n\n"

abbrev heartbeat_comment : String
heartbeat_comment = ": heartbeat\n\n"

-- `write_ok` is the outcome of a write to the connection, given what has been written before; where
-- one fails, the handler returns.
module _ (write_ok : List String → String → Bool) where
  sse_write : String → Stream → Option Stream
  sse_write s stream =
      if write_ok stream.written s
      then some (record stream { written = stream.written ++ (s ∷ []) })
      else none

  unfoldable pub on_heartbeat : Stream → Option Stream
  unfolding sse_write
  on_heartbeat stream = sse_write heartbeat_comment stream

  on_fragment : SseHashes → Stream → Option Stream
  unfolding sse_write
  on_fragment h stream =
      if not (h.fragment == "") && not (h.fragment == stream.last_fragment)
      then sse_write fragment_changed (record stream { last_fragment = h.fragment })
      else some stream

  on_header : SseHashes → Option Stream → Option Stream
  unfolding sse_write
  on_header h none = none
  on_header h (some stream) =
      if not (h.header == "") && not (h.header == stream.last_header)
      then sse_write header_changed (record stream { last_header = h.header })
      else some stream

  unfoldable pub on_hashes : SseHashes → Stream → Option Stream
  unfolding on_fragment on_header
  on_hashes h stream = on_header h (on_fragment h stream)
