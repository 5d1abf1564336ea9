-- ===== src/Pod/Broadcast/Events.antt =====
-- What an open page is told.
use mathlib.Core.List.{append-nil}
use kubepage_operator.Prelude.{
  String, Bool, true, false, not, some, List, [], ◌∷◌, ◌++◌, ◌==◌, ◌&&◌, ◌≡◌, refl, inl, inr, arith,
  Bool-cases, if◌then◌else◌, eq_iff,
}
use kubepage_operator.Pod.Broadcast.{
  SseHashes, Stream, fragment_changed, header_changed, sse_write, on_fragment, on_header, on_hashes,
}

-- The events for a change from one text to another; an empty text is no news.
unfoldable pub news : String → String → String → List String
news event old new = if not (new == "") && not (new == old) then event ∷ [] else []

-- The text that a page has after it has been told.
unfoldable pub latest : String → String → String
latest old new = if new == "" then old else new

abbrev changes : String → String → Bool
changes old new = not (new == "") && not (new == old)

latest_new : (old new : String) → changes old new ≡ true → latest old new ≡ new
unfolding latest
latest_new old new h = ground arith

latest_old : (old new : String) → changes old new ≡ false → latest old new ≡ old
unfolding latest
latest_old old new h = ground (arith, eq_iff new old)

module _ (write_ok : List String → String → Bool) where
  -- Where the writes to the connection succeed, a page is told of a change of its fragment and of
  -- one of its header, each once and in this order, and of nothing else; and the stream then has
  -- the hashes of the page as it is, so that the same hashes again would send nothing.
  pub on_hashes_lem :
      (h : SseHashes) (stream : Stream)
      → ((written : List String) (s : String) → write_ok written s ≡ true)
      → on_hashes write_ok h stream
        ≡ some (record {
          last_fragment = latest stream.last_fragment h.fragment;
          last_header = latest stream.last_header h.header;
          written =
              stream.written
              ++ news fragment_changed stream.last_fragment h.fragment
              ++ news header_changed stream.last_header h.header;
        })
  unfolding on_hashes on_fragment on_header sse_write news latest
  on_hashes_lem h stream writes = elim (Bool-cases (changes stream.last_fragment h.fragment)) [
    | inl fragment ↦ elim (Bool-cases (changes stream.last_header h.header)) [
      | inl header ↦
          rw
            (
              fragment,
              writes stream.written fragment_changed,
              header,
              writes (stream.written ++ (fragment_changed ∷ [])) header_changed,
              latest_new stream.last_fragment h.fragment fragment,
              latest_new stream.last_header h.header header,
            )
            refl
      | inr same ↦
          rw
            (
              fragment,
              writes,
              same,
              latest_new stream.last_fragment h.fragment fragment,
              latest_old stream.last_header h.header same,
              append-nil,
            )
            refl
    ]
    | inr unchanged ↦ elim (Bool-cases (changes stream.last_header h.header)) [
      | inl header ↦
          rw
            (
              unchanged,
              header,
              writes,
              latest_old stream.last_fragment h.fragment unchanged,
              latest_new stream.last_header h.header header,
              append-nil,
            )
            refl
      | inr same ↦
          rw
            (
              unchanged,
              same,
              latest_old stream.last_fragment h.fragment unchanged,
              latest_old stream.last_header h.header same,
              append-nil (stream.written ++ []),
              append-nil stream.written,
            )
            refl
    ]
  ]
