-- ===== src/Pod/Broadcast/Delivery.antt =====
-- What reaches a subscriber, and how many there can be.
use kubepage_operator.Prelude.{
  ℕ, ◌+◌, ◌≤◌, ◌<◌, Bool, true, false, Option, none, some, List, [], ◌∷◌, ◌||◌, ◌≡◌, refl, ap, ◌∙◌,
  inl, inr, arith, Bool-cases, eqb, leb, length,
}
use kubepage_operator.Pod.Broadcast.{
  SseHashes, Channel, Broadcaster, max_sse_subscribers, new_broadcaster, subscribe, remove,
  unsubscribe, publish_to, publish_all, publish, take_from, receive,
}

-- The steps that the server and the poller take, in any order.
pub data Step (b : Broadcaster) : Broadcaster → Type 0 where
  subscribes : Step b (subscribe b).1
  unsubscribes : (id : ℕ) → Step b (unsubscribe id b)
  publishes : (h : SseHashes) → Step b (publish h b)
  receives : (id : ℕ) → Step b (receive id b).1

pub data IsReachable : Broadcaster → Type 0 where
  at_start : IsReachable new_broadcaster
  after : {b b' : Broadcaster} → IsReachable b → Step b b' → IsReachable b'

abbrev pub has_id : ℕ → List Channel → Bool
has_id id [] = false
has_id id (ch ∷ subs) = eqb ch.id id || has_id id subs

-- The channels are at most 256, and each has an identity of its own, one that was given out before.
abbrev pub HaveOwnIds : ℕ → List Channel → Type 0
HaveOwnIds next [] = Unit
HaveOwnIds next (ch ∷ subs) = (ch.id < next) × (has_id ch.id subs ≡ false) × HaveOwnIds next subs

pub record IsSound (b : Broadcaster) : Type 0 where
  pub bounded : length b.subs ≤ max_sse_subscribers
  pub own : HaveOwnIds b.next b.subs

below-fresh : (next : ℕ) (subs : List Channel) → HaveOwnIds next subs → has_id next subs ≡ false
below-fresh next [] h = refl
below-fresh next (ch ∷ subs) (l, d, hs) = ground (arith, below-fresh next subs hs)

grown : (next : ℕ) (subs : List Channel) → HaveOwnIds next subs → HaveOwnIds (next + 1) subs
grown next [] h = tt
grown next (ch ∷ subs) (l, d, hs) = (omega arith, d, grown next subs hs)

remove-HaveOwnIds :
    (id next : ℕ) (subs : List Channel)
    → HaveOwnIds next subs
    → HaveOwnIds next (remove id subs)
      × (length (remove id subs) ≤ length subs)
      × ((k : ℕ) → has_id k subs ≡ false → has_id k (remove id subs) ≡ false)
unfolding remove
remove-HaveOwnIds id next [] h = (tt, omega arith, λ k n. refl)
remove-HaveOwnIds id next (ch ∷ subs) (l, d, hs) =
    let (own, fewer, absent) = remove-HaveOwnIds id next subs hs in
    elim (Bool-cases (eqb ch.id id)) [
      | inl gone ↦ rw (gone, remove) (own, omega arith, λ k n. absent k (ground arith))
      | inr kept ↦
          rw (kept, remove) ((l, absent ch.id d, own), omega arith, λ k n. ground (arith, absent k))
    ]

publish_all-has_id :
    (h : SseHashes) (k : ℕ) (subs : List Channel) → has_id k (publish_all h subs) ≡ has_id k subs
unfolding publish_all
publish_all-has_id h k [] = refl
publish_all-has_id h k (ch ∷ subs) = ap (λ r. eqb ch.id k || r) (publish_all-has_id h k subs)

publish_to_lem : (h : SseHashes) (buffer : Option SseHashes) → publish_to h buffer ≡ some h
unfolding publish_to
publish_to_lem h none = refl
publish_to_lem h (some pending) = refl

publish_all-HaveOwnIds :
    (h : SseHashes) (next : ℕ) (subs : List Channel)
    → HaveOwnIds next subs
    → HaveOwnIds next (publish_all h subs)
      × (length (publish_all h subs) ≡ length subs)
      × ((k : ℕ) → has_id k (publish_all h subs) ≡ has_id k subs)
unfolding publish_all
publish_all-HaveOwnIds h next [] own = (tt, refl, λ k. refl)
publish_all-HaveOwnIds h next (ch ∷ subs) (l, d, hs) =
    let (own, same, ids) = publish_all-HaveOwnIds h next subs hs in
    ((l, ids ch.id ∙ d, own), omega arith, λ k. ap (λ r. eqb ch.id k || r) (ids k))

take_from-HaveOwnIds :
    (id next : ℕ) (subs : List Channel)
    → HaveOwnIds next subs
    → HaveOwnIds next (take_from id subs).1
      × (length (take_from id subs).1 ≡ length subs)
      × ((k : ℕ) → has_id k (take_from id subs).1 ≡ has_id k subs)
unfolding take_from
take_from-HaveOwnIds id next [] own = (tt, refl, λ k. refl)
take_from-HaveOwnIds id next (ch ∷ subs) (l, d, hs) =
    let (own, same, ids) = take_from-HaveOwnIds id next subs hs in
    elim (Bool-cases (eqb ch.id id)) [
      | inl here ↦ rw (here, take_from) ((l, d, hs), refl, λ k. refl)
      | inr later ↦
          rw (later, take_from)
            ((l, ids ch.id ∙ d, own), omega arith, λ k. ap (λ r. eqb ch.id k || r) (ids k))
    ]

Step-IsSound : {b b' : Broadcaster} → Step b b' → IsSound b → IsSound b'
unfolding subscribe unsubscribe publish receive
Step-IsSound {b} subscribes sound = elim (Bool-cases (leb max_sse_subscribers (length b.subs))) [
  | inl full ↦ rw full sound
  | inr free ↦ rw free (record {
    bounded = ground arith;
    own = (omega arith, below-fresh b.next b.subs sound.own, grown b.next b.subs sound.own);
  })
]
Step-IsSound {b} (unsubscribes id) sound =
    let (own, fewer, absent) = remove-HaveOwnIds id b.next b.subs sound.own in
    record { bounded = ground (arith, sound.bounded); own = own }
Step-IsSound {b} (publishes h) sound =
    let (own, same, ids) = publish_all-HaveOwnIds h b.next b.subs sound.own in
    record { bounded = ground (arith, sound.bounded); own = own }
Step-IsSound {b} (receives id) sound =
    let (own, same, ids) = take_from-HaveOwnIds id b.next b.subs sound.own in
    record { bounded = ground (arith, sound.bounded); own = own }

-- In every state that the server and the poller can reach there are at most 256 subscribers, and no
-- two of them share a channel.
pub IsReachable-IsSound : (b : Broadcaster) → IsReachable b → IsSound b
IsReachable-IsSound b at_start = record { bounded = omega arith; own = tt }
IsReachable-IsSound b (after r step) = Step-IsSound step (IsReachable-IsSound _ r)

-- What a subscriber finds after the publishing of hashes, in order.
pub publish_each : List SseHashes → Broadcaster → Broadcaster
publish_each [] b = b
publish_each (h ∷ hs) b = publish_each hs (publish h b)

publish_each-has_id :
    (hs : List SseHashes) (id : ℕ) (b : Broadcaster)
    → has_id id (publish_each hs b).subs ≡ has_id id b.subs
unfolding publish_each publish
publish_each-has_id [] id b = refl
publish_each-has_id (h ∷ hs) id b =
    publish_each-has_id hs id (publish h b) ∙ publish_all-has_id h id b.subs

take_from_here :
    (id : ℕ) (ch : Channel) (subs : List Channel)
    → eqb ch.id id ≡ true
    → take_from id (ch ∷ subs) ≡ (ch.buffer, record ch { buffer = none } ∷ subs)
unfolding take_from
take_from_here id ch subs h = rw (h, take_from) refl

take_from_later :
    (id : ℕ) (ch : Channel) (subs : List Channel)
    → eqb ch.id id ≡ false
    → take_from id (ch ∷ subs) ≡ ((take_from id subs).0, ch ∷ (take_from id subs).1)
unfolding take_from
take_from_later id ch subs h = rw (h, take_from) refl

take_from-publish_all :
    (id : ℕ) (h : SseHashes) (subs : List Channel)
    → has_id id subs ≡ true
    → ((take_from id (publish_all h subs)).0 ≡ some h)
      × ((take_from id (take_from id (publish_all h subs)).1).0 ≡ none)
unfolding publish_all
take_from-publish_all id h [] own = absurd (cc own)
take_from-publish_all id h (ch ∷ subs) own =
    let told = record ch { buffer = publish_to h ch.buffer } in
    let others = publish_all h subs in
    elim (Bool-cases (eqb ch.id id)) [
      | inl here ↦
          let first = take_from_here id told others here in
          (
            ap (λ r. r.0) first ∙ publish_to_lem h ch.buffer,
            ap (λ r. (take_from id r.1).0) first
                ∙ ap (λ r. r.0) (take_from_here id (record ch { buffer = none }) others here),
          )
      | inr later ↦
          let first = take_from_later id told others later in
          let (found, drained) = take_from-publish_all id h subs (ground arith) in
          (
            ap (λ r. r.0) first ∙ found,
            ap (λ r. (take_from id r.1).0) first
                ∙ ap (λ r. r.0) (take_from_later id told (take_from id others).1 later)
                ∙ drained,
          )
    ]

-- A subscriber that reads after some publishing, of however many hashes that it has not read, gets
-- the last ones, and then nothing until the next publishing: a slow reader misses only what is
-- outdated, and no publishing waits for it.
pub receive-publish :
    (id : ℕ) (hs : List SseHashes) (h : SseHashes) (b : Broadcaster)
    → has_id id b.subs ≡ true
    → ((receive id (publish h (publish_each hs b))).0 ≡ some h)
      × ((receive id (receive id (publish h (publish_each hs b))).1).0 ≡ none)
unfolding receive publish
receive-publish id hs h b own =
    take_from-publish_all id h (publish_each hs b).subs (publish_each-has_id hs id b ∙ own)
