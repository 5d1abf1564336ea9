-- ===== src/Pod/Poll/Stored.antt =====
-- A poll of a widget leaves a card under its key, and takes none away.
use kubepage_operator.Prelude.{
  ℕ, String, Bool, true, Option, ◌==◌, ◌||◌, ◌≡◌, refl, ap, ◌∙◌, Bool-cases, Option-cases, ◌⊎◌, inl,
  inr, arith, is_some, eq_iff,
}
use kubepage_operator.Prelude.Map.{Map, lookup-set}
use kubepage_operator.Api.{ServiceWidget, ServiceEntry, WidgetDefaultsEntry}
use kubepage_operator.Pod.Store
use kubepage_operator.Pod.Store.{Card, Store}
use kubepage_operator.Pod.Monitor.{MonitorProbeResult}
use kubepage_operator.Pod.Poll.{
  Polling, PollState, hides_errors, with_error, new_card, check_due, poll_widget,
  merge_monitor_into_stored_card, stored_or_new,
}
use kubepage_operator.Pod.Poll.Cards.{poll_widget-due}

-- A store after a write holds what it held, and a card under the written key.
pub is_some-get-set :
    (c : Card) (k : String) (s : Store)
    → is_some (Store.get k (Store.set c s)) ≡ (c.key == k || is_some (Store.get k s))
unfolding Store.get Store.set
is_some-get-set c k s = ground (arith, lookup-set c.key k c s)

held_at :
    (key k : String) (s : Store)
    → is_some (Store.get key s) ≡ true
    → (key == k || is_some (Store.get k s)) ≡ true
    → is_some (Store.get k s) ≡ true
held_at key k s held h = elim (Bool-cases (key == k)) [
  | inl same ↦ rw (← (eq_iff key k).0 same) held
  | inr other ↦ ground arith
]

module _ (env : Polling) where
  with_error_key :
      (hides : Bool) (e : String) (card : Card) → (with_error env hides e card).key ≡ card.key
  with_error_key hides e card = elim (Bool-cases (hides || e == "")) [
    | inl kept ↦ rw kept refl
    | inr set ↦ rw set refl
  ]

  -- A poll is one write: of a card with its key, or of another one where its key holds one already.
  poll_widget-set :
      (key namespace : String) (se : ServiceEntry) (widget : Option ServiceWidget)
      (m : MonitorProbeResult) (default_hide_errors : Bool) (defaults : Map WidgetDefaultsEntry)
      (now later stamp : ℕ) (s : PollState env)
      → (c : Card) × ((poll_widget env key namespace se widget m default_hide_errors defaults now
            later stamp s).store
          ≡ Store.set c s.store)
        × ((c.key ≡ key) ⊎ (is_some (Store.get key s.store) ≡ true))
  unfolding poll_widget merge_monitor_into_stored_card stored_or_new new_card
  poll_widget-set key namespace se widget m default_hide_errors defaults now later stamp s =
      elim (Bool-cases (check_due env key widget now later s.schedule).0) [
        | inl due ↦
            let (c, stored, same, hidden) =
              poll_widget-due env key namespace se widget m default_hide_errors defaults now later
                stamp s due in
            (c, stored, inl (ap (λ d. d.key) same))
        | inr idle ↦
            let hides = hides_errors env se default_hide_errors in
            elim (Option-cases (Store.get key s.store)) [
              | inl absent ↦ rw (idle, absent) (_, refl, inl (with_error_key hides m.err _))
              | inr (old, stored) ↦ rw (idle, stored) (_, refl, inr refl)
            ]
      ]

  pub poll_widget-stores :
      (key namespace : String) (se : ServiceEntry) (widget : Option ServiceWidget)
      (m : MonitorProbeResult) (default_hide_errors : Bool) (defaults : Map WidgetDefaultsEntry)
      (now later stamp : ℕ) (s : PollState env) (k : String)
      → (key == k || is_some (Store.get k s.store)) ≡ true
      → is_some (
          Store.get k
            (poll_widget env key namespace se widget m default_hide_errors defaults now later stamp
              s).store)
        ≡ true
  poll_widget-stores key namespace se widget m default_hide_errors defaults now later stamp s k h =
      let (c, stored, where_to) =
        poll_widget-set key namespace se widget m default_hide_errors defaults now later stamp s in
      ap (λ t. is_some (Store.get k t)) stored
      ∙ is_some-get-set c k s.store
      ∙ elim where_to [ inl e ↦ rw (e) h | inr held ↦ ground (arith, held_at key k s.store held h) ]
