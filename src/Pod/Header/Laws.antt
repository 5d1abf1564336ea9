-- ===== src/Pod/Header/Laws.antt =====
-- What the header strip shows, and where.
use kubepage_operator.Prelude.{
  String, Bool, true, false, not, Option, none, some, List, [], ◌∷◌, ◌++◌, map, ◌==◌, ◌≡◌, refl, ap,
  ap₂, inl, inr, Bool-cases, select, All,
}
use kubepage_operator.Prelude.Map.{Map, lookup}
use kubepage_operator.Pod.HeaderWidgets.{
  HeaderWidget, align_right, header_type_greeting, header_type_datetime,
}
use kubepage_operator.Pod.Store.{Card}
use kubepage_operator.Pod.Header.{
  HeaderWidgetView, header_type_logo, live_view, polled_view, live_cards, view_of, split_align,
  push_first, build_header,
}
use kubepage_operator.Pod.Header.Shows.{Shows, greeting, datetime, logo, polled, view_of-Shows}

abbrev pub lefts : List HeaderWidget → List HeaderWidget
lefts defs = select (λ d. not (d.align == "right")) defs

abbrev pub rights : List HeaderWidget → List HeaderWidget
rights defs = select (λ d. d.align == "right") defs

-- The first widget of the right side pushes it to the edge.
abbrev pub first_only : List HeaderWidget → List Bool
first_only [] = []
first_only (d ∷ defs) = true ∷ map (λ e. false) defs

module _ (to_lower : String → String) where
  push : HeaderWidgetView → HeaderWidgetView
  push v = record v { push_right = true }

  push-Shows :
      (cards : List Card) (d : HeaderWidget) (v : HeaderWidgetView)
      → Shows cards d v
      → Shows cards d (push v)
  unfolding push
  push-Shows cards d v (greeting t g f) = greeting t g f
  push-Shows cards d v (datetime t g f) = datetime t g f
  push-Shows cards d v (logo t i h f) = logo t i h f
  push-Shows cards d v (polled card t l values levels e icon) = polled card t l values levels e icon

  -- The widgets of a side with their views, and with the first one pushed.
  abbrev placed : List Card → List HeaderWidget → List (HeaderWidget × HeaderWidgetView)
  placed cards defs = map (λ d. (d, view_of to_lower (live_cards cards []) d)) defs

  abbrev pushed : List Card → List HeaderWidget → List (HeaderWidget × HeaderWidgetView)
  pushed cards [] = []
  pushed cards (d ∷ defs) = (d, push (view_of to_lower (live_cards cards []) d)) ∷ placed cards defs

  placed-Shows :
      (cards : List Card) (defs : List HeaderWidget)
      → All (λ p. Shows cards p.0 p.1) (placed cards defs)
  placed-Shows cards [] = tt
  placed-Shows cards (d ∷ defs) = (view_of-Shows to_lower cards d, placed-Shows cards defs)

  pushed-Shows :
      (cards : List Card) (defs : List HeaderWidget)
      → All (λ p. Shows cards p.0 p.1) (pushed cards defs)
  pushed-Shows cards [] = tt
  pushed-Shows cards (d ∷ defs) =
      (push-Shows cards d _ (view_of-Shows to_lower cards d), placed-Shows cards defs)

  split_align-lefts :
      (cards : List Card) (defs : List HeaderWidget)
      → split_align to_lower (live_cards cards []) defs ≡ (
        map (view_of to_lower (live_cards cards [])) (lefts defs),
        map (view_of to_lower (live_cards cards [])) (rights defs),
      )
  unfolding split_align
  split_align-lefts cards [] = refl
  split_align-lefts cards (d ∷ defs) = elim (Bool-cases (d.align == align_right)) [
    | inl right ↦ rw (right, split_align-lefts cards defs) refl
    | inr left ↦ rw (left, split_align-lefts cards defs) refl
  ]

  views-placed :
      (cards : List Card) (defs : List HeaderWidget)
      → map (λ p. p.1) (placed cards defs) ≡ map (view_of to_lower (live_cards cards [])) defs
  views-placed cards [] = refl
  views-placed cards (d ∷ defs) = ap₂ ◌∷◌ refl (views-placed cards defs)

  widgets-placed :
      (cards : List Card) (defs : List HeaderWidget) → map (λ p. p.0) (placed cards defs) ≡ defs
  widgets-placed cards [] = refl
  widgets-placed cards (d ∷ defs) = ap (λ ds. d ∷ ds) (widgets-placed cards defs)

  views-sides :
      (cards : List Card) (ls rs : List HeaderWidget)
      → map (λ p. p.1) (placed cards ls ++ pushed cards rs)
        ≡ map (view_of to_lower (live_cards cards [])) ls
          ++ push_first to_lower (map (view_of to_lower (live_cards cards [])) rs)
  unfolding push_first push
  views-sides cards [] [] = refl
  views-sides cards [] (d ∷ rs) = ap₂ ◌∷◌ refl (views-placed cards rs)
  views-sides cards (d ∷ ls) rs = ap₂ ◌∷◌ refl (views-sides cards ls rs)

  widgets-sides :
      (cards : List Card) (ls rs : List HeaderWidget)
      → map (λ p. p.0) (placed cards ls ++ pushed cards rs) ≡ ls ++ rs
  widgets-sides cards [] [] = refl
  widgets-sides cards [] (d ∷ rs) = ap (λ ds. d ∷ ds) (widgets-placed cards rs)
  widgets-sides cards (d ∷ ls) rs = ap (λ ds. d ∷ ds) (widgets-sides cards ls rs)

  All-append :
      (cards : List Card) (xs ys : List (HeaderWidget × HeaderWidgetView))
      → All (λ p. Shows cards p.0 p.1) xs
      → All (λ p. Shows cards p.0 p.1) ys
      → All (λ p. Shows cards p.0 p.1) (xs ++ ys)
  All-append cards [] ys h k = k
  All-append cards (x ∷ xs) ys (h, hs) k = (h, All-append cards xs ys hs k)

  live_view-push_right :
      (d : HeaderWidget) (c : Option Card) → (live_view to_lower d c).push_right ≡ false
  unfolding live_view polled_view
  live_view-push_right d none = refl
  live_view-push_right d (some c) = refl

  view_of-push_right :
      (found : Map Card) (d : HeaderWidget) → (view_of to_lower found d).push_right ≡ false
  unfolding view_of live_view polled_view
  view_of-push_right found d = elim (Bool-cases (d.type == header_type_greeting)) [
    | inl text ↦ rw (text, view_of) refl
    | inr other ↦ elim (Bool-cases (d.type == header_type_datetime)) [
      | inl clock ↦ rw (other, clock, view_of) refl
      | inr another ↦ elim (Bool-cases (d.type == header_type_logo)) [
        | inl image ↦ rw (other, another, image, view_of) refl
        | inr last ↦
            rw (other, another, last, view_of) (live_view-push_right d (lookup d.key found))
      ]
    ]
  ]

  flags-placed :
      (cards : List Card) (defs : List HeaderWidget)
      → map (λ p. p.1.push_right) (placed cards defs) ≡ map (λ d. false) defs
  flags-placed cards [] = refl
  flags-placed cards (d ∷ defs) = ap₂ ◌∷◌ (view_of-push_right _ d) (flags-placed cards defs)

  flags-sides :
      (cards : List Card) (ls rs : List HeaderWidget)
      → map (λ p. p.1.push_right) (placed cards ls ++ pushed cards rs)
        ≡ map (λ d. false) ls ++ first_only rs
  unfolding push
  flags-sides cards [] [] = refl
  flags-sides cards [] (d ∷ rs) = ap (λ fs. true ∷ fs) (flags-placed cards rs)
  flags-sides cards (d ∷ ls) rs = ap₂ ◌∷◌ (view_of-push_right _ d) (flags-sides cards ls rs)

  -- The header strip shows the widgets that are not aligned right in their order, and then those that
  -- are, in theirs; the first of these, and no other, is pushed to the right edge. A greeting, a clock
  -- and a logo show what their config gives, and any other widget the values, the levels and the error
  -- of the header card with its key, or no value and no error where there is none.
  pub build_header_lem :
      (defs : List HeaderWidget) (cards : List Card)
      → (strip : List (HeaderWidget × HeaderWidgetView)) × (map (λ p. p.1) strip
          ≡ build_header to_lower defs cards)
        × (map (λ p. p.0) strip ≡ lefts defs ++ rights defs)
        × All (λ p. Shows cards p.0 p.1) strip
        × (map (λ p. p.1.push_right) strip
            ≡ map (λ d. false) (lefts defs) ++ first_only (rights defs))
  unfolding build_header
  build_header_lem defs cards = (
    placed cards (lefts defs) ++ pushed cards (rights defs),
    rw (split_align-lefts cards defs) (views-sides cards (lefts defs) (rights defs)),
    widgets-sides cards (lefts defs) (rights defs),
    All-append cards (placed cards (lefts defs)) (pushed cards (rights defs))
        (placed-Shows cards (lefts defs)) (pushed-Shows cards (rights defs)),
    flags-sides cards (lefts defs) (rights defs),
  )
