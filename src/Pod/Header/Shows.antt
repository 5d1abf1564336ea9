-- ===== src/Pod/Header/Shows.antt =====
-- What the view of a header widget shows.
use kubepage_operator.Prelude.{
  String, Bool, true, false, Option, none, some, List, [], ◌∷◌, map, ◌==◌, ◌&&◌, ◌≡◌, refl, sym,
  ap₂, ◌∙◌, subst, ◌⊎◌, inl, inr, Bool-cases, if◌then◌else◌, All, In, or_else, arith, eq_iff,
  contains, Option-cases,
}
use kubepage_operator.Prelude.Map.{Map, lookup, set, lookup-set}
use kubepage_operator.Pod.Field.{Field}
use kubepage_operator.Pod.HeaderWidgets.{HeaderWidget, header_type_greeting, header_type_datetime}
use kubepage_operator.Pod.Store.{Card}
use kubepage_operator.Pod.Header.{
  HeaderWidgetView, header_type_logo, live_view, polled_view, live_cards, view_of, header_fields,
  header_field, field_icon_slugs, is_weather,
}

-- The card of a header widget: a header card with the widget's key, if there is one.
pub data IsLive (cards : List Card) (key : String) : Option Card → Type 0 where
  live : (c : Card) → In c cards → c.header ≡ true → c.key ≡ key → IsLive cards key (some c)
  none_live : All (λ c. (c.header && c.key == key) ≡ false) cards → IsLive cards key none

abbrev pub fields_of : Option Card → List Field
fields_of none = []
fields_of (some c) = c.fields

abbrev pub error_of : Option Card → String
error_of none = ""
error_of (some c) = c.error

-- What a view shows of its widget: the text of a greeting, the format of a clock, the image and the
-- link of a logo, or the values and the error of the widget's card.
pub data Shows (cards : List Card) (d : HeaderWidget) (v : HeaderWidgetView) : Type 0 where
  greeting :
      d.type ≡ "greeting"
      → v.greeting ≡ or_else (lookup "text" d.config) ""
      → v.fields ≡ []
      → Shows cards d v
  datetime :
      d.type ≡ "datetime"
      → v.format ≡ or_else (lookup "format" d.config) ""
      → v.fields ≡ []
      → Shows cards d v
  logo :
      d.type ≡ "logo"
      → v.icon_url ≡ d.icon_url
      → v.href ≡ or_else (lookup "href" d.config) ""
      → v.fields ≡ []
      → Shows cards d v
  polled :
      (card : Option Card)
      → contains ("greeting" ∷ "datetime" ∷ "logo" ∷ []) d.type ≡ false
      → IsLive cards d.key card
      → map (λ f. f.value) v.fields ≡ map (λ f. f.value) (fields_of card)
      → map (λ f. f.highlight) v.fields ≡ map (λ f. f.highlight) (fields_of card)
      → v.err ≡ error_of card
      → ((d.icon_url == "") ≡ false → v.icon_url ≡ d.icon_url)
      → Shows cards d v

module _ (to_lower : String → String) where
  live_cards-lookup :
      (cards : List Card) (found : Map Card) (key : String)
      → ((c : Card) × In c cards
          × (c.header ≡ true)
          × (c.key ≡ key)
          × (lookup key (live_cards cards found) ≡ some c))
        ⊎ (All (λ c. (c.header && c.key == key) ≡ false) cards
            × (lookup key (live_cards cards found) ≡ lookup key found))
  live_cards-lookup [] found key = inr (tt, refl)
  live_cards-lookup (c ∷ cards) found key =
      let next = if c.header then set c.key c found else found in
      elim (live_cards-lookup cards next key) [
        | inl (d, i, header, own, e) ↦ inl (d, inr i, header, own, e)
        | inr (others, e) ↦ elim (Bool-cases c.header) [
          | inr plain ↦ inr ((rw plain refl, others), e ∙ rw plain refl)
          | inl header ↦ elim (Bool-cases (c.key == key)) [
            | inl own ↦
                let here : lookup key next ≡ some c = rw (header, lookup-set, own) refl in
                inl (c, inl refl, header, (eq_iff c.key key).0 own, e ∙ here)
            | inr other ↦
                let here : lookup key next ≡ lookup key found =
                  rw (header, lookup-set, other) refl in
                inr ((rw (header, other) refl, others), e ∙ here)
          ]
        ]
      ]

  lookup-IsLive :
      (cards : List Card) (key : String) → IsLive cards key (lookup key (live_cards cards []))
  unfolding lookup
  lookup-IsLive cards key = elim (live_cards-lookup cards [] key) [
    | inl (c, i, header, own, e) ↦ subst (IsLive cards key) (sym e) (live c i header own)
    | inr (others, e) ↦ subst (IsLive cards key) (sym e) (none_live others)
  ]

  header_field-keeps :
      (weather : Bool) (f : Field)
      → ((header_field to_lower weather f).value ≡ f.value)
        × ((header_field to_lower weather f).highlight ≡ f.highlight)
  unfolding header_field
  header_field-keeps weather f = elim (Option-cases (lookup f.label field_icon_slugs)) [
    | inl plain ↦ rw (plain, header_field) (refl, refl)
    | inr (slug, icon) ↦ rw (icon, header_field) (refl, refl)
  ]

  header_fields-keep :
      (type : String) (fields : List Field)
      → (map (λ f. f.value) (header_fields to_lower type fields) ≡ map (λ f. f.value) fields)
        × (map (λ f. f.highlight) (header_fields to_lower type fields)
            ≡ map (λ f. f.highlight) fields)
  unfolding header_fields
  header_fields-keep type [] = (refl, refl)
  header_fields-keep type (f ∷ fields) =
      let (value, level) = header_field-keeps (is_weather type) f in
      let (values, levels) = header_fields-keep type fields in
      (ap₂ ◌∷◌ value values, ap₂ ◌∷◌ level levels)

  live_view-Shows :
      (cards : List Card) (d : HeaderWidget) (card : Option Card)
      → contains ("greeting" ∷ "datetime" ∷ "logo" ∷ []) d.type ≡ false
      → IsLive cards d.key card
      → Shows cards d (live_view to_lower d card)
  unfolding live_view polled_view
  live_view-Shows cards d none h l = polled none h l refl refl refl (λ e. rw e refl)
  live_view-Shows cards d (some c) h l =
      let (values, levels) = header_fields-keep d.type c.fields in
      polled (some c) h l values levels refl (λ e. rw e refl)

  pub view_of-Shows :
      (cards : List Card) (d : HeaderWidget)
      → Shows cards d (view_of to_lower (live_cards cards []) d)
  unfolding view_of
  view_of-Shows cards d = elim (Bool-cases (d.type == header_type_greeting)) [
    | inl text ↦ rw (text, view_of) (greeting ((eq_iff d.type "greeting").0 text) refl refl)
    | inr other ↦ elim (Bool-cases (d.type == header_type_datetime)) [
      | inl clock ↦
          rw (other, clock, view_of) (datetime ((eq_iff d.type "datetime").0 clock) refl refl)
      | inr another ↦ elim (Bool-cases (d.type == header_type_logo)) [
        | inl image ↦
            rw (other, another, image, view_of)
              (logo ((eq_iff d.type "logo").0 image) refl refl refl)
        | inr last ↦
            let own : contains ("greeting" ∷ "datetime" ∷ "logo" ∷ []) d.type ≡ false = ground (
              arith,
              eq_iff d.type "greeting",
              eq_iff d.type "datetime",
              eq_iff d.type "logo",
              eq_iff "greeting" d.type,
              eq_iff "datetime" d.type,
              eq_iff "logo" d.type,
            ) in
            rw (other, another, last, view_of)
              (live_view-Shows cards d (lookup d.key (live_cards cards [])) own
                (lookup-IsLive cards d.key))
      ]
    ]
  ]
