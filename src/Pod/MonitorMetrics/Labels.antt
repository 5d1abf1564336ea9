-- ===== src/Pod/MonitorMetrics/Labels.antt =====
-- The labels of the gauges, put together and taken apart, and the series that a pruning leaves.
use Prim.Native.Char.{Char}
use Prim.Native.String
use package.text.Mathlib.TextLemmas.{nil-append, cons-append}
use kubepage_operator.Prelude.{
  String, Bool, true, false, not, some, List, [], ◌∷◌, ◌==◌, ◌&&◌, ◌≡◌, refl, ap, ◌∙◌, subst, inl,
  inr, arith, Bool-cases, contains, In, if◌then◌else◌, eq_iff, eq_refl, sym, All, ◌↔◌,
}
use kubepage_operator.Prelude.Format.{text, cut, same_char}
use kubepage_operator.Pod.Monitor.{Gauge}
use kubepage_operator.Pod.MonitorMetrics.{
  monitor_label_key, split_monitor_label_key, delete_gauge, prune_monitor_metrics,
}

abbrev separator : Char
separator = "\u{1f}"

-- A label without the separator.
unfoldable pub lacks_separator : String → Bool
lacks_separator String.[] = true
lacks_separator (String.◌∷◌ c s) = not (same_char c separator) && lacks_separator s

cut-append :
    (a b : String)
    → lacks_separator a ≡ true
    → cut separator (String.◌++◌ a (String.◌∷◌ separator b)) ≡ some (a, b)
unfolding cut lacks_separator
cut-append String.[] b h = rw (nil-append (String.◌∷◌ separator b), cut) refl
cut-append (String.◌∷◌ c a) b h =
    let other : same_char c separator ≡ false = ground arith in
    let rest = cut-append a b (ground arith) in
    rw (cons-append c a (String.◌∷◌ separator b), cut, other, rest) refl

-- What a label's key is put together of is what it is taken apart into, if the label has no
-- separator of its own.
pub split_monitor_label_key-monitor_label_key :
    (label source : String)
    → lacks_separator label ≡ true
    → split_monitor_label_key (monitor_label_key label source) ≡ (label, source)
unfolding split_monitor_label_key monitor_label_key
split_monitor_label_key-monitor_label_key label source h =
    let joined : String.◌++◌ "\u{1f}" source ≡ String.◌∷◌ separator source =
      cons-append separator "" source ∙ ap (λ t. String.◌∷◌ separator t) (nil-append source) in
    rw (joined, cut-append label source h) refl

abbrev series_key : Gauge → String
series_key g = monitor_label_key g.label g.source

delete_gauge-In :
    (parts : String × String) (g : Gauge) (gauges : List Gauge)
    → In g (delete_gauge parts gauges)
    → In g gauges × ((g.label == parts.0 && g.source == parts.1) ≡ false)
unfolding delete_gauge
delete_gauge-In parts g [] i = absurd i
delete_gauge-In parts g (x ∷ gauges) i =
    elim (Bool-cases (x.label == parts.0 && x.source == parts.1)) [
      | inl gone ↦
          let (later, other) = delete_gauge-In parts g gauges (rw gone at i) in (inr later, other)
      | inr kept ↦ elim (rw kept at i) [
        | inl e ↦ (inl e, rw e kept)
        | inr j ↦ let (later, other) = delete_gauge-In parts g gauges j in (inr later, other)
      ]
    ]

abbrev kept_after : List String → String → List Gauge → List Gauge
kept_after current key gauges =
    if contains current key then gauges else delete_gauge (split_monitor_label_key key) gauges

kept_after-In :
    (current : List String) (key : String) (gauges : List Gauge) (g : Gauge)
    → In g (kept_after current key gauges)
    → In g gauges
kept_after-In current key gauges g i = elim (Bool-cases (contains current key)) [
  | inl again ↦ rw again at i
  | inr gone ↦ (delete_gauge-In (split_monitor_label_key key) g gauges (rw gone at i)).0
]

prune_monitor_metrics-subset :
    (previous current : List String) (gauges : List Gauge) (g : Gauge)
    → In g (prune_monitor_metrics previous current gauges)
    → In g gauges
unfolding prune_monitor_metrics
prune_monitor_metrics-subset [] current gauges g i = i
prune_monitor_metrics-subset (key ∷ previous) current gauges g i =
    kept_after-In current key gauges g
      (prune_monitor_metrics-subset previous current (kept_after current key gauges) g i)

-- A key that the poller has made, of a label without the separator.
abbrev pub IsLabelKey : String → Type 0
IsLabelKey key =
    (label : String) × (source : String) × (lacks_separator label ≡ true)
    × (key ≡ monitor_label_key label source)

delete_gauge-In_other :
    (parts : String × String) (g : Gauge) (gauges : List Gauge)
    → (g.label == parts.0 && g.source == parts.1) ≡ false
    → In g gauges
    → In g (delete_gauge parts gauges)
unfolding delete_gauge
delete_gauge-In_other parts g [] other i = absurd i
delete_gauge-In_other parts g (x ∷ gauges) other (inl e) =
    let kept : (x.label == parts.0 && x.source == parts.1) ≡ false = rw (← e) other in
    rw kept (inl e)
delete_gauge-In_other parts g (x ∷ gauges) other (inr i) =
    let later = delete_gauge-In_other parts g gauges other i in
    elim (Bool-cases (x.label == parts.0 && x.source == parts.1)) [
      | inl gone ↦ rw gone later
      | inr kept ↦ rw kept (inr later)
    ]

-- One deletion goes by the label and the source together.
kept_after-In_other :
    (current : List String) (key : String) (gauges : List Gauge) (g : Gauge)
    → IsLabelKey key
    → (key == series_key g && not (contains current key)) ≡ false
    → In g gauges
    → In g (kept_after current key gauges)
kept_after-In_other current key gauges g (label, source, lacks, e) h i =
    elim (Bool-cases (contains current key)) [
      | inl again ↦ rw again i
      | inr gone ↦
          let other_key : (key == series_key g) ≡ false = ground arith in
          let parts = split_monitor_label_key-monitor_label_key label source lacks in
          let other : (g.label == label && g.source == source) ≡ false =
            elim (Bool-cases (g.label == label && g.source == source)) [
              | inr other ↦ other
              | inl same ↦
                  let l : g.label ≡ label = ground (arith, eq_iff g.label label) in
                  let o : g.source ≡ source = ground (arith, eq_iff g.source source) in
                  absurd (cc (sym other_key ∙ (eq_iff key (series_key g)).1 (rw (l, o) e)))
            ] in
          rw (gone, e, parts) (delete_gauge-In_other (label, source) g gauges other i)
    ]

kept_after-current :
    (current : List String) (gauges : List Gauge) (g : Gauge)
    → lacks_separator g.label ≡ true
    → In g (kept_after current (series_key g) gauges)
    → contains current (series_key g) ≡ true
kept_after-current current gauges g l i = elim (Bool-cases (contains current (series_key g))) [
  | inl again ↦ again
  | inr gone ↦
      let (j, other) =
        delete_gauge-In (split_monitor_label_key (series_key g)) g gauges (rw gone at i) in
      let parts = split_monitor_label_key-monitor_label_key g.label g.source l in
      absurd (ground (arith, rw parts at other, eq_refl g.label, eq_refl g.source))
]

prune_monitor_metrics-gone :
    (previous current : List String) (gauges : List Gauge) (g : Gauge)
    → lacks_separator g.label ≡ true
    → In g (prune_monitor_metrics previous current gauges)
    → (contains previous (series_key g) && not (contains current (series_key g))) ≡ false
unfolding prune_monitor_metrics
prune_monitor_metrics-gone [] current gauges g l i = refl
prune_monitor_metrics-gone (key ∷ previous) current gauges g l i =
    let rest = kept_after current key gauges in
    let there = prune_monitor_metrics-subset previous current rest g i in
    let later = prune_monitor_metrics-gone previous current rest g l i in
    elim (Bool-cases (key == series_key g)) [
      | inl same ↦
          let e = (eq_iff key (series_key g)).0 same in
          let again =
            kept_after-current current gauges g l
              (subst (λ k. In g (kept_after current k gauges)) e there) in
          ground arith
      | inr other ↦ ground arith
    ]

prune_monitor_metrics-kept :
    (previous current : List String) (gauges : List Gauge) (g : Gauge)
    → All IsLabelKey previous
    → (contains previous (series_key g) && not (contains current (series_key g))) ≡ false
    → In g gauges
    → In g (prune_monitor_metrics previous current gauges)
unfolding prune_monitor_metrics
prune_monitor_metrics-kept [] current gauges g made h i = i
prune_monitor_metrics-kept (key ∷ previous) current gauges g (own, made) h i =
    let here : (key == series_key g && not (contains current key)) ≡ false =
      elim (Bool-cases (key == series_key g)) [
        | inr other ↦ rw other refl
        | inl same ↦ rw ((eq_iff key (series_key g)).0 same) (ground arith)
      ] in
    prune_monitor_metrics-kept previous current (kept_after current key gauges) g made
      (ground arith) (kept_after-In_other current key gauges g own here i)

-- A pruning deletes exactly the series that the previous cycle exported and the current one does not,
-- by label and source together: every other series is left, and none is added. A label is taken to
-- have no ASCII unit separator.
pub prune_monitor_metrics-In :
    (previous current : List String) (gauges : List Gauge) (g : Gauge)
    → lacks_separator g.label ≡ true
    → All IsLabelKey previous
    → In g (prune_monitor_metrics previous current gauges) ↔ (
        In g gauges
        × ((contains previous (monitor_label_key g.label g.source)
              && not (contains current (monitor_label_key g.label g.source)))
            ≡ false))
prune_monitor_metrics-In previous current gauges g l made = (
  λ i. (
    prune_monitor_metrics-subset previous current gauges g i,
    prune_monitor_metrics-gone previous current gauges g l i,
  ),
  λ (i, h). prune_monitor_metrics-kept previous current gauges g made h i,
)
