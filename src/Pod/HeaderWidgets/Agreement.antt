-- ===== src/Pod/HeaderWidgets/Agreement.antt =====
-- The page and the poller agree on the keys of the header widgets.
use kubepage_operator.Prelude.{
  ℕ, ◌+◌, String, true, Option, List, [], ◌∷◌, map, ◌≡◌, refl, sym, subst, inl, inr, Bool-cases, In,
  is_some,
}
use kubepage_operator.Prelude.Format.{text}
use kubepage_operator.Prelude.Map.{Map}
use kubepage_operator.Prelude.Members.{In-append, In-sort_func}
use kubepage_operator.Api.{InfoWidgetEntry, InfoWidget, bound_to, ref_name, info_widget_entries}
use kubepage_operator.Pod.Cycle.{info_widget_jobs, header_entry_jobs}
use kubepage_operator.Pod.Job.{Job}
use kubepage_operator.Pod.Work.{Cycling}
use kubepage_operator.Pod.HeaderWidgets.{
  HeaderWidget, FlatWidget, ConfigValue, flatten, flatten_bound, compare_flat, to_header_widget,
  header_widgets,
}

module _ (env : Cycling) where
  open env use {polling, dashboard_name}

  -- The poller has a job for a widget of the page.
  abbrev pub IsPolled : ℕ → List InfoWidget → String → String → Type 0
  IsPolled count items key type =
      (iw : InfoWidget) × (e : InfoWidgetEntry) × (e.type ≡ type)
      × In (Job.header_job key iw e) (info_widget_jobs env count items)

  abbrev key_of_flat : FlatWidget → String
  key_of_flat hw = text ("header/" ∷ hw.name ∷ "/" ∷ polling.fmt.decimal hw.idx ∷ [])

  flatten-jobs :
      (iw : InfoWidget) (idx : ℕ) (entries : List InfoWidgetEntry) (hw : FlatWidget)
      → is_some (polling.lookup hw.widget.type) ≡ true
      → In hw (flatten iw.name idx entries)
      → In (Job.header_job (key_of_flat hw) iw hw.widget) (header_entry_jobs env iw idx entries)
  unfolding flatten header_entry_jobs
  flatten-jobs iw idx [] hw known i = absurd i
  flatten-jobs iw idx (e ∷ entries) hw known (inl is) =
      let known' : is_some (polling.lookup e.type) ≡ true = rw is at known in
      rw (is, known') (inl refl)
  flatten-jobs iw idx (e ∷ entries) hw known (inr i) =
      let later = flatten-jobs iw (idx + 1) entries hw known i in
      elim (Bool-cases (is_some (polling.lookup e.type))) [
        | inl polled ↦ rw (polled, header_entry_jobs) (inr later)
        | inr static ↦ rw (static, header_entry_jobs) later
      ]

  flatten_bound-jobs :
      (count : ℕ) (items : List InfoWidget) (hw : FlatWidget)
      → is_some (polling.lookup hw.widget.type) ≡ true
      → In hw (flatten_bound dashboard_name count items)
      → (iw : InfoWidget) × In
          (Job.header_job (key_of_flat hw) iw hw.widget)
          (info_widget_jobs env count items)
  unfolding flatten_bound info_widget_jobs
  flatten_bound-jobs count [] hw known i = absurd i
  flatten_bound-jobs count (w ∷ items) hw known i =
      elim (Bool-cases (bound_to (ref_name w.dashboard_ref) dashboard_name count)) [
        | inl bound ↦
            let own = flatten w.name 0 (info_widget_entries w) in
            let jobs = header_entry_jobs env w 0 (info_widget_entries w) in
            elim ((In-append hw own (flatten_bound dashboard_name count items)).0
              (rw (bound, flatten_bound) at i)) [
                | inl here ↦ (
                  w,
                  rw (bound, info_widget_jobs)
                      ((In-append _ jobs _).1
                        (inl (flatten-jobs w 0 (info_widget_entries w) hw known here))),
                )
                | inr there ↦
                    let (iw, j) = flatten_bound-jobs count items hw known there in
                    (iw, rw (bound, info_widget_jobs) ((In-append _ jobs _).1 (inr j)))
              ]
        | inr unbound ↦
            let (iw, j) =
              flatten_bound-jobs count items hw known (rw (unbound, flatten_bound) at i) in
            (iw, rw (unbound, info_widget_jobs) j)
      ]

  map-elem :
      {A B : Type 0} (f : A → B) (b : B) (xs : List A)
      → In b (map f xs)
      → (a : A) × In a xs × (b ≡ f a)
  map-elem f b [] i = absurd i
  map-elem f b (x ∷ xs) (inl e) = (x, inl refl, e)
  map-elem f b (x ∷ xs) (inr i) = let (a, j, e) = map-elem f b xs i in (a, inr j, e)

  -- Every header widget of the page whose type is registered is polled by the cycle, under the very
  -- key that the page looks its card up by.
  pub header_widgets-info_widget_jobs :
      (to_lower : String → String) (unmarshal : String → Option (Map ConfigValue)) (count : ℕ)
      (widgets : List InfoWidget) (d : HeaderWidget)
      → is_some (polling.lookup d.type) ≡ true
      → In d (header_widgets polling.fmt to_lower unmarshal widgets dashboard_name count)
      → IsPolled count widgets d.key d.type
  unfolding header_widgets to_header_widget
  header_widgets-info_widget_jobs to_lower unmarshal count widgets d known i =
      let flat = flatten_bound dashboard_name count widgets in
      let (hw, j, is) = map-elem (to_header_widget polling.fmt to_lower unmarshal) d _ i in
      let known' : is_some (polling.lookup hw.widget.type) ≡ true = rw is at known in
      let (iw, job) =
        flatten_bound-jobs count widgets hw known' ((In-sort_func compare_flat hw flat).0 j) in
      subst (λ x. IsPolled count widgets x.key x.type) (sym is) (iw, hw.widget, refl, job)
