-- ===== src/Pod/Discovery/Laws.antt =====
-- What discovery gives, for Ingresses and for HTTPRoutes alike.
use Prim.Native.String
use mathlib.Core.List.{append-nil}
use kubepage_operator.Prelude.{
  String, Bool, true, false, Option, none, some, List, [], ◌∷◌, ◌++◌, ◌==◌, ◌≡◌, refl, sym, subst,
  ap, ◌∙◌, ◌⊎◌, ◌↔◌, inl, inr, arith, Option-cases, Bool-cases, In, All, or_else, if◌then◌else◌,
  ◌&&◌, ◌||◌, eq_iff,
}
use kubepage_operator.Prelude.Format.{text}
use kubepage_operator.Prelude.Map.{Map, IsMap}
use kubepage_operator.Prelude.Members.{In-sort_func}
use kubepage_operator.Prelude.Order.{by_key, compare_text, by_key-IsOrder, compare_text-IsOrder}
use kubepage_operator.Prelude.Result.{ok, err, ok-injective}
use kubepage_operator.Prelude.Sort.{sort_func, IsSorted, sort_func-IsSorted}
use kubepage_operator.Api.{DiscoverySpec}
use kubepage_operator.Cluster.{Listed, items, list_failed}
use kubepage_operator.Pod.Discovery.{
  Source, DiscoveredService, value_at, either, default_discovery_group, homepage_discovery_prefix,
  annotation_prefix, enables, discovery_annotations, strip_annotation_prefix, service_of,
  services_of, icon_of, extra_items, append_extras, discover, discovery_monitor_enabled,
}
use kubepage_operator.Pod.Icon.{icon_url}
use kubepage_operator.Pod.Discovery.Annotations.{lookup-strip_annotation_prefix}

-- What an object's annotation holds under a prefix, or the empty text.
pub annotated : {A : Type 0} → Source A → A → String → String → String
annotated source a prefix name = value_at (String.◌++◌ prefix name) (source.annotations a)

-- An object opts in by a prefix: by the Dashboard's own, or else by homepage's, where that is on.
pub record OptsIn {A : Type 0} (source : Source A) (spec : DiscoverySpec) (a : A) (prefix : String)
    : Type 0 where
  pub enabled : annotated source a prefix "enabled" ≡ "true"
  pub chosen :
      (prefix ≡ annotation_prefix spec)
      ⊎ ((prefix ≡ homepage_discovery_prefix)
          × (spec.homepage_compat ≡ some true)
          × ((annotated source a (annotation_prefix spec) "enabled" == "true") ≡ false))

module _ (to_lower : String → String) {A : Type 0} (source : Source A) where
  -- The service of an object, read from its own annotations under one prefix.
  unfoldable pub service_under : A → String → DiscoveredService
  unfolding annotated
  service_under a prefix = record {
    key = source.key a;
    group = either (annotated source a prefix "group") default_discovery_group;
    name = either (annotated source a prefix "name") (source.name a);
    icon_url =
        if annotated source a prefix "icon" == ""
        then ""
        else icon_url to_lower (some (annotated source a prefix "icon"));
    description = annotated source a prefix "description";
    href = either (annotated source a prefix "href") (source.default_href a);
    monitor =
        annotated source a prefix "monitor" == "true" || annotated source a prefix "ping" == "true";
  }

some_of_or_else : (o : Option Bool) → or_else o false ≡ true → o ≡ some true
some_of_or_else o h = ground arith

module _ (to_lower : String → String) {A : Type 0} (source : Source A) where
  service_of-strip :
      (a : A) (prefix : String)
      → IsMap (source.annotations a)
      → service_of to_lower source a (strip_annotation_prefix (source.annotations a) prefix)
        ≡ service_under to_lower source a prefix
  unfolding annotated service_of discovery_monitor_enabled service_under icon_of
  service_of-strip a prefix h =
      let at : (j : String) → _ =
        λ j. lookup-strip_annotation_prefix prefix j (source.annotations a) h in
      rw (at "group", at "name", at "icon", at "description", at "href", at "monitor", at "ping")
        refl

  -- The annotations that an object opts in with, if it does.
  abbrev opted_in : DiscoverySpec → A → Option (Map String)
  opted_in spec a =
      discovery_annotations (source.annotations a) (annotation_prefix spec)
        (or_else spec.homepage_compat false)

  -- What `discovery_annotations` gives is what an opted-in object has under its prefix.
  discovery_annotations-OptsIn :
      (spec : DiscoverySpec) (a : A) {ann : Map String}
      → opted_in spec a ≡ some ann
      → (prefix : String) × OptsIn source spec a prefix
        × (ann ≡ strip_annotation_prefix (source.annotations a) prefix)
  unfolding discovery_annotations enables annotated
  discovery_annotations-OptsIn spec a {ann} h =
      let own = String.◌++◌ (annotation_prefix spec) "enabled" in
      let homepage = String.◌++◌ homepage_discovery_prefix "enabled" in
      elim (Bool-cases (value_at own (source.annotations a) == "true")) [
        | inl native ↦ (
          annotation_prefix spec,
          record {
            enabled = (eq_iff (value_at own (source.annotations a)) "true").0 native;
            chosen = inl refl;
          },
          ground arith,
        )
        | inr other ↦
            elim (Bool-cases (
              or_else spec.homepage_compat false
              && (value_at homepage (source.annotations a) == "true"))) [
                | inl compat ↦ (
                  homepage_discovery_prefix,
                  record {
                    enabled =
                        (eq_iff (value_at homepage (source.annotations a)) "true").0 (ground arith);
                    chosen = inr (refl, some_of_or_else spec.homepage_compat (ground arith), other);
                  },
                  ground arith,
                )
                | inr neither ↦ absurd (ground arith)
              ]
      ]

  -- And back: an object that opts in is found.
  OptsIn-discovery_annotations :
      (spec : DiscoverySpec) (a : A) (prefix : String)
      → OptsIn source spec a prefix
      → opted_in spec a ≡ some (strip_annotation_prefix (source.annotations a) prefix)
  unfolding discovery_annotations enables annotated
  OptsIn-discovery_annotations spec a prefix h =
      let on =
        (eq_iff (value_at (String.◌++◌ prefix "enabled") (source.annotations a)) "true").1
          h.enabled in
      elim h.chosen [
        | inl own ↦ ground arith
        | inr (homepage, compat, other) ↦
            let on' = rw homepage at on in rw homepage (ground (arith, on'))
      ]

  services_of_found :
      (spec : DiscoverySpec) (a : A) (xs : List A) {ann : Map String}
      → opted_in spec a ≡ some ann
      → services_of to_lower source spec (a ∷ xs)
        ≡ service_of to_lower source a ann ∷ services_of to_lower source spec xs
  unfolding services_of
  services_of_found spec a xs e = rw (e, services_of) refl

  services_of_skipped :
      (spec : DiscoverySpec) (a : A) (xs : List A)
      → opted_in spec a ≡ none
      → services_of to_lower source spec (a ∷ xs) ≡ services_of to_lower source spec xs
  unfolding services_of
  services_of_skipped spec a xs e = rw (e, services_of) refl

  -- One of the objects opts in by a prefix, and the service is its one under that prefix.
  abbrev pub IsFrom : DiscoverySpec → List A → DiscoveredService → Type 0
  IsFrom spec xs s =
      (a : A) × (prefix : String) × In a xs
      × OptsIn source spec a prefix
      × (s ≡ service_under to_lower source a prefix)

  services_of_sound :
      (spec : DiscoverySpec) (s : DiscoveredService) (xs : List A)
      → All (λ a. IsMap (source.annotations a)) xs
      → In s (services_of to_lower source spec xs)
      → IsFrom spec xs s
  unfolding services_of
  services_of_sound spec s [] h i = absurd i
  services_of_sound spec s (a ∷ xs) (h, hs) i = elim (Option-cases (opted_in spec a)) [
    | inl skipped ↦
        let (b, prefix, j, o, is) =
          services_of_sound spec s xs hs (subst (In s) (services_of_skipped spec a xs skipped) i) in
        (b, prefix, inr j, o, is)
    | inr (ann, e) ↦ elim (subst (In s) (services_of_found spec a xs e) i) [
      | inl here ↦
          let (prefix, o, stripped) = discovery_annotations-OptsIn spec a e in
          (
            a,
            prefix,
            inl refl,
            o,
            here ∙ ap (service_of to_lower source a) stripped ∙ service_of-strip a prefix h,
          )
      | inr later ↦
          let (b, prefix, j, o, is) = services_of_sound spec s xs hs later in
          (b, prefix, inr j, o, is)
    ]
  ]

  services_of_complete :
      (spec : DiscoverySpec) (a : A) (prefix : String) (xs : List A)
      → All (λ a. IsMap (source.annotations a)) xs
      → In a xs
      → OptsIn source spec a prefix
      → In (service_under to_lower source a prefix) (services_of to_lower source spec xs)
  services_of_complete spec a prefix [] h i o = absurd i
  services_of_complete spec a prefix (x ∷ xs) (h, hs) (inl e) o =
      let o' : OptsIn source spec x prefix = rw e at o in
      let found = OptsIn-discovery_annotations spec x prefix o' in
      rw (services_of_found spec x xs found, e) (inl (sym (service_of-strip x prefix h)))
  services_of_complete spec a prefix (x ∷ xs) (h, hs) (inr i) o =
      let later = services_of_complete spec a prefix xs hs i o in
      elim (Option-cases (opted_in spec x)) [
        | inl skipped ↦ rw (services_of_skipped spec x xs skipped) later
        | inr (ann, e) ↦ rw (services_of_found spec x xs e) (inr later)
      ]

module _ (to_lower : String → String) {A : Type 0} (source : Source A) where
  -- A service is discovered exactly if some listed object opts in by some prefix, and the service
  -- has that object's key and the texts of its annotations under that one prefix.
  pub discover-OptsIn :
      (own : List A) (list_extra : String → Listed A) (extra_namespaces : List String)
      (spec : DiscoverySpec) (out : List DiscoveredService) (s : DiscoveredService)
      → All
          (λ a. IsMap (source.annotations a))
          (append_extras to_lower source list_extra extra_namespaces own)
      → discover to_lower source (items own) list_extra extra_namespaces spec ≡ ok out
      → In s out
        ↔ IsFrom to_lower source spec
            (append_extras to_lower source list_extra extra_namespaces own)
            s
  unfolding discover
  discover-OptsIn own list_extra extra_namespaces spec out s h e =
      let listed = append_extras to_lower source list_extra extra_namespaces own in
      let found = services_of to_lower source spec listed in
      let sorted = In-sort_func (by_key compare_text (λ t. t.key)) s found in
      let e' = ok-injective e in
      subst (λ l. In s l ↔ IsFrom to_lower source spec listed s) e'
        (
          λ i. services_of_sound to_lower source spec s listed h (sorted.0 i),
          λ (a, prefix, j, o, is).
              sorted.1 (rw (is) (services_of_complete to_lower source spec a prefix listed h j o)),
        )

  append_extras_failed :
      (list_extra : String → Listed A) (before after : List String) (ns : String) (found : List A)
      (e : String)
      → list_extra ns ≡ list_failed e
      → append_extras to_lower source list_extra (before ++ ns ∷ after) found
        ≡ append_extras to_lower source list_extra (before ++ after) found
  unfolding append_extras extra_items
  append_extras_failed list_extra [] after ns found e h =
      ap
        (λ l.
          append_extras to_lower source list_extra after (found ++ extra_items to_lower source l))
        h
      ∙ (ap (append_extras to_lower source list_extra after) (append-nil found))
  append_extras_failed list_extra (b ∷ before) after ns found e h =
      append_extras_failed list_extra before after ns
        (found ++ extra_items to_lower source (list_extra b)) e h

  -- A failure to list the Dashboard's own namespace is an error. A failure to list another one is
  -- none: the services are those without that namespace, wherever in the order it stands.
  pub discover-failures :
      (own : Listed A) (list_extra : String → Listed A) (before after : List String) (ns : String)
      (spec : DiscoverySpec) (e : String)
      → list_extra ns ≡ list_failed e
      → (discover to_lower source own list_extra (before ++ ns ∷ after) spec
          ≡ discover to_lower source own list_extra (before ++ after) spec)
        × (((reason : String) × (discover to_lower source own list_extra (before ++ ns ∷ after) spec
                ≡ err reason))
            ↔ ((reason : String) × (own ≡ list_failed reason)))
  unfolding discover
  discover-failures (list_failed reason) list_extra before after ns spec e h =
      (refl, (λ f. (reason, refl), λ f. (text (source.list_error ∷ reason ∷ []), refl)))
  discover-failures (items own) list_extra before after ns spec e h = (
    ap
        (λ xs.
          ok (sort_func (by_key compare_text (λ s. s.key)) (services_of to_lower source spec xs)))
        (append_extras_failed list_extra before after ns own e h),
    (λ (reason, f). absurd (cc f), λ (reason, f). absurd (cc f)),
  )

  -- The services come in the order of their keys.
  pub discover-IsSorted :
      (own : Listed A) (list_extra : String → Listed A) (extra_namespaces : List String)
      (spec : DiscoverySpec) (out : List DiscoveredService)
      → discover to_lower source own list_extra extra_namespaces spec ≡ ok out
      → IsSorted (by_key compare_text (λ s. s.key)) out
  unfolding discover
  discover-IsSorted (list_failed reason) list_extra extra_namespaces spec out e = absurd (cc e)
  discover-IsSorted (items own) list_extra extra_namespaces spec out e =
      let by = by_key compare_text (λ s. s.key) in
      let order = by_key-IsOrder compare_text (λ s. s.key) compare_text-IsOrder in
      subst (IsSorted by) (ok-injective e) (sort_func-IsSorted by order _)
