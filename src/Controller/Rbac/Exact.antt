-- ===== src/Controller/Rbac/Exact.antt =====
-- The names of the Role, by the objects of its Dashboard.
use kubepage_operator.Prelude.{
  ℕ, String, Bool, true, false, Option, none, some, List, ◌==◌, ◌&&◌, ◌||◌, ◌≡◌, refl, ◌⊎◌, inl,
  inr, ◌↔◌, arith, contains, Option-cases, Bool-cases, or_else, eq_iff, subst, sym, ◌∙◌,
}
use kubepage_operator.Prelude.Format.{Format}
use kubepage_operator.Prelude.Map.{lookup}
use kubepage_operator.Prelude.Result.{ok}
use kubepage_operator.Api.{ServiceCard, InfoWidget, Dashboard, AuthSpec}
use kubepage_operator.Cluster.{Reader, SecretReader, Read, found, not_found, failed, Secret, items}
use kubepage_operator.Controller.Binding.{namespace_dashboard_count}
use kubepage_operator.Controller.Rbac.{is_labeled, auth_secret_names, role_names}
use kubepage_operator.Controller.Rbac.Names.{permitted, allows, contains-role_names}
use kubepage_operator.Controller.Rbac.Referenced.{
  IsReferenced, refs, refs-IsReferenced, IsReferenced-refs, all_references-refs,
}

-- A Secret that widgets may use: any, unless secretPolicy is Labeled, and then one that is there and
-- has the label with the value true.
pub data IsPermitted (direct_reader : SecretReader) (dash : Dashboard) (s : String) : Type 0 where
  unlabeled :
      (or_else dash.secret_policy "" == "Labeled") ≡ false → IsPermitted direct_reader dash s
  labeled :
      (secret : Secret)
      → direct_reader dash.namespace s ≡ found secret
      → lookup "page.kubepage.dev/allow-widgets" secret.labels ≡ some "true"
      → IsPermitted direct_reader dash s

-- The Secret of the Dashboard's basic authentication.
pub data IsAuthSecret (dash : Dashboard) (s : String) : Type 0 where
  auth_secret :
      (auth : AuthSpec)
      → dash.auth ≡ some auth
      → auth.basic_auth_secret_ref ≡ some s
      → IsAuthSecret dash s

module _ (fmt : Format) (client : Reader) (direct_reader : SecretReader) (dash : Dashboard)
    (s : String) where
  is_labeled-stated :
      (policy : Option String)
      → is_labeled fmt client direct_reader policy ≡ (or_else policy "" == "Labeled")
  is_labeled-stated none = refl
  is_labeled-stated (some policy) = refl

  -- The test of a label's value.
  abbrev is_true_label : Option String → Bool
  is_true_label none = false
  is_true_label (some value) = value == "true"

  allows-label :
      (secret : Secret) {value : Option String}
      → lookup "page.kubepage.dev/allow-widgets" secret.labels ≡ value
      → allows fmt client direct_reader (found secret) ≡ is_true_label value
  allows-label secret e =
      subst
        (λ v.
          is_true_label (lookup "page.kubepage.dev/allow-widgets" secret.labels) ≡ is_true_label v)
        e refl

  allows-labeled :
      (answer : Read Secret)
      → direct_reader dash.namespace s ≡ answer
      → allows fmt client direct_reader answer ≡ true
      → IsPermitted direct_reader dash s
  allows-labeled not_found e h = absurd (cc h)
  allows-labeled (failed msg) e h = absurd (cc h)
  allows-labeled (found secret) e h =
      elim (Option-cases (lookup "page.kubepage.dev/allow-widgets" secret.labels)) [
        | inl missing ↦ absurd (cc (sym (allows-label secret missing) ∙ h))
        | inr (value, label) ↦
            let is_true : value ≡ "true" =
              (eq_iff value "true").0 (sym (allows-label secret label) ∙ h) in
            labeled secret e (rw (← is_true) label)
      ]

  permitted-IsPermitted :
      permitted fmt client direct_reader dash s ≡ true → IsPermitted direct_reader dash s
  permitted-IsPermitted h =
      elim (Bool-cases (is_labeled fmt client direct_reader dash.secret_policy)) [
        | inl policy ↦ allows-labeled (direct_reader dash.namespace s) refl (rw policy at h)
        | inr free ↦ unlabeled (rw (← is_labeled-stated dash.secret_policy) free)
      ]

  IsPermitted-permitted :
      IsPermitted direct_reader dash s → permitted fmt client direct_reader dash s ≡ true
  IsPermitted-permitted (unlabeled free) =
      let policy : is_labeled fmt client direct_reader dash.secret_policy ≡ false =
        rw (is_labeled-stated dash.secret_policy) free in
      rw policy refl
  IsPermitted-permitted (labeled secret e label) =
      elim (Bool-cases (is_labeled fmt client direct_reader dash.secret_policy)) [
        | inl policy ↦ rw (policy, e) (allows-label secret label)
        | inr free ↦ rw free refl
      ]

  auth_of :
      (auth : Option AuthSpec)
      → dash.auth ≡ auth
      → contains (auth_secret_names dash) s ≡ true
      → IsAuthSecret dash s
  unfolding auth_secret_names
  auth_of none e h = absurd (cc (rw e at h))
  auth_of (some auth) e h = elim (Option-cases auth.basic_auth_secret_ref) [
    | inl missing ↦ absurd (cc (rw (e, missing) at h))
    | inr (name, ref) ↦
        let named = rw (e, ref) at h in
        let same : name ≡ s = ground (arith, eq_iff name s) in auth_secret auth e (rw (← same) ref)
  ]

  IsAuthSecret-contains : IsAuthSecret dash s → contains (auth_secret_names dash) s ≡ true
  unfolding auth_secret_names
  IsAuthSecret-contains (auth_secret auth e ref) = rw (e, ref) (ground (arith, eq_iff s s))

  named_by :
      (count : ℕ) (cards : List ServiceCard) (infos : List InfoWidget)
      → (contains (refs dash count cards infos s) s && permitted fmt client direct_reader dash s
          || contains (auth_secret_names dash) s)
        ≡ true
      → (IsReferenced dash count cards infos s × IsPermitted direct_reader dash s)
        ⊎ IsAuthSecret dash s
  named_by count cards infos h = elim (Bool-cases (contains (auth_secret_names dash) s)) [
    | inl auth ↦ inr (auth_of dash.auth refl auth)
    | inr other ↦ inl (
      refs-IsReferenced dash count cards infos s (ground arith),
      permitted-IsPermitted (ground arith),
    )
  ]

  names_all :
      (count : ℕ) (cards : List ServiceCard) (infos : List InfoWidget)
      → (IsReferenced dash count cards infos s × IsPermitted direct_reader dash s)
        ⊎ IsAuthSecret dash s
      → (contains (refs dash count cards infos s) s && permitted fmt client direct_reader dash s
          || contains (auth_secret_names dash) s)
        ≡ true
  names_all count cards infos (inl (by, may)) =
      let named = IsReferenced-refs dash count cards infos s by in
      rw (named, IsPermitted-permitted may) refl
  names_all count cards infos (inr auth) =
      let named = IsAuthSecret-contains auth in rw named (ground arith)

  -- A Role that is computed names a Secret exactly where a widget of a bound ServiceCard or InfoWidget
  -- or a widget default of the Dashboard references it and, under secretPolicy Labeled, it is there
  -- with the label; and besides, needing no label, the Secret of the basic authentication.
  pub role_names_exact :
      (names : List String) (count : ℕ) (cards : List ServiceCard) (infos : List InfoWidget)
      → namespace_dashboard_count client dash.namespace ≡ ok count
      → client.list_service_cards dash.namespace ≡ items cards
      → client.list_info_widgets dash.namespace ≡ items infos
      → role_names fmt client direct_reader dash ≡ ok names
      → (contains names s ≡ true) ↔ (
          (IsReferenced dash count cards infos s × IsPermitted direct_reader dash s)
          ⊎ IsAuthSecret dash s)
  role_names_exact names count cards infos counted listed infos_listed role =
      let all_refs = refs dash count cards infos s in
      let refs_are =
        all_references-refs dash count cards infos s fmt client direct_reader counted listed
          infos_listed in
      let exact =
        contains-role_names fmt client direct_reader dash names all_refs s refs_are role in
      (
        λ h. named_by count cards infos (rw exact at h),
        λ by. rw exact (names_all count cards infos by),
      )
