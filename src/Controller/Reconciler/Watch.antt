-- ===== src/Controller/Reconciler/Watch.antt =====
-- The watch on Dashboards: what a Dashboard event enqueues.
use kubepage_operator.Prelude.{
  ℕ, String, Bool, true, false, List, [], ◌∷◌, ◌≡◌, refl, ◌==◌, ◌&&◌, ◌||◌, ◌∙◌, ◌≢◌, inl, inr, any,
  any-append, arith, length, select, eq_iff, Bool-cases,
}
use kubepage_operator.Api.{Dashboard, bound_to}
use kubepage_operator.Cluster.{Listed, items}
use kubepage_operator.Controller.Reconciler.{
  Adapter, Request, request_of, requests_of, map_dashboard_to_requests,
}

abbrev pub asks : String → String → Request → Bool
asks namespace name q = q.name == name && q.namespace == namespace

abbrev pub Holds : Bool → Type 0
Holds b = b ≡ true

module _ {T : Type 0} (r : Adapter T) where
  -- Among the objects of the index stands one with these names and this ref.
  abbrev pub is_listed : String → T → List T → Bool
  is_listed ref t all =
      any (λ u. r.ref_name u == ref && asks (r.namespace t) (r.name t) (request_of r u)) all

  -- The index on the dashboardRef: of all the objects of the namespace, those with the ref.
  abbrev pub Indexes : (String → String → Listed T) → String → List T → Type 0
  Indexes list_by_ref namespace all =
      (ref : String) → list_by_ref namespace ref ≡ items (select (λ u. r.ref_name u == ref) all)

  requests-select :
      (ref : String) (t : T) (all : List T)
      → any
          (asks (r.namespace t) (r.name t))
          (requests_of r (items (select (λ u. r.ref_name u == ref) all)))
        ≡ is_listed ref t all
  unfolding requests_of
  requests-select ref t [] = refl
  requests-select ref t (u ∷ all) = ground (arith, requests-select ref t all)

  -- A Dashboard event enqueues exactly the objects of its namespace whose dashboardRef names it or
  -- is unset, where the indexed list calls answer.
  pub requests_exact :
      (list_by_ref : String → String → Listed T) (dash : Dashboard) (t : T) (all : List T)
      → Indexes list_by_ref dash.namespace all
      → any (asks (r.namespace t) (r.name t)) (map_dashboard_to_requests r list_by_ref dash)
        ≡ (is_listed dash.name t all || is_listed "" t all)
  unfolding map_dashboard_to_requests
  requests_exact list_by_ref dash t all index =
      rw (index dash.name, index "")
        (any-append (asks (r.namespace t) (r.name t))
            (requests_of r (items (select (λ u. r.ref_name u == dash.name) all)))
            (requests_of r (items (select (λ u. r.ref_name u == "") all)))
          ∙ rw (requests-select dash.name t all, requests-select "" t all) refl)

  abbrev is_member : T → List T → Bool
  is_member t all =
      any (λ u. r.ref_name u == r.ref_name t && asks (r.namespace t) (r.name t) (request_of r u))
        all

  -- An object that names another Dashboard binds the same with `dash` or without.
  unaffected :
      (ref : String) (dash : Dashboard) (n m : ℕ) (ds : List Dashboard)
      → (ref == "") ≡ false
      → (ref == dash.name) ≡ false
      → any (λ d. bound_to ref d.name n) (dash ∷ ds) ≡ any (λ d. bound_to ref d.name m) ds
  unfolding bound_to
  unaffected ref dash n m [] h k = ground arith
  unaffected ref dash n m (d ∷ ds) h k = ground (arith, unaffected ref dash n m ds h k)

  -- Where the arrival or the removal of a Dashboard changes whether an object of its namespace is
  -- bound, the Dashboard's event enqueues the object, if the indexed list calls answer.
  pub watch_complete :
      (list_by_ref : String → String → Listed T) (dash : Dashboard) (ds : List Dashboard) (t : T)
      (all : List T)
      → Indexes list_by_ref dash.namespace all
      → is_member t all ≡ true
      → any (λ d. bound_to (r.ref_name t) d.name (length (dash ∷ ds))) (dash ∷ ds)
        ≢ any (λ d. bound_to (r.ref_name t) d.name (length ds)) ds
      → any (asks (r.namespace t) (r.name t)) (map_dashboard_to_requests r list_by_ref dash) ≡ true
  watch_complete list_by_ref dash ds t all index member changed =
      rw (requests_exact list_by_ref dash t all index) (elim (Bool-cases (r.ref_name t == "")) [
        | inl unset ↦
            let e : r.ref_name t ≡ "" = (eq_iff _ _).0 unset in ground (arith, rw e at member)
        | inr explicit ↦ elim (Bool-cases (r.ref_name t == dash.name)) [
          | inl names ↦
              let e : r.ref_name t ≡ dash.name = (eq_iff _ _).0 names in
              ground (arith, rw e at member)
          | inr other ↦ absurd (changed (unaffected (r.ref_name t) dash _ _ ds explicit other))
        ]
      ])
