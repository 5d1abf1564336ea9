-- ===== src/Controller/Binding/Agreement.antt =====
-- The controller's answer (the Available condition) and the dashboard pod's (`bound_to`) agree.
use kubepage_operator.Prelude.{
  ℕ, suc, ◌≤◌, String, Bool, true, false, List, [], ◌∷◌, ◌==◌, ◌≡◌, ◌≢◌, refl, arith, length, any,
  select, eq_iff, inl, inr, Bool-cases, if◌then◌else◌, contains, AreDistinct,
}
use kubepage_operator.Prelude.Format.{Format}
use kubepage_operator.Prelude.Result.{Result, ok, err}
use kubepage_operator.Api.{Dashboard, bound_to}
use kubepage_operator.Cluster.{Reader, Read, found, not_found, items}
use kubepage_operator.Controller.Condition.{Condition, Status, condition_true, condition_false}
use kubepage_operator.Controller.Binding.{
  explicit_condition, default_condition, bound_dashboard_condition,
}

abbrev pub names : List Dashboard → List String
names [] = []
names (d ∷ ds) = d.name ∷ names ds

abbrev pub find_named : String → List Dashboard → Read Dashboard
find_named name [] = not_found
find_named name (d ∷ ds) = if d.name == name then found d else find_named name ds

-- The server's `Get` and `List` show the same Dashboards of a namespace.
pub record Serves (c : Reader) (namespace : String) (ds : List Dashboard) : Type 0 where
  pub listed : c.list_dashboards namespace ≡ items ds
  pub got : (name : String) → c.get_dashboard namespace name ≡ find_named name ds
  pub distinct : AreDistinct (names ds)

abbrev pub is_true : Status → Bool
is_true condition_true = true
is_true condition_false = false

abbrev pub is_available : Result Condition → Bool
is_available (ok cond) = is_true cond.status
is_available (err e) = false

module _ (fmt : Format) where
  explicit_agrees :
      (namespace ref : String) (generation n : ℕ) (ds : List Dashboard)
      → (ref == "") ≡ false
      → is_available (explicit_condition fmt namespace ref generation (find_named ref ds))
        ≡ any (λ d. bound_to ref d.name n) ds
  unfolding explicit_condition bound_to
  explicit_agrees namespace ref generation n [] h = refl
  explicit_agrees namespace ref generation n (d ∷ ds) h =
      ground (
        arith,
        explicit_agrees namespace ref generation n ds h,
        eq_iff d.name ref,
        eq_iff ref d.name,
      )

  none_bound :
      (n : ℕ) (ds : List Dashboard) → any (λ d. bound_to "" d.name (suc (suc n))) ds ≡ false
  unfolding bound_to
  none_bound n [] = refl
  none_bound n (d ∷ ds) = ground (arith, none_bound n ds)

  default_agrees :
      (namespace : String) (generation : ℕ) (ds : List Dashboard)
      → is_true (default_condition fmt namespace generation ds).status
        ≡ any (λ d. bound_to "" d.name (length ds)) ds
  unfolding default_condition
  default_agrees namespace generation [] = refl
  default_agrees namespace generation (d ∷ []) = unfold bound_to in refl
  default_agrees namespace generation (d ∷ e ∷ ds) =
      ground (arith, none_bound (length ds) (d ∷ e ∷ ds))

  -- Where the server serves the Dashboards `ds` of a namespace consistently, the Available
  -- condition of a config object is True exactly when the dashboard pod of one of them takes the
  -- object as bound to it.
  pub condition-bound_to :
      (c : Reader) (namespace ref : String) (generation : ℕ) (ds : List Dashboard)
      → Serves c namespace ds
      → is_available (bound_dashboard_condition fmt c namespace ref generation)
        ≡ any (λ d. bound_to ref d.name (length ds)) ds
  unfolding bound_dashboard_condition
  condition-bound_to c namespace ref generation ds s = elim (Bool-cases (ref == "")) [
    | inl unset ↦
        let e : ref ≡ "" = (eq_iff ref "").0 unset in
        rw (e, s.listed) (default_agrees namespace generation ds)
    | inr explicit ↦
        rw (explicit, s.got ref) (explicit_agrees namespace ref generation (length ds) ds explicit)
  ]

explicit_none :
    (ref : String) (n : ℕ) (ds : List Dashboard)
    → (ref == "") ≡ false
    → contains (names ds) ref ≡ false
    → length (select (λ d. bound_to ref d.name n) ds) ≡ 0
unfolding bound_to
explicit_none ref n [] h k = refl
explicit_none ref n (d ∷ ds) h k =
    ground (arith, explicit_none ref n ds h, eq_iff d.name ref, eq_iff ref d.name)

explicit_one :
    (ref : String) (n : ℕ) (ds : List Dashboard)
    → (ref == "") ≡ false
    → AreDistinct (names ds)
    → length (select (λ d. bound_to ref d.name n) ds) ≤ 1
unfolding bound_to
explicit_one ref n [] h k = omega arith
explicit_one ref n (d ∷ ds) h (k, ks) = elim (Bool-cases (ref == d.name)) [
  | inl same ↦
      ground (arith, explicit_none ref n ds h, eq_iff ref d.name, explicit_one ref n ds h ks)
  | inr other ↦ ground (arith, explicit_one ref n ds h ks)
]

length-select_le {ℓ} : {A : Type ℓ} (p : A → Bool) (xs : List A) → length (select p xs) ≤ length xs
length-select_le p [] = omega arith
length-select_le p (x ∷ xs) = ground (arith, length-select_le p xs)

select_none :
    (n : ℕ) (ds : List Dashboard) → n ≢ 1 → length (select (λ d. bound_to "" d.name n) ds) ≡ 0
unfolding bound_to
select_none n [] h = refl
select_none n (d ∷ ds) h = ground (arith, select_none n ds h)

default_one : (ds : List Dashboard) → length (select (λ d. bound_to "" d.name (length ds)) ds) ≤ 1
default_one [] = omega arith
default_one (d ∷ []) = length-select_le (λ i. bound_to "" i.name 1) (d ∷ [])
default_one (d ∷ e ∷ ds) =
    let h : length (d ∷ e ∷ ds) ≢ 1 = omega arith in
    omega (arith, select_none (length (d ∷ e ∷ ds)) (d ∷ e ∷ ds) h)

-- Of Dashboards with distinct names, at most one takes a config object as bound to it, whatever the
-- object's dashboardRef.
pub bound_to_unique :
    (ref : String) (ds : List Dashboard)
    → AreDistinct (names ds)
    → length (select (λ d. bound_to ref d.name (length ds)) ds) ≤ 1
bound_to_unique ref ds h = elim (Bool-cases (ref == "")) [
  | inl unset ↦ rw ((eq_iff ref "").0 unset) (default_one ds)
  | inr explicit ↦ explicit_one ref (length ds) ds explicit h
]

find_named-answers :
    (fmt : Format) (namespace ref : String) (generation : ℕ) (ds : List Dashboard)
    → (cond : Condition) × (explicit_condition fmt namespace ref generation (find_named ref ds)
        ≡ ok cond)
unfolding explicit_condition
find_named-answers fmt namespace ref generation [] = (_, refl)
find_named-answers fmt namespace ref generation (d ∷ ds) = elim (Bool-cases (d.name == ref)) [
  | inl same ↦ rw same (_, refl)
  | inr other ↦ rw other (find_named-answers fmt namespace ref generation ds)
]

-- Where the server answers, so does the check of the dashboardRef.
pub condition-answers :
    (fmt : Format) (c : Reader) (namespace ref : String) (generation : ℕ) {ds : List Dashboard}
    → Serves c namespace ds
    → (cond : Condition) × (bound_dashboard_condition fmt c namespace ref generation ≡ ok cond)
unfolding bound_dashboard_condition
condition-answers fmt c namespace ref generation {ds} s = elim (Bool-cases (ref == "")) [
  | inl unset ↦ rw (unset, s.listed) (_, refl)
  | inr explicit ↦ rw (explicit, s.got ref) (find_named-answers fmt namespace ref generation ds)
]
