-- ===== src/Pod/Cycle/Jobs.antt =====
-- The jobs of a cycle for the entries of ServiceCards.
use kubepage_operator.Prelude.{
  ℕ, zero, suc, ◌+◌, String, true, some, List, [], ◌∷◌, ◌≡◌, refl, ap, ◌∙◌, subst, inl, inr, arith,
  Bool-cases, In, get_elem?,
}
use kubepage_operator.Prelude.Members.{In-append}
use kubepage_operator.Api.{ServiceEntry, ServiceCard, bound_to, ref_name, service_entries}
use kubepage_operator.Pod.Job.{Job}
use kubepage_operator.Pod.Cycle.{entry_jobs, service_card_jobs}

entry_jobs-In :
    (ns name : String) (idx : ℕ) (entries : List ServiceEntry) (j : ℕ) (se : ServiceEntry)
    → get_elem? entries j ≡ some se
    → In (Job.entry_job ns name (idx + j) se) (entry_jobs ns name idx entries)
unfolding entry_jobs
entry_jobs-In ns name idx [] j se h = absurd (cc h)
entry_jobs-In ns name idx (x ∷ entries) zero se h =
    let same : x ≡ se = ground arith in
    let at : idx + 0 ≡ idx = omega arith in inl (rw (same, at) refl)
entry_jobs-In ns name idx (x ∷ entries) (suc j) se h =
    let at : (idx + 1) + j ≡ idx + suc j = omega arith in
    inr (
      subst (λ n. In (Job.entry_job ns name n se) (entry_jobs ns name (idx + 1) entries)) at
        (entry_jobs-In ns name (idx + 1) entries j se h))

pub service_card_jobs-In :
    (dashboard_name : String) (count : ℕ) (cards : List ServiceCard) (card : ServiceCard) (idx : ℕ)
    (se : ServiceEntry)
    → In card cards
    → bound_to (ref_name card.dashboard_ref) dashboard_name count ≡ true
    → get_elem? (service_entries card) idx ≡ some se
    → In
        (Job.entry_job card.namespace card.name idx se)
        (service_card_jobs dashboard_name count cards)
unfolding service_card_jobs
service_card_jobs-In dashboard_name count [] card idx se i b h = absurd i
service_card_jobs-In dashboard_name count (x ∷ cards) card idx se (inl e) b h =
    let bound : bound_to (ref_name x.dashboard_ref) dashboard_name count ≡ true = rw e at b in
    let h' : get_elem? (service_entries x) idx ≡ some se = rw e at h in
    let at : 0 + idx ≡ idx = omega arith in
    let jobs = entry_jobs x.namespace x.name 0 (service_entries x) in
    rw (e, bound, service_card_jobs)
      ((In-append _ _ _).1 (
        inl (
          subst (λ n. In (Job.entry_job x.namespace x.name n se) jobs) at
            (entry_jobs-In x.namespace x.name 0 (service_entries x) idx se h'))))
service_card_jobs-In dashboard_name count (x ∷ cards) card idx se (inr i) b h =
    let later = service_card_jobs-In dashboard_name count cards card idx se i b h in
    elim (Bool-cases (bound_to (ref_name x.dashboard_ref) dashboard_name count)) [
      | inl bound ↦ rw (bound, service_card_jobs) ((In-append _ _ _).1 (inr later))
      | inr unbound ↦ rw (unbound, service_card_jobs) later
    ]

-- The jobs of the bound ServiceCards are for their entries.
pub data IsOf (dashboard_name : String) (count : ℕ) (cards : List ServiceCard) (job : Job)
    : Type 0 where
  of_card :
      (card : ServiceCard) (idx : ℕ) (se : ServiceEntry)
      → In card cards
      → bound_to (ref_name card.dashboard_ref) dashboard_name count ≡ true
      → get_elem? (service_entries card) idx ≡ some se
      → job ≡ Job.entry_job card.namespace card.name idx se
      → IsOf dashboard_name count cards job

entry_jobs-elem :
    (ns name : String) (idx : ℕ) (entries : List ServiceEntry) (job : Job)
    → In job (entry_jobs ns name idx entries)
    → (j : ℕ) × (se : ServiceEntry) × (get_elem? entries j ≡ some se)
      × (job ≡ Job.entry_job ns name (idx + j) se)
unfolding entry_jobs
entry_jobs-elem ns name idx [] job i = absurd i
entry_jobs-elem ns name idx (x ∷ entries) job (inl e) =
    let at : idx ≡ idx + 0 = omega arith in (0, x, refl, e ∙ ap (λ n. Job.entry_job ns name n x) at)
entry_jobs-elem ns name idx (x ∷ entries) job (inr i) =
    let (j, se, found, e) = entry_jobs-elem ns name (idx + 1) entries job i in
    let at : (idx + 1) + j ≡ idx + suc j = omega arith in
    (suc j, se, found, e ∙ ap (λ n. Job.entry_job ns name n se) at)

IsOf-later :
    {dashboard_name : String} {count : ℕ} {cards : List ServiceCard} {job : Job} (x : ServiceCard)
    → IsOf dashboard_name count cards job
    → IsOf dashboard_name count (x ∷ cards) job
IsOf-later x (of_card card idx se i b h e) = of_card card idx se (inr i) b h e

pub service_card_jobs-IsOf :
    (dashboard_name : String) (count : ℕ) (cards : List ServiceCard) (job : Job)
    → In job (service_card_jobs dashboard_name count cards)
    → IsOf dashboard_name count cards job
unfolding service_card_jobs
service_card_jobs-IsOf dashboard_name count [] job i = absurd i
service_card_jobs-IsOf dashboard_name count (x ∷ cards) job i =
    elim (Bool-cases (bound_to (ref_name x.dashboard_ref) dashboard_name count)) [
      | inl bound ↦
          elim ((In-append job (entry_jobs x.namespace x.name 0 (service_entries x)) _).0
            (rw (bound, service_card_jobs) at i)) [
              | inl own ↦
                  let (j, se, at, e) =
                    entry_jobs-elem x.namespace x.name 0 (service_entries x) job own in
                  let from : 0 + j ≡ j = omega arith in
                  of_card x j se (inl refl) bound at
                    (e ∙ ap (λ n. Job.entry_job x.namespace x.name n se) from)
              | inr later ↦
                  IsOf-later x (service_card_jobs-IsOf dashboard_name count cards job later)
            ]
      | inr unbound ↦ IsOf-later x (
          service_card_jobs-IsOf dashboard_name count cards job
            (rw (unbound, service_card_jobs) at i))
    ]
