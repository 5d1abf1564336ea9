-- ===== src/Pod/Cycle/Keys.antt =====
-- The cards that a cycle stores, by their keys.
use kubepage_operator.Prelude.{
  String, true, List, [], ◌∷◌, ◌&&◌, ◌≡◌, refl, subst, ◌⊎◌, inl, inr, arith, contains, length,
  is_some, In,
}
use kubepage_operator.Prelude.Map.{lookup-retain}
use kubepage_operator.Api.{ServiceCard, Dashboard}
use kubepage_operator.Cluster.{items}
use kubepage_operator.Controller.Binding.{namespace_dashboard_count}
use kubepage_operator.Pod.Store
use kubepage_operator.Pod.Work.{Cycling, Settings, Poller, Work, Grows, Grows-refl, Grows-trans}
use kubepage_operator.Pod.EntryPoll.Stored.{Stores}
use kubepage_operator.Pod.Job.{Job, run_job}
use kubepage_operator.Pod.Job.Stored.{
  IsJobKey, IsSureKey, run_job-Grows, run_job-keys, run_job-Stores,
}
use kubepage_operator.Pod.Cycle.{
  cycle_jobs, run_jobs, finish_cycle, with_cards, with_count, poll_once, settings_of,
  dashboard_spec_for_poll,
}

module _ (env : Cycling) where
  open env use {polling, namespace, dashboard_name, reader}

  run_jobs-Grows :
      (settings : Settings) (jobs : List Job) (w : Work env)
      → Grows env w (run_jobs env settings jobs w)
  unfolding run_jobs
  run_jobs-Grows settings [] w = Grows-refl env w
  run_jobs-Grows settings (job ∷ jobs) w =
      Grows-trans env (run_job-Grows env settings job w) (run_jobs-Grows settings jobs _)

  pub run_jobs-keys :
      (settings : Settings) (jobs : List Job) (w : Work env) (k : String)
      → contains (run_jobs env settings jobs w).keep k ≡ true
      → (contains w.keep k ≡ true) ⊎ ((job : Job) × In job jobs × IsJobKey env job k)
  unfolding run_jobs
  run_jobs-keys settings [] w k h = inl h
  run_jobs-keys settings (job ∷ jobs) w k h =
      elim (run_jobs-keys settings jobs (run_job env settings job w) k h) [
        | inl kept ↦ elim (run_job-keys env settings job w k kept) [
          | inl before ↦ inl before
          | inr own ↦ inr (job, inl refl, own)
        ]
        | inr (later, i, own) ↦ inr (later, inr i, own)
      ]

  pub run_jobs-Stores :
      (settings : Settings) (jobs : List Job) (w : Work env) (job : Job) (k : String)
      → In job jobs
      → IsSureKey env job k
      → Stores env k (run_jobs env settings jobs w)
  unfolding run_jobs
  run_jobs-Stores settings [] w job k i own = absurd i
  run_jobs-Stores settings (first ∷ jobs) w job k (inl e) own =
      let (holds, keeps) =
        run_job-Stores env settings first w k (subst (λ j. IsSureKey env j k) e own) in
      let grows = run_jobs-Grows settings jobs (run_job env settings first w) in
      (grows.holds k holds, grows.keeps k keeps)
  run_jobs-Stores settings (first ∷ jobs) w job k (inr i) own =
      run_jobs-Stores settings jobs (run_job env settings first w) job k i own

  -- After the prune, the store holds what it held under the kept keys.
  pub finish_cycle-get :
      (w : Work env) (k : String)
      → is_some (Store.get k (finish_cycle env w).poll.store)
        ≡ (contains w.keep k && is_some (Store.get k w.poller.poll.store))
  unfolding finish_cycle Store.get Store.prune
  finish_cycle-get w k = ground (arith, lookup-retain (contains w.keep) k w.poller.poll.store)

  -- A cycle whose lists were read.
  pub poll_once-items :
      (arrange : List Job → List Job) (p : Poller env) {ds : List Dashboard}
      {cards : List ServiceCard}
      → reader.list_dashboards namespace ≡ items ds
      → reader.list_service_cards namespace ≡ items cards
      → (start : Work env) × (start.keep ≡ [])
        × (poll_once env arrange p
            ≡ finish_cycle env (
                run_jobs env
                  (settings_of (reader.get_dashboard namespace dashboard_name))
                  (arrange (
                    cycle_jobs env
                      (dashboard_spec_for_poll (reader.get_dashboard namespace dashboard_name))
                      (length ds)
                      cards))
                  start))
  unfolding poll_once with_count with_cards namespace_dashboard_count
  poll_once-items arrange p d c = rw (d, c) (_, refl, refl)
