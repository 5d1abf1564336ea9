-- ===== src/Pod/Job/Stored.antt =====
-- What any job of a cycle does to the cards and to the keys to keep.
use kubepage_operator.Prelude.{
  ℕ, ◌<◌, String, true, ◌==◌, ◌≡◌, sym, ◌⊎◌, inl, inr, arith, contains, length, eq_iff, eq_refl,
  Bool-cases,
}
use kubepage_operator.Pod.Merge.Keys.{widget_key}
use kubepage_operator.Pod.Work.{Cycling, Settings, Work, mark_keep, Grows, Grows-trans}
use kubepage_operator.Pod.EntryPoll.Stored.{
  IsEntryKey, Stores, poll_entry-PollsEntry, poll_discovered_service-Puts,
}
use kubepage_operator.Pod.HeaderPoll.Stored.{poll_info_widget-Leaves}
use kubepage_operator.Pod.Job.{Job, run_job}

module _ (env : Cycling) where
  -- The keys that a job may keep.
  abbrev pub IsJobKey : Job → String → Type 0
  IsJobKey (Job.entry_job ns name idx se) k = IsEntryKey env ns name idx se k
  IsJobKey (Job.service_job svc) k = k ≡ svc.key
  IsJobKey (Job.header_job key iw entry) k = k ≡ key

  marked-Grows : (key : String) (w : Work env) → Grows env w (mark_keep env key w)
  marked-Grows key w = record { holds = λ k h. h; keeps = λ k h. ground arith }

  pub run_job-Grows :
      (settings : Settings) (job : Job) (w : Work env) → Grows env w (run_job env settings job w)
  unfolding run_job
  run_job-Grows settings (Job.entry_job ns name idx se) w =
      (poll_entry-PollsEntry env settings ns name idx se w).grows
  run_job-Grows settings (Job.service_job svc) w =
      Grows-trans env (marked-Grows svc.key w) (poll_discovered_service-Puts env svc _).grows
  run_job-Grows settings (Job.header_job key iw entry) w =
      Grows-trans env (marked-Grows key w)
        (poll_info_widget-Leaves env settings key iw entry _).grows

  marked :
      (key k : String) (w : Work env)
      → contains (mark_keep env key w).keep k ≡ true
      → (contains w.keep k ≡ true) ⊎ (k ≡ key)
  marked key k w h = elim (Bool-cases (key == k)) [
    | inl same ↦ inr (sym ((eq_iff key k).0 same))
    | inr other ↦ inl (ground arith)
  ]

  pub run_job-keys :
      (settings : Settings) (job : Job) (w : Work env) (k : String)
      → contains (run_job env settings job w).keep k ≡ true
      → (contains w.keep k ≡ true) ⊎ IsJobKey job k
  unfolding run_job
  run_job-keys settings (Job.entry_job ns name idx se) w k h =
      (poll_entry-PollsEntry env settings ns name idx se w).keys k h
  run_job-keys settings (Job.service_job svc) w k h =
      let puts = poll_discovered_service-Puts env svc (mark_keep env svc.key w) in
      marked svc.key k w (rw (puts.same) at h)
  run_job-keys settings (Job.header_job key iw entry) w k h =
      let leaves = poll_info_widget-Leaves env settings key iw entry (mark_keep env key w) in
      marked key k w (rw (leaves.same) at h)

  -- The key of a card that a job is sure to leave.
  abbrev pub IsSureKey : Job → String → Type 0
  IsSureKey (Job.entry_job ns name idx se) k =
      (i : ℕ) × (i < length se.widgets) × (k ≡ widget_key env.polling.fmt ns name idx i)
  IsSureKey (Job.service_job svc) k = k ≡ svc.key
  IsSureKey (Job.header_job key iw entry) k = ⊥

  pub run_job-Stores :
      (settings : Settings) (job : Job) (w : Work env) (k : String)
      → IsSureKey job k
      → Stores env k (run_job env settings job w)
  unfolding run_job
  run_job-Stores settings (Job.entry_job ns name idx se) w k (i, l, e) =
      rw (e) ((poll_entry-PollsEntry env settings ns name idx se w).stores i l)
  run_job-Stores settings (Job.service_job svc) w k e =
      let puts = poll_discovered_service-Puts env svc (mark_keep env svc.key w) in
      rw (e) (puts.holds, rw (puts.same) (ground (arith, eq_refl svc.key)))
  run_job-Stores settings (Job.header_job key iw entry) w k e = absurd e
