-- ===== src/JobQueue/Recovery/Resumed.antt =====
-- A recovery keeps the invariant of the queue.
use rag_pipeline_windows.Base.{
  String, Bool, true, false, ◌&&◌, not, List, [], ◌∷◌, ◌++◌, if◌then◌else◌, ◌≡◌, refl, inl, inr,
  Bool-cases, Option-cases,
}
use rag_pipeline_windows.Base.Dict.{Dict, has}
use rag_pipeline_windows.Jobs.{QueueJob, queued, new_job}
use rag_pipeline_windows.Ledger.{LedgerEntry, load}
use rag_pipeline_windows.JobQueue.State.{RagJobQueue, bump_state_version, ledger_record, is_nil}
use rag_pipeline_windows.JobQueue.Enqueue.{IdentityPayload, find_active_duplicate, ensure_worker}
use rag_pipeline_windows.JobQueue.Steps.{System}
use rag_pipeline_windows.JobQueue.Invariant.{Inv}
use rag_pipeline_windows.JobQueue.Preservation.{enters-Inv, ensure_worker_lem, same_jobs-Inv}
use rag_pipeline_windows.JobQueue.Recovery.{
  pending_entries, ledger_job, ledger_jobs, recovery_jobs_from_ledger, enter, take_uploads,
  take_tracked, recover_pending_uploads,
}

-- All the jobs wait, and none has a request to cancel.
abbrev pub AllWait : List QueueJob → Type 0
AllWait [] = Unit {0}
AllWait (j ∷ jobs) = (j.status ≡ queued) × (j.cancel_requested ≡ false) × AllWait jobs

pub ledger_jobs-AllWait :
    (now : String) (entries : Dict LedgerEntry) → AllWait (ledger_jobs now entries)
unfolding ledger_jobs ledger_job new_job
ledger_jobs-AllWait now [] = tt
ledger_jobs-AllWait now ((id, entry) ∷ entries) = (refl, refl, ledger_jobs-AllWait now entries)

pub recovery_jobs-AllWait :
    (readable : Bool) (now : String) (ledger : Dict LedgerEntry)
    → AllWait (recovery_jobs_from_ledger readable now ledger)
unfolding recovery_jobs_from_ledger
recovery_jobs-AllWait true now ledger = ledger_jobs-AllWait now (pending_entries ledger)
recovery_jobs-AllWait false now ledger = tt

take_uploads-Inv :
    (jobs : List QueueJob) (claimed : List String) (s : RagJobQueue)
    → AllWait jobs
    → Inv (record { shared = s; claimed = claimed })
    → Inv (record { shared = (take_uploads jobs s).1; claimed = claimed })
unfolding take_uploads
take_uploads-Inv [] claimed s w h = h
take_uploads-Inv (j ∷ jobs) claimed s (st, c, w) h = elim (Bool-cases (has j.id s.jobs)) [
  | inl e ↦ rw e (take_uploads-Inv jobs claimed s w h)
  | inr e ↦ rw e (
      take_uploads-Inv jobs claimed (enter j s) w
        (enters-Inv (record { shared = s; claimed = claimed }) (enter j s) j h e st c refl refl))
]

module _ (dumps : IdentityPayload → String) (written : Bool) (now : String) where
  take_tracked-Inv :
      (jobs : List QueueJob) (claimed : List String) (s : RagJobQueue)
      → AllWait jobs
      → Inv (record { shared = s; claimed = claimed })
      → Inv (record { shared = (take_tracked dumps written now jobs s).queue; claimed = claimed })
  unfolding take_tracked
  take_tracked-Inv [] claimed s w h = h
  take_tracked-Inv (j ∷ jobs) claimed s (st, c, w) h = elim (Bool-cases (has j.id s.jobs)) [
    | inl e ↦ rw e (take_tracked-Inv jobs claimed s w h)
    | inr e ↦ elim (Option-cases (find_active_duplicate dumps j s)) [
      | inl n ↦ rw e (
          rw n (
            take_tracked-Inv jobs claimed (ledger_record written j now (enter j s)) w (
              enters-Inv (record { shared = s; claimed = claimed })
                (ledger_record written j now (enter j s)) j h e st c (unfold ledger_record in refl)
                (unfold ledger_record in refl))))
      | inr (d, n) ↦ rw e (rw n (take_tracked-Inv jobs claimed s w h))
    ]
  ]

  -- The end of `recover_pending_uploads` leaves the jobs and the queue alone.
  pub woken_lem :
      (a b : Bool) (s : RagJobQueue)
      → let t = if a then ensure_worker s else s in
        let u = if b then t else bump_state_version t in (u.jobs ≡ s.jobs) × (u.queue ≡ s.queue)
  woken_lem true true s = ensure_worker_lem s
  woken_lem true false s = ensure_worker_lem s
  woken_lem false true s = (refl, refl)
  woken_lem false false s = (refl, refl)

  -- After a recovery the jobs, the queue and the workers still agree, when they did before, when
  -- every recovered upload waits and when none of them has a request to cancel.
  pub recover_pending_uploads-Inv :
      (readable auto_start : Bool) (uploads : List QueueJob) (x : System)
      → AllWait uploads
      → Inv x
      → Inv (record x {
        shared = (recover_pending_uploads dumps written now readable auto_start uploads x.shared).1;
      })
  unfolding recover_pending_uploads
  recover_pending_uploads-Inv readable auto_start uploads x w h =
      let first = take_uploads uploads x.shared in
      let jobs = recovery_jobs_from_ledger readable now (load first.1.ledger) in
      let second = take_tracked dumps written now jobs first.1 in
      let recovered = first.0 ++ second.recovered in
      let (ej, eq) =
        woken_lem (auto_start && not (is_nil recovered)) (is_nil recovered) second.queue in
      same_jobs-Inv (record { shared = second.queue; claimed = x.claimed }) _
        (take_tracked-Inv jobs x.claimed first.1
          (recovery_jobs-AllWait readable now (load first.1.ledger))
          (take_uploads-Inv uploads x.claimed x.shared w h))
        ej eq refl
