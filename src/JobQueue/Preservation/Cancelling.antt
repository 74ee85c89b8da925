-- ===== src/JobQueue/Preservation/Cancelling.antt =====
-- The invariant of the queue under `cancel_job`.
use rag_pipeline_windows.Base.{
  String, Bool, false, none, some, List, ◌≡◌, refl, inl, inr, arith, eq_iff, contains, without,
  contains-without, distinct-without, Option-cases, Bool-cases, ◌∙◌, ap,
}
use rag_pipeline_windows.Base.Dict.{lookup}
use rag_pipeline_windows.Jobs.{QueueJob, queued, is_terminal}
use rag_pipeline_windows.JobQueue.State.{
  RagJobQueue, RegistryCall, add_marks, ledger_remove, mark_cancelled, as_cancelled,
}
use rag_pipeline_windows.JobQueue.Cancel.{
  cancel_job, cancel_found, cancel_queued, cancel_running, unknown_job, request_cancel,
  as_cancelling,
}
use rag_pipeline_windows.JobQueue.Steps.{System}
use rag_pipeline_windows.JobQueue.Invariant.{
  Inv, Inv-update_job, Agrees, is_queued, queue-update_job, update_job_twice,
}
use rag_pipeline_windows.JobQueue.Preservation.Notes.{same_jobs-Inv}

-- `cancel_job` on a job that waits.
cancel_queued-Inv :
    (x : System) (id now : String) (j : QueueJob)
    → Inv x
    → lookup id x.shared.jobs ≡ some j
    → j.status ≡ queued
    → Inv (record x { shared = cancel_queued id now x.shared })
unfolding cancel_queued mark_cancelled
cancel_queued-Inv x id now j h n q =
    Inv-update_job x _ id (λ k. as_cancelled "Job cancelled by user." now (request_cancel k)) h
      (update_job_twice id request_cancel (as_cancelled "Job cancelled by user." now) x.shared _
        refl)
      (λ k. unfold as_cancelled request_cancel in refl)
      (rw left (distinct-without id x.shared.queue h.once_queued)) h.once_claimed
      (λ k o. rw left (ground (arith, o, contains-without id k x.shared.queue))) (λ k o. refl)
      (rw (left, n) (at (rw n at (h.agrees id))))
  where
    left : (cancel_queued id now x.shared).queue ≡ without id x.shared.queue
    left = queue-update_job id _ _ ∙ ap (without id) (queue-update_job id request_cancel x.shared)

    at :
        Agrees (contains id x.shared.queue) (contains id x.claimed) (some j)
        → Agrees
            (contains id (without id x.shared.queue))
            (contains id x.claimed)
            (some (as_cancelled "Job cancelled by user." now (request_cancel j)))
    at a =
        unfold as_cancelled in
        ground (arith, a, q, contains-without id id x.shared.queue, eq_iff id id)

cancel_running-Inv :
    (x : System) (id : String) (j : QueueJob)
    → Inv x
    → lookup id x.shared.jobs ≡ some j
    → is_terminal j.status ≡ false
    → is_queued j.status ≡ false
    → Inv (record x { shared = cancel_running id x.shared })
unfolding cancel_running
cancel_running-Inv x id j h n t q =
    Inv-update_job x _ id (λ k. as_cancelling (request_cancel k)) h refl (λ k. refl)
      (rw same h.once_queued) h.once_claimed (λ k _. rw same) (λ k _. refl)
      (rw (same, n) (at (rw n at (h.agrees id))))
  where
    same : (cancel_running id x.shared).queue ≡ x.shared.queue
    same = queue-update_job id _ x.shared

    at :
        Agrees (contains id x.shared.queue) (contains id x.claimed) (some j)
        → Agrees
            (contains id x.shared.queue)
            (contains id x.claimed)
            (some (as_cancelling (request_cancel j)))
    at a = ground (arith, a, q)

pub ledger_remove-Inv :
    (x : System) (written : Bool) (j : QueueJob)
    → Inv x
    → Inv (record x { shared = ledger_remove written j x.shared })
unfolding ledger_remove
ledger_remove-Inv x written j h = same_jobs-Inv x _ h (ground arith) (ground arith) refl

pub add_marks-Inv :
    (x : System) (answers : Bool) (calls : List RegistryCall)
    → Inv x
    → Inv (record x { shared = add_marks answers calls x.shared })
unfolding add_marks
add_marks-Inv x answers calls h = same_jobs-Inv x _ h (ground arith) (ground arith) refl

cancel_found-Inv :
    (x : System) (written answers : Bool) (id now : String) (j : QueueJob)
    → Inv x
    → lookup id x.shared.jobs ≡ some j
    → Inv (record x { shared = (cancel_found written answers id now j x.shared).1 })
unfolding cancel_found
cancel_found-Inv x written answers id now j h n = elim (Bool-cases (is_terminal j.status)) [
  | inl t ↦ rw t h
  | inr t ↦ elim (Bool-cases (is_queued j.status)) [
    | inl q ↦
        rw (t, q)
          (add_marks-Inv _ answers _
            (ledger_remove-Inv _ written _ (cancel_queued-Inv x id now j h n (ground (arith, q)))))
    | inr q ↦ rw (t, q) (cancel_running-Inv x id j h n t q)
  ]
]

pub cancel_job_found :
    (written answers : Bool) (id now : String) (s : RagJobQueue) (j : QueueJob)
    → lookup id s.jobs ≡ some j
    → cancel_job written answers id now s ≡ cancel_found written answers id now j s
unfolding cancel_job
cancel_job_found written answers id now s j n = rw (n, cancel_job)

pub cancel_job_missing :
    (written answers : Bool) (id now : String) (s : RagJobQueue)
    → lookup id s.jobs ≡ none
    → cancel_job written answers id now s ≡ (unknown_job, s)
unfolding cancel_job
cancel_job_missing written answers id now s n = rw (n, cancel_job)

pub cancel_job-Inv :
    (x : System) (written answers : Bool) (id now : String)
    → Inv x
    → Inv (record x { shared = (cancel_job written answers id now x.shared).1 })
cancel_job-Inv x written answers id now h = elim (Option-cases (lookup id x.shared.jobs)) [
  | inl n ↦ rw (cancel_job_missing written answers id now x.shared n) h
  | inr (j, n) ↦
      rw (cancel_job_found written answers id now x.shared j n)
        (cancel_found-Inv x written answers id now j h n)
]
