-- ===== src/JobQueue/Preservation.antt =====
-- Every step keeps the invariant of the queue.
use rag_pipeline_windows.Base.{
  ℕ, ◌+◌, ◌-◌, ltb, ◌==◌, String, Bool, true, false, ◌||◌, Option, none, some, List, [], ◌∷◌, ◌++◌,
  if◌then◌else◌, ◌≡◌, refl, sym, subst, ◌⊎◌, inl, inr, arith, eq_iff, distinct, contains, without,
  contains-without, contains-append, distinct-without, distinct-snoc, Option-cases, Bool-cases, ◌∙◌,
  ap, length,
}
use rag_pipeline_windows.Base.Dict.{
  Dict, lookup, insert, keys, has, has-lookup, lookup-insert, distinct-insert,
}
use rag_pipeline_windows.Jobs.{
  QueueJob, Status, queued, running, paused_for_queries, is_terminal, Json,
}
use rag_pipeline_windows.JobQueue.State.{
  RagJobQueue, RegistryCall, update_job, begin_query, finish_query, add_marks, ledger_remove,
  append_job_log, set_job_progress, as_logged, as_reported, bump_state_version, mark_cancelled,
  as_cancelled, ledger_record,
}
use rag_pipeline_windows.JobQueue.History.{prune_jobs, prune_loop, max_job_history}
use rag_pipeline_windows.JobQueue.History.Pruning.{
  has-prune_loop, distinct-prune_loop, prune_loop_keeps, lookup-prune_loop,
}
use rag_pipeline_windows.JobQueue.Enqueue.{
  IdentityPayload, enqueue, admit, ensure_worker, find_active_duplicate,
}
use rag_pipeline_windows.JobQueue.Cancel.{
  cancel_job, cancel_found, cancel_queued, cancel_running, unknown_job, request_cancel,
  as_cancelling,
}
use rag_pipeline_windows.JobQueue.Worker.{
  Pop, idle, lost, cancelled_before_start, started, pop, pop_job, Outcome, completed, job_cancelled,
  raised, settle, as_started, as_failed, as_done, cancel_message,
}
use rag_pipeline_windows.JobQueue.Waiting.{wait_round, is_cancelled, pause, resume}
use rag_pipeline_windows.JobQueue.Steps.{
  System, Step, Reach, here, next, claim, query_begins, query_ends, enqueues, cancels, pops, waits,
  settles, logs, reports, deledgers, marks_registry, prunes_history,
}
use rag_pipeline_windows.JobQueue.Invariant.{
  Inv, Inv-update_job, Agrees, AgreesAt, map_option, is_running, is_queued, queue-update_job,
  update_job_twice,
}
use rag_pipeline_windows.JobQueue.Preservation.Notes.{
  same_jobs-Inv, append_job_log-Inv, set_job_progress-Inv, prune_jobs-Inv, wait_round-Inv,
}
use rag_pipeline_windows.JobQueue.Preservation.Settling.{settle-Inv}
use rag_pipeline_windows.JobQueue.Preservation.Popping.{pop-Inv}
use rag_pipeline_windows.JobQueue.Preservation.Cancelling.{
  ledger_remove-Inv, add_marks-Inv, cancel_job-Inv,
}
mod Notes
mod Settling
mod Popping
mod Cancelling
pub use Notes.{same_jobs-Inv}
pub use Settling.{settled_as, settle_lem, settled_as_terminal}
pub use Popping.{front_waits, pop_starts, pop_leaves}
pub use Cancelling.{cancel_job_found, cancel_job_missing}

pub ensure_worker_lem :
    (s : RagJobQueue) → ((ensure_worker s).jobs ≡ s.jobs) × ((ensure_worker s).queue ≡ s.queue)
unfolding ensure_worker
ensure_worker_lem s = (refl, refl)

or_false : (b : Bool) → (b || false) ≡ b
or_false true = refl
or_false false = refl

-- A new job enters: it is the last in the queue.
pub enters-Inv :
    (x : System) (y : RagJobQueue) (j : QueueJob)
    → Inv x
    → has j.id x.shared.jobs ≡ false
    → j.status ≡ queued
    → j.cancel_requested ≡ false
    → y.jobs ≡ insert j.id j x.shared.jobs
    → y.queue ≡ x.shared.queue ++ j.id ∷ []
    → Inv (record x { shared = y })
enters-Inv x y j h f st c ej eq = record {
  no_two_keys = rw ej (distinct-insert j.id j x.shared.jobs h.no_two_keys);
  once_queued = rw eq (distinct-snoc j.id x.shared.queue h.once_queued absent.0);
  once_claimed = h.once_claimed;
  own_id = λ k i e.
      ground (arith, e, ej, lookup-insert j.id k j x.shared.jobs, eq_iff j.id k, h.own_id k i);
  agrees = λ k. rw (ej, eq) (agree k);
}
  where
    none_yet : lookup j.id x.shared.jobs ≡ none
    none_yet = ground (arith, has-lookup j.id x.shared.jobs, f)

    absent : (contains j.id x.shared.queue ≡ false) × (contains j.id x.claimed ≡ false)
    absent =
        let a : Agrees (contains j.id x.shared.queue) (contains j.id x.claimed) none =
          rw none_yet at (h.agrees j.id) in
        a

    agree :
        (k : String)
        → Agrees
            (contains k (x.shared.queue ++ j.id ∷ []))
            (contains k x.claimed)
            (lookup k (insert j.id j x.shared.jobs))
    agree k = elim (Bool-cases (j.id == k)) [
      | inl same ↦
          (let e : j.id ≡ k = (eq_iff j.id k).0 same in
            rw
              (
                lookup-insert j.id k j x.shared.jobs,
                same,
                contains-append k x.shared.queue (j.id ∷ []),
              )
              (ground (arith, same, st, c, absent, ap (λ i. contains i x.claimed) e)))
      | inr other ↦
          rw (lookup-insert j.id k j x.shared.jobs, contains-append k x.shared.queue (j.id ∷ []))
            (rw other (rw (or_false (contains k x.shared.queue)) (h.agrees k)))
    ]

module _ (dumps : IdentityPayload → String) where
  pub admit-Inv :
      (x : System) (written auto_start : Bool) (now : String) (j : QueueJob)
      → Inv x
      → has j.id x.shared.jobs ≡ false
      → j.status ≡ queued
      → j.cancel_requested ≡ false
      → Inv (record x { shared = admit dumps written auto_start now j x.shared })
  unfolding admit
  admit-Inv x written auto_start now j h f st c = started_or_not auto_start
    where
      s₁ : RagJobQueue
      s₁ = ledger_record written j now x.shared

      entered : RagJobQueue
      entered = record s₁ { jobs = insert j.id j s₁.jobs; queue = s₁.queue ++ j.id ∷ [] }

      at : Inv (record x { shared = entered })
      at =
          enters-Inv x entered j h f st c (unfold ledger_record in refl)
            (unfold ledger_record in refl)

      pruned : Inv (record x { shared = prune_jobs max_job_history entered })
      pruned = prune_jobs-Inv (record x { shared = entered }) max_job_history at

      kept : RagJobQueue
      kept = prune_jobs max_job_history entered

      started_or_not : (b : Bool) → Inv (record x { shared = admit dumps written b now j x.shared })
      started_or_not true =
          same_jobs-Inv (record x { shared = kept })
            (record x { shared = admit dumps written true now j x.shared }) pruned
            (ensure_worker_lem kept).0 (ensure_worker_lem kept).1 refl
      started_or_not false =
          same_jobs-Inv (record x { shared = kept })
            (record x { shared = admit dumps written false now j x.shared }) pruned refl refl refl

  enqueue-Inv :
      (x : System) (written auto_start : Bool) (now : String) (j : QueueJob)
      → Inv x
      → has j.id x.shared.jobs ≡ false
      → j.status ≡ queued
      → j.cancel_requested ≡ false
      → Inv (record x { shared = (enqueue dumps written auto_start now j x.shared).1 })
  unfolding enqueue
  enqueue-Inv x written auto_start now j h f st c = go (find_active_duplicate dumps j x.shared) refl
    where
      go :
          (o : Option QueueJob)
          → find_active_duplicate dumps j x.shared ≡ o
          → Inv (record x { shared = (enqueue dumps written auto_start now j x.shared).1 })
      go none e = rw (e, enqueue) (admit-Inv x written auto_start now j h f st c)
      go (some d) e = rw (e, enqueue) h

  pub Step-Inv : (x y : System) → Step dumps x y → Inv x → Inv y
  Step-Inv x y (query_begins e) h = rw e (unfold begin_query in same_jobs-Inv x _ h refl refl refl)
  Step-Inv x y (query_ends e) h = rw e (unfold finish_query in same_jobs-Inv x _ h refl refl refl)
  Step-Inv x y (enqueues written auto_start now j f st c e) h =
      rw e (enqueue-Inv x written auto_start now j h f st c)
  Step-Inv x y (cancels written answers id now e) h =
      rw e (cancel_job-Inv x written answers id now h)
  Step-Inv x y (pops now e) h = rw e (pop-Inv x now h)
  Step-Inv x y (waits id phase bumped expired c e) h =
      rw e (wait_round-Inv x id phase bumped expired h c)
  Step-Inv x y (settles now id outcome j c n e) h = rw e (settle-Inv x now id outcome j h c n)
  Step-Inv x y (logs id line e) h = rw e (append_job_log-Inv x id line h)
  Step-Inv x y (reports id payload e) h = rw e (set_job_progress-Inv x id payload h)
  Step-Inv x y (deledgers written j e) h = rw e (ledger_remove-Inv x written j h)
  Step-Inv x y (marks_registry answers calls e) h = rw e (add_marks-Inv x answers calls h)
  Step-Inv x y (prunes_history limit e) h = rw e (prune_jobs-Inv x limit h)

  pub Reach-Inv : {x y : System} → Inv x → Reach dumps x y → Inv y
  Reach-Inv h here = h
  Reach-Inv h (next r st) = Step-Inv _ _ st (Reach-Inv h r)
