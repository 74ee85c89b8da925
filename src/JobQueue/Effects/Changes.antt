-- ===== src/JobQueue/Effects/Changes.antt =====
-- What a step may do to one job, and that each change of a job does no more.
use rag_pipeline_windows.Base.{
  ℕ, ◌==◌, String, Bool, true, false, none, some, if◌then◌else◌, ◌≡◌, refl, arith, distinct,
  contains,
}
use rag_pipeline_windows.Base.Dict.{Dict, lookup, insert, keys, has}
use rag_pipeline_windows.Jobs.{
  QueueJob, Status, queued, running, paused_for_queries, is_terminal, is_active,
}
use rag_pipeline_windows.JobQueue.State.{RagJobQueue, as_cancelled}
use rag_pipeline_windows.JobQueue.History.{prune_loop}
use rag_pipeline_windows.JobQueue.Enqueue.{IdentityPayload, find_active_duplicate, identity_payload}
use rag_pipeline_windows.JobQueue.Worker.{
  Outcome, completed, job_cancelled, raised, as_started, as_failed, as_done,
}
use rag_pipeline_windows.JobQueue.Steps.{System}
use rag_pipeline_windows.JobQueue.Invariant.{Inv, is_running, Agrees}
use rag_pipeline_windows.JobQueue.Preservation.{settled_as}

-- The job `j` becomes `k`: it stays the same work, it does not become active again, and if it was
-- terminal its status, error and end are as they were.
pub record Moves (j k : QueueJob) : Type 0 where
  pub same_work : identity_payload k ≡ identity_payload j
  pub no_revival : is_active k ≡ true → is_active j ≡ true
  pub settled :
      is_terminal j.status ≡ true
      → (k.status ≡ j.status) × (k.error ≡ j.error) × (k.finished_at ≡ j.finished_at)

pub data Effect (dumps : IdentityPayload → String) (s : RagJobQueue) (m : Dict QueueJob)
    : Type 0 where
  unchanged : m ≡ s.jobs → Effect dumps s m
  assigned :
      (id : String) (j k : QueueJob)
      → lookup id s.jobs ≡ some j
      → ((i : String) → lookup i m ≡ (if id == i then some k else lookup i s.jobs))
      → Moves j k
      → Effect dumps s m
  pruned :
      (l n : ℕ) → distinct (keys s.jobs) ≡ true → m ≡ (prune_loop l n s.jobs).0 → Effect dumps s m
  entered :
      (l n : ℕ) (j : QueueJob)
      → has j.id s.jobs ≡ false
      → distinct (keys s.jobs) ≡ true
      → find_active_duplicate dumps j s ≡ none
      → m ≡ (prune_loop l n (insert j.id j s.jobs)).0
      → Effect dumps s m

pub live : (st : Status) → is_running st ≡ true → is_terminal st ≡ false
live running r = refl
live paused_for_queries r = refl
live _ r = cc

-- An assignment by a worker to a job that it holds.
pub held-Moves :
    (x : System) (id : String) (j k : QueueJob)
    → Inv x
    → contains id x.claimed ≡ true
    → lookup id x.shared.jobs ≡ some j
    → identity_payload k ≡ identity_payload j
    → (is_active k ≡ true → k.cancel_requested ≡ j.cancel_requested)
    → Moves j k
held-Moves x id j k h c n same req = at (rw n at (h.agrees id))
  where
    at : Agrees (contains id x.shared.queue) (contains id x.claimed) (some j) → Moves j k
    at a = record {
      same_work = same;
      no_revival = λ act. ground (arith, c, a, live j.status, req act);
      settled = λ t. absurd (ground (arith, c, a, live j.status));
    }

pub settled_as_work :
    (now : String) (outcome : Outcome) (b : Bool) (j : QueueJob)
    → (identity_payload (settled_as now outcome b j) ≡ identity_payload j)
      × (is_active (settled_as now outcome b j) ≡ false)
unfolding as_cancelled as_failed as_done identity_payload
settled_as_work now (job_cancelled message) b j = (refl, refl)
settled_as_work now (raised message true) b j = (refl, refl)
settled_as_work now (raised message false) b j = (refl, refl)
settled_as_work now completed true j = (refl, refl)
settled_as_work now completed false j = (refl, refl)

pub starts-Moves : (now : String) (j : QueueJob) → j.status ≡ queued → Moves j (as_started now j)
unfolding as_started
starts-Moves now j q = record {
  same_work = unfold identity_payload in refl;
  no_revival = λ act. ground (arith, q, act);
  settled = λ u. absurd (ground (arith, q, u));
}

-- A request to cancel a job that is not terminal.
pub cancels-Moves :
    (j k : QueueJob)
    → is_terminal j.status ≡ false
    → identity_payload k ≡ identity_payload j
    → k.cancel_requested ≡ true
    → Moves j k
cancels-Moves j k t same req = record {
  same_work = same;
  no_revival = λ act. ground (arith, t, req, act);
  settled = λ u. absurd (ground (arith, t, u));
}

-- An assignment to the log or the progress.
pub notes-Moves :
    (j k : QueueJob)
    → identity_payload k ≡ identity_payload j
    → k.status ≡ j.status
    → k.cancel_requested ≡ j.cancel_requested
    → k.error ≡ j.error
    → k.finished_at ≡ j.finished_at
    → Moves j k
notes-Moves j k same st req er fin = record {
  same_work = same;
  no_revival = λ act. ground (arith, st, req, act);
  settled = λ u. (st, er, fin);
}
