-- ===== src/JobQueue/Worker.antt =====
-- `_worker_loop`: a worker takes a job, runs it, and settles it by its outcome.
use rag_pipeline_windows.Base.{
  ◌-◌, ◌==◌, String, Bool, true, not, ◌&&◌, none, some, List, [], ◌∷◌, if◌then◌else◌, get_or_else,
}
use rag_pipeline_windows.Base.Dict.{lookup}
use rag_pipeline_windows.Jobs.{QueueJob, running, done, failed, is_upload}
use rag_pipeline_windows.JobQueue.State.{
  RagJobQueue, RegistryCall, mark_job_status, bump_state_version, update_job, mark_cancelled,
  interrupted_marks, add_marks, ledger_remove, is_nil,
}
use rag_pipeline_windows.JobQueue.History.{prune_jobs, max_job_history}

-- What the locked part at the top of the loop comes to.
pub data Pop : Type 0 where
  -- the queue is empty: the worker leaves the pool
  idle : Pop
  -- `_jobs` has no job under the popped id: `KeyError`
  lost : String → Pop
  cancelled_before_start : String → Pop
  started : String → Pop

-- `job.status = "running"; job.phase = "starting"; job.started_at = job.started_at or _utcnow()`
unfoldable pub as_started : String → QueueJob → QueueJob
as_started now j = record j {
  status = running;
  phase = "starting";
  started_at = some (get_or_else j.started_at now);
}

unfoldable pub pop_job : String → List String → RagJobQueue → Pop × RagJobQueue
unfolding as_started update_job mark_cancelled
pop_job now [] s = (idle, record s { workers = s.workers - 1 })
pop_job now (id ∷ rest) s =
    let s₁ = record s { queue = rest } in
    elim (lookup id s.jobs) [
      | none ↦ (lost id, s₁)
      | some j ↦
          if j.cancel_requested
          then (cancelled_before_start id, mark_cancelled id "Job cancelled by user." now s₁)
          else (started id, bump_state_version (update_job id (as_started now) s₁))
    ]

unfoldable pub pop : String → RagJobQueue → Pop × RagJobQueue
unfolding pop_job
pop now s = pop_job now s.queue s

-- How `_run_job` ends: it returns, raises `JobCancelled`, or raises another exception, with what the handler
-- then finds in `cancel_requested`, which it reads before it takes the lock.
pub data Outcome : Type 0 where
  completed : Outcome
  job_cancelled : String → Outcome
  raised : String → Bool → Outcome

unfoldable pub as_failed : String → String → QueueJob → QueueJob
as_failed message now j = record j {
  status = failed;
  phase = "failed";
  error = some message;
  finished_at = some now;
  progress = none;
}

unfoldable pub as_done : String → QueueJob → QueueJob
as_done now j = record j { status = done; phase = "done"; finished_at = some now; progress = none }

-- `str(exc) or "Job cancelled by user."`
abbrev pub cancel_message : String → String
cancel_message m = if m == "" then "Job cancelled by user." else m

-- The locked part that gives the job `j` its terminal status.
unfoldable pub settle : String → Outcome → QueueJob → RagJobQueue → RagJobQueue
unfolding mark_cancelled update_job as_failed as_done
settle now (job_cancelled message) j s = mark_cancelled j.id (cancel_message message) now s
settle now (raised message requested) j s =
    if requested
    then mark_cancelled j.id "Job cancelled by user." now s
    else bump_state_version (update_job j.id (as_failed message now) s)
settle now completed j s =
    if j.cancel_requested
    then bump_state_version (mark_cancelled j.id "Job cancelled by user." now s)
    else bump_state_version (update_job j.id (as_done now) s)

-- The registry calls that go with it.
unfoldable pub settle_marks : Outcome → QueueJob → List RegistryCall
unfolding interrupted_marks
settle_marks (job_cancelled message) j = interrupted_marks j (cancel_message message)
settle_marks (raised message requested) j =
    if requested
    then interrupted_marks j "Job cancelled by user."
    else if is_upload j.kind && not (is_nil j.uploads)
    then mark_job_status j.id j.uploads "failed" (some message) ∷ []
    else []
settle_marks completed j =
    if j.cancel_requested then interrupted_marks j "Job cancelled by user." else []

-- An exception of a cancelled job skips the last prune (`continue`).
abbrev pub prunes : Outcome → QueueJob → Bool
prunes (raised message requested) j = not requested
prunes _ j = true

-- The whole part of the loop after `_run_job`, for the job `j` with no other thread in between.
unfoldable pub finish_job : Bool → Bool → String → Outcome → QueueJob → RagJobQueue → RagJobQueue
finish_job written answers now outcome j s =
    let s₁ =
      ledger_remove written j
        (add_marks answers (settle_marks outcome j) (settle now outcome j s)) in
    if prunes outcome j then prune_jobs max_job_history s₁ else s₁

-- The bookkeeping after `cancelled_before_start`
unfoldable pub drop_cancelled : Bool → Bool → QueueJob → RagJobQueue → RagJobQueue
drop_cancelled written answers j s =
    prune_jobs max_job_history
      (ledger_remove written j (add_marks answers (interrupted_marks j "Job cancelled by user.") s))
