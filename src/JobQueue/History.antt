-- ===== src/JobQueue/History.antt =====
-- The history of `RagJobQueue`: which finished jobs are dropped.
pub mod Pruning
use rag_pipeline_windows.Base.{
  ℕ, ◌+◌, ◌-◌, ltb, String, Bool, true, false, Option, none, some, List, [], ◌∷◌, length,
  if◌then◌else◌,
}
use rag_pipeline_windows.Base.Dict.{Dict, lookup, remove, keys}
use rag_pipeline_windows.Jobs.{QueueJob, is_terminal}
use rag_pipeline_windows.JobQueue.State.{RagJobQueue}

abbrev pub max_job_history : ℕ
max_job_history = 500

-- The loop of `_prune_jobs_locked` over `list(self._jobs)`: `limit` is the cap on `len(self._jobs)`.
-- The jobs that are kept, and how many were dropped; `size` is the current number of jobs.
unfoldable pub prune_loop : ℕ → ℕ → Dict QueueJob → Dict QueueJob × ℕ
prune_loop limit size [] = ([], 0)
prune_loop limit size ((id, j) ∷ rest) =
    let dropped = prune_loop limit (size - 1) rest in
    let kept = prune_loop limit size rest in
    if ltb limit size
    then (if is_terminal j.status then (dropped.0, dropped.1 + 1) else ((id, j) ∷ kept.0, kept.1))
    else ((id, j) ∷ rest, 0)

-- `_prune_jobs_locked`: each job that is dropped bumps the version.
unfoldable pub prune_jobs : ℕ → RagJobQueue → RagJobQueue
unfolding prune_loop
prune_jobs limit s =
    let (jobs', dropped) = prune_loop limit (length s.jobs) s.jobs in
    record s { jobs = jobs'; state_version = s.state_version + dropped }
