-- ===== src/JobQueue/Summary.antt =====
-- `summary` and the other reads of the jobs.
pub mod Counts
use rag_pipeline_windows.Base.{
  ℕ, ◌+◌, ◌==◌, String, Bool, true, false, ◌||◌, ◌&&◌, Option, List, [], ◌∷◌, ◌++◌, length,
  if◌then◌else◌,
}
use rag_pipeline_windows.Base.Dict.{Dict, lookup}
use rag_pipeline_windows.Jobs.{QueueJob, Status, running, paused_for_queries}
use rag_pipeline_windows.JobQueue.State.{RagJobQueue}

pub record Summary : Type 0 where
  pub active_query_count : ℕ
  pub queued_count : ℕ
  pub running_job_ids : List String
  pub indexing_job_ids : List String
  pub active_job_count : ℕ
  pub job_count : ℕ

-- `job.status in {"running", "paused_for_queries"}`
abbrev pub runs : QueueJob → Bool
runs j = elim j.status [ running ↦ true | paused_for_queries ↦ true | _ ↦ false ]

abbrev pub indexes : QueueJob → Bool
indexes j = runs j && ((j.phase == "indexing") || (j.phase == "publishing_index"))

-- `[job.id for job in self._jobs.values() if …]`
unfoldable pub ids_where : (QueueJob → Bool) → Dict QueueJob → List String
ids_where p [] = []
ids_where p ((_, j) ∷ jobs) = let rest = ids_where p jobs in if p j then j.id ∷ rest else rest

unfoldable pub summary : RagJobQueue → Summary
unfolding ids_where
summary s = record {
  active_query_count = s.active_query_count;
  queued_count = length s.queue;
  running_job_ids = ids_where runs s.jobs;
  indexing_job_ids = ids_where indexes s.jobs;
  active_job_count = length (ids_where runs s.jobs) + length s.queue;
  job_count = length s.jobs;
}

-- `list_jobs`, less the conversion of each job
unfoldable pub list_jobs : Dict QueueJob → List QueueJob
list_jobs [] = []
list_jobs ((_, j) ∷ jobs) = list_jobs jobs ++ j ∷ []
