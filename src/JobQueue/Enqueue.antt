-- ===== src/JobQueue/Enqueue.antt =====
-- Enqueueing: the identity of a job, coalescing of equivalent active jobs, and the entry in the queue.
use Prim.Native.Nat.{Ordering}
use Prim.Native.String.{compare}
use rag_pipeline_windows.Base.{
  ℕ, ◌+◌, ◌-◌, ◌==◌, String, Bool, ◌&&◌, Option, none, some, List, [], ◌∷◌, ◌++◌, if◌then◌else◌,
  get_or_else,
}
use rag_pipeline_windows.Base.Dict.{Dict, insert}
use rag_pipeline_windows.Jobs.{
  QueueJob, Kind, Json, is_upload, is_active, new_job, upload, reindex, reindex_source,
  transfer_sources, backup, rebuild, restore, rebuild_vector_index, compact,
}
use rag_pipeline_windows.JobQueue.State.{RagJobQueue, bump_state_version, ledger_record}
use rag_pipeline_windows.JobQueue.History.{prune_jobs, max_job_history}

-- The payload that `_job_identity` serialises.
pub record IdentityPayload : Type 0 where
  pub kind : Kind
  pub source_hashes : List String
  pub backup_name : String
  pub options : Dict Json

unfoldable pub insert_sorted : String → List String → List String
insert_sorted k [] = k ∷ []
insert_sorted k (x ∷ xs) = elim (compare k x) [
  | Ordering.lt ↦ k ∷ x ∷ xs
  | Ordering.eq ↦ x ∷ xs
  | Ordering.gt ↦ x ∷ insert_sorted k xs
]

-- `sorted({str(value) for value in values if value})`
unfoldable pub sorted_set : List String → List String
unfolding insert_sorted
sorted_set [] = []
sorted_set (x ∷ xs) = let rest = sorted_set xs in if x == "" then rest else insert_sorted x rest

unfoldable pub identity_payload : QueueJob → IdentityPayload
unfolding sorted_set
identity_payload j = record {
  kind = j.kind;
  source_hashes = sorted_set j.source_hashes;
  backup_name = get_or_else j.backup_name "";
  options = j.options;
}

-- The loop of `_ensure_worker_locked`: `room` more workers fit.
unfoldable pub spawn : ℕ → List String → ℕ → ℕ
spawn ℕ.zero queue alive = alive
spawn (ℕ.suc room) [] alive = alive
spawn (ℕ.suc room) (id ∷ queue) alive = spawn room (id ∷ queue) (alive + 1)

-- `_ensure_worker_locked`
unfoldable pub ensure_worker : RagJobQueue → RagJobQueue
unfolding spawn
ensure_worker s = record s { workers = spawn (s.max_workers - s.workers) s.queue s.workers }

-- `dumps` is `json.dumps` with sorted keys, which turns the payload into a text.
module _ (dumps : IdentityPayload → String) where
  -- `_job_identity`
  unfoldable pub job_identity : QueueJob → String
  unfolding identity_payload
  job_identity j = dumps (identity_payload j)

  -- The loop of `_find_active_duplicate_locked` over the jobs
  unfoldable pub find_active : String → Dict QueueJob → Option QueueJob
  unfolding job_identity
  find_active identity [] = none
  find_active identity ((id, j) ∷ rest) =
      if is_active j && job_identity j == identity then some j else find_active identity rest

  -- `_find_active_duplicate_locked`
  unfoldable pub find_active_duplicate : QueueJob → RagJobQueue → Option QueueJob
  unfolding find_active
  find_active_duplicate j s = if is_upload j.kind then none else find_active (job_identity j) s.jobs

  -- The part of `_enqueue` after the check: the job is recorded, enters, and gets a worker.
  unfoldable pub admit : Bool → Bool → String → QueueJob → RagJobQueue → RagJobQueue
  unfolding ledger_record prune_jobs ensure_worker
  admit written auto_start now j s =
      let s₁ = ledger_record written j now s in
      let s₂ =
        prune_jobs max_job_history
          (record s₁ { jobs = insert j.id j s₁.jobs; queue = s₁.queue ++ j.id ∷ [] }) in
      bump_state_version (if auto_start then ensure_worker s₂ else s₂)

  -- `_enqueue`: the job that now stands for the request, and the queue.
  unfoldable pub enqueue : Bool → Bool → String → QueueJob → RagJobQueue → QueueJob × RagJobQueue
  unfolding admit find_active_duplicate
  enqueue written auto_start now j s = elim (find_active_duplicate j s) [
    | some duplicate ↦ (duplicate, s)
    | none ↦ (j, admit written auto_start now j s)
  ]

-- `[str(value) for value in source_hashes if value]`
unfoldable pub non_empty : List String → List String
non_empty [] = []
non_empty (x ∷ xs) = let rest = non_empty xs in if x == "" then rest else x ∷ rest

-- The jobs that the `enqueue_*` methods hand to `_enqueue`.
unfoldable pub upload_job :
    String
    → String
    → List String
    → List (Dict Json)
    → List String
    → Dict Json
    → Option String
    → Bool
    → String
    → QueueJob
unfolding new_job
upload_job id staging_dir filenames uploads force_duplicate_hashes options resume_status recovered
      created_at =
    let j = new_job id upload options created_at in
    record j {
      filenames = filenames;
      uploads = uploads;
      force_duplicate_hashes = force_duplicate_hashes;
      staging_dir = some staging_dir;
      resume_status = resume_status;
      recovered = recovered;
    }

unfoldable pub reindex_job : String → Dict Json → String → QueueJob
unfolding new_job
reindex_job id options now = new_job id reindex options now

unfoldable pub reindex_source_job : String → List String → Dict Json → String → QueueJob
unfolding new_job non_empty
reindex_source_job id source_hashes options now =
    let j = new_job id reindex_source options now in
    record j { source_hashes = non_empty source_hashes }

-- `target_key` is what `normalize_category_key` returns, whose `ValueError` comes before all else.
unfoldable pub transfer_sources_job : String → List String → String → Dict Json → String → QueueJob
unfolding new_job non_empty
transfer_sources_job id source_hashes target_key options now =
    let j =
      new_job id transfer_sources (insert "target_category" (Json.text target_key) options) now in
    record j { source_hashes = non_empty source_hashes }

unfoldable pub backup_job : String → Dict Json → String → QueueJob
unfolding new_job
backup_job id options now = new_job id backup options now

unfoldable pub rebuild_job : String → Dict Json → String → QueueJob
unfolding new_job
rebuild_job id options now = new_job id rebuild options now

unfoldable pub rebuild_vector_index_job : String → Dict Json → String → QueueJob
unfolding new_job
rebuild_vector_index_job id options now = new_job id rebuild_vector_index options now

unfoldable pub restore_job : String → String → Dict Json → String → QueueJob
unfolding new_job
restore_job id backup_name options now =
    let j = new_job id restore options now in record j { backup_name = some backup_name }

unfoldable pub compact_job : String → Dict Json → String → QueueJob
unfolding new_job
compact_job id options now = new_job id compact options now
