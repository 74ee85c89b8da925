-- ===== src/JobQueue/Recovery.antt =====
-- What a new process resumes of an earlier one's work: `recover_pending_uploads`, which takes the upload jobs
-- from the entries of the PDF registry and the other jobs from the ledger.
pub mod Resumed
pub mod Survival
pub mod Crash
mod Sorting
pub mod Cancelled
mod Interrupting
mod Names
mod Tests
pub mod Uploads
pub mod Resuming
use Prim.Native.Nat.{Ordering}
use Prim.Native.String.{compare}
use rag_pipeline_windows.Base.{
  ℕ, ltb, ◌==◌, String, Bool, true, false, not, ◌&&◌, Option, none, some, List, [], ◌∷◌, ◌++◌,
  if◌then◌else◌, get_or_else,
}
use rag_pipeline_windows.Base.Dict.{Dict, lookup, insert, remove, has}
use rag_pipeline_windows.Jobs.{QueueJob, Json, upload, new_job}
use rag_pipeline_windows.Ledger.{LedgerEntry, JobLedger, load, remove_job}
use rag_pipeline_windows.Registry.{Entry, or_text}
use rag_pipeline_windows.JobQueue.State.{RagJobQueue, bump_state_version, ledger_record, is_nil}
use rag_pipeline_windows.JobQueue.Enqueue.{
  IdentityPayload, find_active_duplicate, ensure_worker, insert_sorted, non_empty,
}

-- `entries.sort(key=…)`: stable, by a text
module _ {ℓ} {A : Type ℓ} (key : A → String) where
  unfoldable pub insert_by : A → List A → List A
  insert_by x [] = x ∷ []
  insert_by x (y ∷ ys) = elim (compare (key x) (key y)) [
    | Ordering.gt ↦ y ∷ insert_by x ys
    | _ ↦ x ∷ y ∷ ys
  ]

  unfoldable pub sort_by : List A → List A
  unfolding insert_by
  sort_by [] = []
  sort_by (x ∷ xs) = insert_by x (sort_by xs)

-- `JobLedger.pending_entries`
unfoldable pub pending_entries : Dict LedgerEntry → Dict LedgerEntry
unfolding sort_by
pending_entries jobs = sort_by (λ e. e.1.recorded_at) jobs

abbrev pub given : Option String → Option String
given none = none
given (some text) = if text == "" then none else some text

-- A job of `_recovery_jobs_from_ledger`
unfoldable pub ledger_job : String → String → LedgerEntry → QueueJob
unfolding new_job non_empty
ledger_job now id entry =
    let j = new_job id entry.kind entry.options (or_text entry.recorded_at now) in
    record j {
      phase = "recovered";
      source_hashes = non_empty entry.source_hashes;
      backup_name = given entry.backup_name;
      recovered = true;
    }

unfoldable pub ledger_jobs : String → Dict LedgerEntry → List QueueJob
unfolding ledger_job
ledger_jobs now [] = []
ledger_jobs now ((id, entry) ∷ entries) = ledger_job now id entry ∷ ledger_jobs now entries

-- `_recovery_jobs_from_ledger`; `readable` says whether the ledger can be read.
unfoldable pub recovery_jobs_from_ledger : Bool → String → Dict LedgerEntry → List QueueJob
unfolding ledger_jobs pending_entries
recovery_jobs_from_ledger readable now ledger =
    if readable then ledger_jobs now (pending_entries ledger) else []

-- A job enters `_jobs` and the queue.
abbrev pub enter : QueueJob → RagJobQueue → RagJobQueue
enter j s = record s { jobs = insert j.id j s.jobs; queue = s.queue ++ j.id ∷ [] }

-- The first loop of `recover_pending_uploads`: the jobs that it takes, and the queue
unfoldable pub take_uploads : List QueueJob → RagJobQueue → List QueueJob × RagJobQueue
take_uploads [] s = ([], s)
take_uploads (j ∷ jobs) s =
    let skipped = take_uploads jobs s in
    let rest = take_uploads jobs (enter j s) in
    if has j.id s.jobs then skipped else (j ∷ rest.0, rest.1)

-- What the second loop has: the jobs that it takes, the ids of the duplicates, and the queue
pub record Resumption : Type 0 where
  pub recovered : List QueueJob
  pub duplicates : List String
  pub queue : RagJobQueue

module _ (dumps : IdentityPayload → String) (written : Bool) (now : String) where
  -- The second loop
  unfoldable pub take_tracked : List QueueJob → RagJobQueue → Resumption
  unfolding find_active_duplicate ledger_record
  take_tracked [] s = record { recovered = []; duplicates = []; queue = s }
  take_tracked (j ∷ jobs) s =
      let skipped = take_tracked jobs s in
      let rest = take_tracked jobs (ledger_record written j now (enter j s)) in
      if has j.id s.jobs then skipped else elim (find_active_duplicate dumps j s) [
        | some d ↦ record skipped { duplicates = j.id ∷ skipped.duplicates }
        | none ↦ record rest { recovered = j ∷ rest.recovered }
      ]

  unfoldable pub remove_duplicates : List String → JobLedger → JobLedger
  unfolding remove_job
  remove_duplicates [] ledger = ledger
  remove_duplicates (id ∷ ids) ledger = remove_duplicates ids (remove_job written id ledger)

  -- `recover_pending_uploads`, on the jobs that `_recovery_jobs_from_registry` gives
  unfoldable pub recover_pending_uploads :
      Bool → Bool → List QueueJob → RagJobQueue → List QueueJob × RagJobQueue
  unfolding take_uploads take_tracked remove_duplicates recovery_jobs_from_ledger ensure_worker
  recover_pending_uploads readable auto_start uploads s =
      let first = take_uploads uploads s in
      let second =
        take_tracked (recovery_jobs_from_ledger readable now (load first.1.ledger)) first.1 in
      let recovered = first.0 ++ second.recovered in
      let s₁ =
        if auto_start && not (is_nil recovered) then ensure_worker second.queue else second.queue in
      let s₂ = if is_nil recovered then s₁ else bump_state_version s₁ in
      (recovered, record s₂ { ledger = remove_duplicates second.duplicates s₂.ledger })
