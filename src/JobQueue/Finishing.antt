-- ===== src/JobQueue/Finishing.antt =====
-- How a worker leaves a job behind, with its ledger entry and the history.
use rag_pipeline_windows.Base.{String, Bool, true, false, if◌then◌else◌}
use rag_pipeline_windows.Base.Dict.{Dict, has, remove}
use rag_pipeline_windows.Jobs.{QueueJob, Status, done, failed, cancelled}
use rag_pipeline_windows.Ledger.{LedgerEntry, JobLedger, stored, load}
use rag_pipeline_windows.JobQueue.State.{RagJobQueue, add_marks, ledger_remove}
use rag_pipeline_windows.JobQueue.Worker.{
  Outcome, completed, job_cancelled, raised, settle, settle_marks,
}

-- The status that a job gets: what its run comes to, unless its cancellation has been requested.
abbrev pub final_status : Outcome → Bool → Status
final_status (job_cancelled message) requested = cancelled
final_status (raised message true) requested = cancelled
final_status (raised message false) requested = failed
final_status completed true = cancelled
final_status completed false = done

-- What the file holds after a removal: the entry goes only when it was found, and the file could be written.
abbrev pub stored_without : Bool → String → JobLedger → Dict LedgerEntry
stored_without written id l =
    if written then (if has id (load l) then remove id (load l) else stored l) else stored l

module _ (written answers : Bool) (now : String) (o : Outcome) (j : QueueJob)
    (s : RagJobQueue) where
  -- the state before the prune
  settled : RagJobQueue
  settled = ledger_remove written j (add_marks answers (settle_marks o j) (settle now o j s))
