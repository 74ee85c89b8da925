-- ===== src/JobQueue/Recovery/Tests.antt =====
-- The theorems on the recovery at concrete queues and entries.
use rag_pipeline_windows.Base.{String, true, false, none, List, [], ◌∷◌, ◌≡◌, refl, any}
use rag_pipeline_windows.Base.Dict.{Dict, lookup}
use rag_pipeline_windows.Jobs.{QueueJob, Json, new_job, reindex, upload}
use rag_pipeline_windows.Registry.{Body, Entry}
use rag_pipeline_windows.Ledger.{stored}
use rag_pipeline_windows.JobQueue.State.{RagJobQueue, init}
use rag_pipeline_windows.JobQueue.Enqueue.{IdentityPayload, enqueue, find_active_duplicate}
use rag_pipeline_windows.JobQueue.Steps.{System}
use rag_pipeline_windows.JobQueue.Invariant.{Inv}
use rag_pipeline_windows.JobQueue.Lifecycle.{start, start-Inv}
use rag_pipeline_windows.JobQueue.Recovery.{recover_pending_uploads}
use rag_pipeline_windows.JobQueue.Recovery.Resumed.{recover_pending_uploads-Inv}
use rag_pipeline_windows.JobQueue.Recovery.Survival.{Active}
use rag_pipeline_windows.Registry.{UploadItem, mark_job_status}
use rag_pipeline_windows.JobQueue.Recovery.Cancelled.{resumed, interrupted_upload_stays}
use rag_pipeline_windows.JobQueue.Recovery.Crash.{enqueued_work_survives}
use rag_pipeline_windows.JobQueue.Recovery.Uploads.{
  order_of, recovery_jobs_from_registry, resume_order,
}
use rag_pipeline_windows.JobQueue.Recovery.Resuming.{resumes_upload, recovery_resumes_uploads}

-- A serialisation that keeps the name of the backup alone.
abbrev dumps : IdentityPayload → String
dumps p = p.backup_name

abbrev job_a : QueueJob
job_a = new_job "a" reindex [] "t0"

abbrev job_u : QueueJob
job_u = new_job "u" upload [] "t0"

abbrev uploads : List QueueJob
uploads = job_u ∷ []

abbrev now : String
now = "t1"

abbrev new_queue : RagJobQueue
new_queue = init 2 []

abbrev new_system : System
new_system = start 2 []

new_system-Inv : Inv new_system
new_system-Inv = start-Inv 2 []

recover_pending_uploads-Inv_example : Inv (record new_system {
  shared = (recover_pending_uploads dumps true now true true uploads new_system.shared).1;
})
unfolding new_job
recover_pending_uploads-Inv_example =
    recover_pending_uploads-Inv dumps true now true true uploads new_system (refl, refl, tt)
      new_system-Inv

enqueued_work_survives_example :
    Active dumps job_a
      (recover_pending_uploads dumps true now true true uploads
        (init 2 (stored (enqueue dumps true false now job_a new_queue).1.ledger))).1
unfolding init new_job find_active_duplicate
enqueued_work_survives_example =
    enqueued_work_survives dumps true now false true now 2 uploads job_a new_queue refl refl refl
      refl

-- The failed upload that a forced one replaced
abbrev replaced : Body
replaced = record {
  hash = "h";
  filename = "notes.pdf";
  status = "failed";
  job_id = "t";
  staging_path = "s/notes.pdf";
  upload_path = "u/notes.pdf";
  processed_markdown_path = "";
  created_at = "t0";
  updated_at = "t0";
  options = [];
  last_error = none;
  last_failed_at = none;
  last_failed_job_id = none;
  last_interrupted_at = none;
  last_interrupted_job_id = none;
}

abbrev waiting : Entry
waiting = record {
  body = record {
    hash = "h";
    filename = "notes.pdf";
    status = "ingesting";
    job_id = "u";
    staging_path = "s/notes.pdf";
    upload_path = "u/notes.pdf";
    processed_markdown_path = "";
    created_at = "t0";
    updated_at = "t0";
    options = [];
    last_error = none;
    last_failed_at = none;
    last_failed_job_id = none;
    last_interrupted_at = none;
    last_interrupted_job_id = none;
  };
  older = replaced ∷ [];
}

abbrev pdfs : Dict Entry
pdfs = ("h", waiting) ∷ []

abbrev hash : String
hash = "h"

abbrev same_path : String → String
same_path path = path

abbrev no_text : Json → String
no_text value = ""

abbrev model : String
model = "all-minilm"

recovery_resumes_uploads_example :
    any
      (resumes_upload hash (order_of waiting.body.status))
      (recovery_jobs_from_registry same_path same_path no_text model now pdfs)
    ≡ true
unfolding lookup resume_order
recovery_resumes_uploads_example =
    recovery_resumes_uploads same_path same_path no_text model now hash waiting pdfs refl refl

abbrev item : UploadItem
item = record {
  hash = "h";
  filename = "notes.pdf";
  staging_path = "s/notes.pdf";
  upload_path = "u/notes.pdf";
  processed_markdown_path = "";
}

abbrev status : String
status = "interrupted"

abbrev message : String
message = "Cancelled."

abbrev job_id : String
job_id = "u"

interrupted_upload_stays_example :
    resumed hash (
      recovery_jobs_from_registry same_path same_path no_text model now
        (mark_job_status job_id status message now (item ∷ []) pdfs))
    ≡ false
unfolding lookup resume_order
interrupted_upload_stays_example =
    interrupted_upload_stays same_path same_path no_text model now now job_id message hash
      (item ∷ []) pdfs waiting refl refl refl refl refl
