-- ===== src/JobQueue/State.antt =====
-- The state of `RagJobQueue`, and the helpers that every operation uses. `marks` are the calls made
-- on the PDF registry, oldest first.
use rag_pipeline_windows.Base.{
  ℕ, ◌+◌, ◌-◌, max, ltb, String, Bool, true, false, not, ◌&&◌, Option, none, some, List, [], ◌∷◌,
  ◌++◌, length, drop, if◌then◌else◌,
}
use rag_pipeline_windows.Base.Dict.{Dict, lookup, insert}
use rag_pipeline_windows.Jobs.{QueueJob, cancelled, Json, is_upload}
use rag_pipeline_windows.Ledger.{LedgerEntry, JobLedger, is_tracked, record_job, remove_job}

pub data RegistryCall : Type 0 where
  mark_job_status : String → List (Dict Json) → String → Option String → RegistryCall
  mark_sources_interrupted : String → List String → String → RegistryCall

pub record RagJobQueue : Type 0 where
  pub jobs : Dict QueueJob
  pub queue : List String
  pub state_version : ℕ
  pub workers : ℕ
  pub max_workers : ℕ
  pub active_query_count : ℕ
  pub ledger : JobLedger
  pub marks : List RegistryCall

-- `__init__`: the ledger is the file that an earlier run left.
unfoldable pub init : ℕ → Dict LedgerEntry → RagJobQueue
init max_workers ledger = record {
  jobs = [];
  queue = [];
  state_version = 0;
  workers = 0;
  max_workers = max 1 max_workers;
  active_query_count = 0;
  ledger = record { file = some ledger; cached = none };
  marks = [];
}

-- `_bump_state_version_locked`
abbrev pub bump_state_version : RagJobQueue → RagJobQueue
bump_state_version s = record s { state_version = s.state_version + 1 }

-- An assignment to fields of the job object that `_jobs[id]` holds.
unfoldable pub update_job : String → (QueueJob → QueueJob) → RagJobQueue → RagJobQueue
update_job id f s = elim (lookup id s.jobs) [
  | none ↦ s
  | some j ↦ record s { jobs = insert id (f j) s.jobs }
]

-- `begin_query`, `finish_query`
unfoldable pub begin_query : RagJobQueue → RagJobQueue
begin_query s = record s { active_query_count = s.active_query_count + 1 }

-- `max(0, count - 1)` is the truncated difference
unfoldable pub finish_query : RagJobQueue → RagJobQueue
finish_query s = record s { active_query_count = s.active_query_count - 1 }

-- The assignments of `_mark_cancelled_locked`
unfoldable pub as_cancelled : String → String → QueueJob → QueueJob
as_cancelled message now j = record j {
  status = cancelled;
  phase = "cancelled";
  error = some message;
  finished_at = some now;
  progress = none;
}

-- `_mark_cancelled_locked`
unfoldable pub mark_cancelled : String → String → String → RagJobQueue → RagJobQueue
unfolding as_cancelled update_job
mark_cancelled id message now s = bump_state_version (update_job id (as_cancelled message now) s)

abbrev pub is_nil {ℓ} : {A : Type ℓ} → List A → Bool
is_nil [] = true
is_nil (x ∷ xs) = false

-- The registry calls of `_record_interrupted`
unfoldable pub interrupted_marks : QueueJob → String → List RegistryCall
interrupted_marks j message =
    (if is_upload j.kind && not (is_nil j.uploads)
      then mark_job_status j.id j.uploads "interrupted" (some message) ∷ []
      else [])
    ++ (if is_nil j.source_hashes
        then []
        else mark_sources_interrupted j.id j.source_hashes message ∷ [])

-- A best-effort call of the registry: `answers` says whether it goes through.
unfoldable pub add_marks : Bool → List RegistryCall → RagJobQueue → RagJobQueue
add_marks answers calls s = if answers then record s { marks = s.marks ++ calls } else s

-- `_ledger_record`: best effort
unfoldable pub ledger_record : Bool → QueueJob → String → RagJobQueue → RagJobQueue
unfolding record_job
ledger_record written j now s = record s {
  ledger =
      record_job written j.id
        (record {
          kind = j.kind;
          recorded_at = now;
          source_hashes = j.source_hashes;
          backup_name = j.backup_name;
          options = j.options;
        })
        s.ledger;
}

-- `_ledger_remove`: best effort, for tracked kinds
unfoldable pub ledger_remove : Bool → QueueJob → RagJobQueue → RagJobQueue
unfolding remove_job
ledger_remove written j s =
    if is_tracked j.kind then record s { ledger = remove_job written j.id s.ledger } else s

-- `JOB_LOG_TAIL_LINES` of web_app.py
abbrev pub job_log_tail_lines : ℕ
job_log_tail_lines = 200

-- `del log_tail[: len - limit]` when there are more than `limit` lines
unfoldable pub trim_tail : ℕ → List String → List String
trim_tail limit lines =
    if ltb limit (length lines) then drop (length lines - limit) lines else lines

unfoldable pub as_logged : String → QueueJob → QueueJob
unfolding trim_tail
as_logged line j = record j {
  log_line_count = j.log_line_count + 1;
  log_tail = trim_tail job_log_tail_lines (j.log_tail ++ line ∷ []);
}

-- `_append_job_log`, for a line that is already stripped; an empty one is dropped
unfoldable pub append_job_log : String → String → RagJobQueue → RagJobQueue
unfolding as_logged update_job
append_job_log id String.[] s = s
append_job_log id line s = bump_state_version (update_job id (as_logged line) s)

unfoldable pub as_reported : Json → QueueJob → QueueJob
as_reported payload j = record j { progress = some payload }

-- `_set_job_progress`: the payload is a JSON object, or nothing happens
unfoldable pub set_job_progress : String → Json → RagJobQueue → RagJobQueue
unfolding as_reported update_job
set_job_progress id (Json.obj fields) s =
    bump_state_version (update_job id (as_reported (Json.obj fields)) s)
set_job_progress id _ s = s
