-- ===== src/Jobs.antt =====
-- src/web_app_classes/queue_job.py: the job record, its kinds and its life cycle.
use rag_pipeline_windows.Base.{ℕ, String, Bool, true, false, Option, none, List, []}
use rag_pipeline_windows.Base.Dict.{Dict}

-- The values of `options`, `uploads` and `progress`: JSON. A number is kept as its text.
mutual
  pub data Json : Type 0 where
    null : Json
    bool : Bool → Json
    number : String → Json
    text : String → Json
    arr : JsonItems → Json
    obj : JsonFields → Json

  pub data JsonItems : Type 0 where
    nil : JsonItems
    cons : Json → JsonItems → JsonItems

  pub data JsonFields : Type 0 where
    end : JsonFields
    field : String → Json → JsonFields → JsonFields

pub data Kind : Type 0 where
  upload reindex reindex_source transfer_sources backup rebuild restore : Kind
  rebuild_vector_index compact : Kind
  unknown_kind : String → Kind

pub data Status : Type 0 where
  queued running paused_for_queries done failed cancelled : Status

-- `TERMINAL_JOB_STATUSES`
abbrev pub is_terminal : Status → Bool
is_terminal done = true
is_terminal failed = true
is_terminal cancelled = true
is_terminal queued = false
is_terminal running = false
is_terminal paused_for_queries = false

pub record QueueJob : Type 0 where
  pub id : String
  pub kind : Kind
  pub status : Status
  pub phase : String
  pub filenames : List String
  pub uploads : List (Dict Json)
  pub force_duplicate_hashes : List String
  pub source_hashes : List String
  pub backup_name : Option String
  pub staging_dir : Option String
  pub upload_dir : Option String
  pub resume_status : Option String
  pub recovered : Bool
  pub options : Dict Json
  pub cancel_requested : Bool
  pub error : Option String
  pub log_tail : List String
  pub log_line_count : ℕ
  pub progress : Option Json
  pub created_at : String
  pub started_at : Option String
  pub finished_at : Option String
  pub cancel_event : Bool

-- `QueueJob(id=…, kind=…, options=…)`: the defaults of the other fields
unfoldable pub new_job : String → Kind → Dict Json → String → QueueJob
new_job id kind options now = record {
  id = id;
  kind = kind;
  status = queued;
  phase = "queued";
  filenames = [];
  uploads = [];
  force_duplicate_hashes = [];
  source_hashes = [];
  backup_name = none;
  staging_dir = none;
  upload_dir = none;
  resume_status = none;
  recovered = false;
  options = options;
  cancel_requested = false;
  error = none;
  log_tail = [];
  log_line_count = 0;
  progress = none;
  created_at = now;
  started_at = none;
  finished_at = none;
  cancel_event = false;
}

abbrev pub is_upload : Kind → Bool
is_upload upload = true
is_upload _ = false

-- `status not in TERMINAL_JOB_STATUSES and not cancel_requested`
abbrev pub is_active : QueueJob → Bool
is_active j = elim (is_terminal j.status) [
  | true ↦ false
  | false ↦ elim j.cancel_requested [ true ↦ false | false ↦ true ]
]
