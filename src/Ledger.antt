-- ===== src/Ledger.antt =====
-- src/job_ledger.py: the durable record of the tracked jobs that have not finished. The state is the
-- `jobs` object of the ledger file, and of the payload in the cache. A flag says whether the write of the
-- file succeeds: a write that fails leaves the file as it was, but not the cached payload.
use rag_pipeline_windows.Base.{
  ℕ, String, Bool, true, false, Option, none, some, List, [], length, if◌then◌else◌, get_or_else,
}
use rag_pipeline_windows.Base.Dict.{Dict, insert, remove, has}
use rag_pipeline_windows.Jobs.{Kind, upload, unknown_kind, Json}

pub record LedgerEntry : Type 0 where
  pub kind : Kind
  pub recorded_at : String
  pub source_hashes : List String
  pub backup_name : Option String
  pub options : Dict Json

-- `LEDGER_TRACKED_KINDS`
abbrev pub is_tracked : Kind → Bool
is_tracked upload = false
is_tracked (unknown_kind k) = false
is_tracked _ = true

-- The file, when it exists, and the payload of `_JSON_CACHE` where it differs from it: `record` and `remove`
-- change the cached payload in place before they write, and a write that succeeds drops it from the cache.
pub record JobLedger : Type 0 where
  pub file : Option (Dict LedgerEntry)
  pub cached : Option (Dict LedgerEntry)

-- What a new process reads from the file.
abbrev pub stored : JobLedger → Dict LedgerEntry
stored l = get_or_else l.file []

-- `_load`: without a file the cache is dropped.
abbrev pub load : JobLedger → Dict LedgerEntry
load l = elim l.file [ none ↦ [] | some jobs ↦ get_or_else l.cached jobs ]

-- The jobs are changed, and then written or not.
abbrev pub save : Bool → Dict LedgerEntry → JobLedger → JobLedger
save true jobs l = record { file = some jobs; cached = none }
save false jobs l = record l { cached = some jobs }

-- `JobLedger.record`
unfoldable pub record_job : Bool → String → LedgerEntry → JobLedger → JobLedger
record_job written id entry l =
    if is_tracked entry.kind then save written (insert id entry (load l)) l else l

-- `JobLedger.remove`
unfoldable pub remove_job : Bool → String → JobLedger → JobLedger
remove_job written id l = if has id (load l) then save written (remove id (load l)) l else l

-- `JobLedger.count`
unfoldable pub count : JobLedger → ℕ
count l = length (load l)
