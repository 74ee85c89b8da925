-- ===== src/Registry.antt =====
-- src/pdf_registry.py: `PdfRegistry`, one entry for each uploaded PDF, by its hash. An entry keeps the
-- one that it replaced under `previous_entry`, and that one its own: `older` is this chain, the newest
-- first. A text field that is missing is "". Every method runs in one transaction.
pub mod Commit
pub mod Superseding
pub mod Pending
pub mod Restoring
mod Tests
use rag_pipeline_windows.Base.{
  ℕ, ◌==◌, String, Bool, true, false, ◌||◌, ◌&&◌, Option, none, some, List, [], ◌∷◌, if◌then◌else◌,
  contains,
}
use rag_pipeline_windows.Base.Dict.{Dict, lookup, insert, remove, has}
use rag_pipeline_windows.Base.Updates.{changed_entries, missing_keys, update_all, remove_all}
use rag_pipeline_windows.Jobs.{Json}

pub record Body : Type 0 where
  pub hash : String
  pub filename : String
  pub status : String
  pub job_id : String
  pub staging_path : String
  pub upload_path : String
  pub processed_markdown_path : String
  pub created_at : String
  pub updated_at : String
  pub options : Dict Json
  pub last_error : Option String
  pub last_failed_at : Option String
  pub last_failed_job_id : Option String
  pub last_interrupted_at : Option String
  pub last_interrupted_job_id : Option String

pub record Entry : Type 0 where
  pub body : Body
  pub older : List Body

-- One of the `files` of a job.
pub record UploadItem : Type 0 where
  pub hash : String
  pub filename : String
  pub staging_path : String
  pub upload_path : String
  pub processed_markdown_path : String

-- `{"ingested", "indexed"}`
abbrev pub is_ingested : String → Bool
is_ingested status = (status == "ingested") || (status == "indexed")

-- `BLOCKING_STATUSES`
abbrev pub is_blocking : String → Bool
is_blocking status =
    contains status ("queued" ∷ "saving_uploads" ∷ "ingesting" ∷ "ingested" ∷ "indexed" ∷ [])

-- `blocking_duplicates`: the files with the entry that blocks each
unfoldable pub blocking_duplicates : List UploadItem → Dict Entry → List (UploadItem × Body)
blocking_duplicates [] pdfs = []
blocking_duplicates (item ∷ files) pdfs =
    let rest = blocking_duplicates files pdfs in
    elim (lookup item.hash pdfs) [
      | none ↦ rest
      | some e ↦ if is_blocking e.body.status then (item, e.body) ∷ rest else rest
    ]

abbrev pub queued_body : String → Dict Json → String → UploadItem → Body
queued_body job_id options now item = record {
  hash = item.hash;
  filename = item.filename;
  status = "queued";
  job_id = job_id;
  staging_path = item.staging_path;
  upload_path = item.upload_path;
  processed_markdown_path = item.processed_markdown_path;
  created_at = now;
  updated_at = now;
  options = options;
  last_error = none;
  last_failed_at = none;
  last_failed_job_id = none;
  last_interrupted_at = none;
  last_interrupted_job_id = none;
}

abbrev pub chain_of : Option Entry → List Body
chain_of none = []
chain_of (some e) = e.body ∷ e.older

-- The loop of `register_queued`
unfoldable pub register_queued :
    String → List String → Dict Json → String → List UploadItem → Dict Entry → Dict Entry
register_queued job_id forced options now [] documents = documents
register_queued job_id forced options now (item ∷ files) documents =
    let older = if contains item.hash forced then chain_of (lookup item.hash documents) else [] in
    register_queued job_id forced options now files (
      insert item.hash (record { body = queued_body job_id options now item; older = older })
        documents)

abbrev pub or_text : String → String → String
or_text text default = if text == "" then default else text

-- `for key in ("staging_path", …): if item.get(key): entry[key] = …`
abbrev pub take_paths : UploadItem → Body → Body
take_paths item b = record b {
  staging_path = or_text item.staging_path b.staging_path;
  upload_path = or_text item.upload_path b.upload_path;
  processed_markdown_path = or_text item.processed_markdown_path b.processed_markdown_path;
}

-- `update(interrupted)`
abbrev pub interrupted_body : String → String → String → Body → Body
interrupted_body job_id error now b = record b {
  last_interrupted_job_id = some job_id;
  last_interrupted_at = some now;
  last_error = some (or_text error "Job interrupted.");
  updated_at = now;
}

unfoldable pub interrupt_entry : String → String → String → UploadItem → Body → List Body → Entry
interrupt_entry job_id error now item b [] =
    let marked = interrupted_body job_id error now (record b { status = "interrupted" }) in
    record { body = take_paths item marked; older = [] }
interrupt_entry job_id error now item b (previous ∷ older) = record {
  body = interrupted_body job_id error now previous;
  older = older;
}

-- The branch of a failed job whose entry is not ingested yet.
unfoldable pub fail_entry : String → String → String → UploadItem → Body → List Body → Entry
fail_entry job_id error now item b [] =
    let failed = take_paths item (record b { status = "failed"; updated_at = now }) in
    record {
      body = if error == "" then failed else record failed { last_error = some error };
      older = [];
    }
fail_entry job_id error now item b (previous ∷ older) = record {
  body = record previous {
    last_failed_job_id = some job_id;
    last_error = some error;
    updated_at = now;
  };
  older = older;
}

-- The last branch: the entry takes the status.
unfoldable pub advance_entry : String → String → String → UploadItem → Entry → Entry
advance_entry status error now item e =
    let moved = take_paths item (record (e.body) { status = status; updated_at = now }) in
    record {
      body = if error == "" then moved else record moved { last_error = some error };
      older = if is_ingested status then [] else e.older;
    }

unfoldable pub mark_entry : String → String → String → String → UploadItem → Entry → Entry
unfolding interrupt_entry fail_entry advance_entry
mark_entry job_id status error now item e =
    if status == "interrupted"
    then interrupt_entry job_id error now item e.body e.older
    else if status == "failed"
    then (if is_ingested e.body.status
        then record e {
          body = record (e.body) {
            last_error = some error;
            last_failed_at = some now;
            updated_at = now;
          };
        }
        else fail_entry job_id error now item e.body e.older)
    else advance_entry status error now item e

-- The loop of `mark_job_status`: an item without an entry of this job is passed over.
unfoldable pub mark_items :
    String → String → String → String → List UploadItem → Dict Entry → Dict Entry
unfolding mark_entry
mark_items job_id status error now [] state = state
mark_items job_id status error now (item ∷ files) state =
    mark_items job_id status error now files (elim (lookup item.hash state) [
      | none ↦ state
      | some e ↦
          if e.body.job_id == job_id
          then insert item.hash (mark_entry job_id status error now item e) state
          else state
    ])

-- The first loop of `_supersede_same_processed_paths`: the last ingested document of each path.
unfoldable pub active_by_path : Dict Entry → Dict String → Dict String
active_by_path [] active = active
active_by_path ((hash, e) ∷ pdfs) active =
    let path = e.body.processed_markdown_path in
    active_by_path pdfs (
      if (path == "") || (if is_ingested e.body.status then false else true)
      then active
      else insert path hash active)

abbrev pub superseded : String → Entry → Entry
superseded now e = record e { body = record (e.body) { status = "superseded"; updated_at = now } }

-- The second loop, on one document.
unfoldable pub supersede_one : String → Dict String → String → Entry → Entry
supersede_one now active hash e =
    if e.body.processed_markdown_path == ""
    then e
    else elim (lookup e.body.processed_markdown_path active) [
      | none ↦ e
      | some h ↦ if h == hash then e else superseded now e
    ]

unfoldable pub supersede_all : String → Dict String → Dict Entry → Dict Entry
unfolding supersede_one
supersede_all now active [] = []
supersede_all now active ((hash, e) ∷ pdfs) =
    (hash, supersede_one now active hash e) ∷ supersede_all now active pdfs

-- `mark_job_status`
unfoldable pub mark_job_status :
    String → String → String → String → List UploadItem → Dict Entry → Dict Entry
unfolding mark_items active_by_path supersede_all
mark_job_status job_id status error now files documents =
    let state = mark_items job_id status error now files documents in
    supersede_all now (active_by_path state []) state

-- The entry that `mark_sources_interrupted` starts from when there is none.
abbrev pub unknown_body : String → String → Body
unknown_body now hash = record {
  hash = hash;
  filename = "";
  status = "";
  job_id = "";
  staging_path = "";
  upload_path = "";
  processed_markdown_path = "";
  created_at = now;
  updated_at = now;
  options = [];
  last_error = none;
  last_failed_at = none;
  last_failed_job_id = none;
  last_interrupted_at = none;
  last_interrupted_job_id = none;
}

abbrev pub entry_or_unknown : String → String → Option Entry → Entry
entry_or_unknown now hash none = record { body = unknown_body now hash; older = [] }
entry_or_unknown now hash (some e) = e

-- `mark_sources_interrupted`
unfoldable pub mark_sources_interrupted :
    String → String → String → List String → Dict Entry → Dict Entry
mark_sources_interrupted job_id error now [] state = state
mark_sources_interrupted job_id error now (hash ∷ hashes) state =
    mark_sources_interrupted job_id error now hashes (
      if hash == ""
      then state
      else let e = entry_or_unknown now hash (lookup hash state) in
        insert hash (record e { body = interrupted_body job_id error now e.body }) state)

-- `delete_source`: the entry that was there, and the rest
unfoldable pub delete_source : String → Dict Entry → Option Entry × Dict Entry
delete_source hash documents =
    if hash == "" then (none, documents) else (lookup hash documents, remove hash documents)

-- The rows after `_commit_changed`, which writes the changed rows and deletes the missing ones
-- (`_write_documents`), for rows of any type; `same` is Python's `==`.
unfoldable pub commit_changed {ℓ} : {V : Type ℓ} → (V → V → Bool) → Dict V → Dict V → Dict V
unfolding changed_entries missing_keys update_all remove_all
commit_changed same before state =
    remove_all (missing_keys before state) (update_all (changed_entries same before state) before)
