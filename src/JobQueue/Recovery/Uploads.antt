-- ===== src/JobQueue/Recovery/Uploads.antt =====
-- `_recovery_jobs_from_registry`: the upload jobs that the entries of the PDF registry call for. The path
-- operations of `pathlib` and the text of a JSON value that is true, `str(value or "")`, are parameters.
use rag_pipeline_windows.Base.{
  ℕ, ltb, ◌==◌, String, true, ◌||◌, Option, none, some, List, [], ◌∷◌, ◌++◌, if◌then◌else◌,
  get_or_else,
}
use rag_pipeline_windows.Base.Dict.{Dict, lookup, insert, remove}
use rag_pipeline_windows.Jobs.{QueueJob, Json, upload, new_job}
use rag_pipeline_windows.Registry.{Body, Entry, or_text}
use rag_pipeline_windows.JobQueue.State.{is_nil}
use rag_pipeline_windows.JobQueue.Enqueue.{insert_sorted}
use rag_pipeline_windows.JobQueue.Recovery.{sort_by}
use rag_pipeline_windows.JobQueue.Recovery.Names.{recovered_id}

-- `UPLOAD_RESUME_STATUS_ORDER`, whose keys are `RECOVERABLE_UPLOAD_STATUSES`
unfoldable pub resume_order : String → Option ℕ
resume_order status =
    if status == "queued"
    then some 0
    else if status == "saving_uploads"
    then some 1
    else if status == "ingesting"
    then some 2
    else if status == "ingested"
    then some 3
    else none

unfoldable pub order_of : String → ℕ
unfolding resume_order
order_of status = get_or_else (resume_order status) 0

pub record Group : Type 0 where
  pub job_id : String
  pub entries : List (String × Entry)
  pub resume_status : String
  pub created_at : String
  pub options : Dict Json

-- The group that `setdefault` puts in.
abbrev pub new_group : String → String → Body → Group
new_group now job_id b = record {
  job_id = job_id;
  entries = [];
  resume_status = b.status;
  created_at = or_text b.created_at now;
  options = b.options;
}

unfoldable pub add_entry : String → Entry → Group → Group
unfolding order_of
add_entry source_hash e g = record g {
  entries = g.entries ++ (source_hash, e) ∷ [];
  resume_status =
      if ltb (order_of e.body.status) (order_of g.resume_status)
      then e.body.status
      else g.resume_status;
  options = if is_nil g.options then e.body.options else g.options;
}

abbrev pub group_id : String → Entry → String
group_id source_hash e = or_text e.body.job_id (recovered_id source_hash)

-- The loop over the entries of the registry
unfoldable pub collect_groups : String → Dict Entry → Dict Group → Dict Group
unfolding add_entry resume_order
collect_groups now [] groups = groups
collect_groups now ((source_hash, e) ∷ pdfs) groups =
    let id = group_id source_hash e in
    let g = get_or_else (lookup id groups) (new_group now id e.body) in
    let rest = collect_groups now pdfs in
    elim (resume_order e.body.status) [
      | none ↦ rest groups
      | some _ ↦ rest (insert id (add_entry source_hash e g) groups)
    ]

abbrev pub values : Dict Group → List Group
values [] = []
values ((_, g) ∷ groups) = g ∷ values groups

-- `sorted(set(…))`
unfoldable pub sorted_all : List String → List String
unfolding insert_sorted
sorted_all [] = []
sorted_all (x ∷ xs) = insert_sorted x (sorted_all xs)

-- The hashes whose entry has a `previous_entry`
unfoldable pub forced_hashes : List (String × Entry) → List String
forced_hashes [] = []
forced_hashes ((source_hash, e) ∷ entries) =
    let rest = forced_hashes entries in if is_nil e.older then rest else source_hash ∷ rest

module _ (parent path_name : String → String) (shown : Json → String) where
  abbrev pub file_name : Body → String
  file_name b = or_text b.filename (path_name b.upload_path)

  abbrev pub file_names : List (String × Entry) → List String
  file_names [] = []
  file_names ((_, e) ∷ entries) = file_name e.body ∷ file_names entries

  -- `staging_dirs[0] if staging_dirs else None`
  unfoldable pub first_staging : List (String × Entry) → Option String
  first_staging [] = none
  first_staging ((_, e) ∷ entries) =
      let rest = first_staging entries in
      if e.body.staging_path == "" then rest else some (parent e.body.staging_path)

  -- `upload_dir = upload_dir or …`, and `or None` at the end
  unfoldable pub first_upload : List (String × Entry) → Option String
  first_upload [] = none
  first_upload ((_, e) ∷ entries) =
      let rest = first_upload entries in
      if e.body.upload_path == "" || parent e.body.upload_path == ""
      then rest
      else some (parent e.body.upload_path)

  unfoldable pub upload_items : List (String × Entry) → List (Dict Json)
  upload_items [] = []
  upload_items ((source_hash, e) ∷ entries) =
      (("filename", Json.text (file_name e.body))
        ∷ ("hash", Json.text source_hash)
        ∷ ("staging_path", Json.text e.body.staging_path)
        ∷ ("upload_path", Json.text e.body.upload_path)
        ∷ ("processed_markdown_path", Json.text e.body.processed_markdown_path)
        ∷ [])
      ∷ upload_items entries

  -- A captured embedding model other than the configured one is dropped.
  unfoldable pub current_options : String → Dict Json → Dict Json
  current_options configured_model options = elim (lookup "embedding_model" options) [
    | none ↦ options
    | some model ↦
        (if shown model == "" || shown model == configured_model
          then options
          else remove "embedding_model" options)
  ]

  unfoldable pub group_job : String → Group → QueueJob
  unfolding new_job first_staging first_upload upload_items current_options sorted_all forced_hashes
  group_job configured_model g =
      let j = new_job g.job_id upload (current_options configured_model g.options) g.created_at in
      record j {
        phase = "recovered";
        filenames = file_names g.entries;
        uploads = upload_items g.entries;
        force_duplicate_hashes = sorted_all (forced_hashes g.entries);
        staging_dir = first_staging g.entries;
        upload_dir = first_upload g.entries;
        resume_status = some g.resume_status;
        recovered = true;
      }

  unfoldable pub group_jobs : String → List Group → List QueueJob
  unfolding group_job
  group_jobs configured_model [] = []
  group_jobs configured_model (g ∷ groups) =
      group_job configured_model g ∷ group_jobs configured_model groups

  -- `_recovery_jobs_from_registry`
  unfoldable pub recovery_jobs_from_registry : String → String → Dict Entry → List QueueJob
  unfolding collect_groups group_jobs sort_by
  recovery_jobs_from_registry configured_model now pdfs =
      group_jobs configured_model
        (sort_by (λ g. g.created_at) (values (collect_groups now pdfs [])))
