-- ===== src/Registry/Tests.antt =====
-- The theorems on the PDF registry at concrete entries.
use rag_pipeline_windows.Base.{◌==◌, String, Bool, List, [], ◌∷◌, ◌≡◌, refl}
use rag_pipeline_windows.Base.Dict.{Dict, lookup, insert}
use rag_pipeline_windows.Registry.{
  Entry, UploadItem, commit_changed, mark_job_status, queued_body, mark_entry, advance_entry,
}
use rag_pipeline_windows.Registry.Commit.{refreshed, commit_changed_writes_all}
use rag_pipeline_windows.Registry.Superseding.{one_document_per_path}
use rag_pipeline_windows.Registry.Pending.{Call}

abbrev rows_before : Dict String
rows_before = ("a", "1") ∷ ("b", "2") ∷ []

abbrev rows_after : Dict String
rows_after = ("b", "3") ∷ ("c", "4") ∷ []

abbrev same_text : String → String → Bool
same_text v w = v == w

abbrev key_b : String
key_b = "b"

commit_changed_writes_all_example :
    lookup key_b (commit_changed same_text rows_before rows_after)
    ≡ refreshed same_text (lookup key_b rows_before) (lookup key_b rows_after)
commit_changed_writes_all_example =
    commit_changed_writes_all same_text rows_before rows_after key_b refl

abbrev item : UploadItem
item = record {
  hash = "h";
  filename = "notes.pdf";
  staging_path = "s/notes.pdf";
  upload_path = "u/notes.pdf";
  processed_markdown_path = "m/notes.md";
}

abbrev job : String
job = "j"

abbrev now : String
now = "t1"

abbrev empty_text : String
empty_text = ""

abbrev forced : List String
forced = "h" ∷ []

abbrev hash : String
hash = "h"

abbrev old_hash : String
old_hash = "k"

-- An earlier version of the same document, ingested by another job
abbrev old_entry : Entry
old_entry = record {
  body = record (queued_body "i" [] "t0" item) { status = "ingested" };
  older = [];
}

abbrev queued_entry : Entry
queued_entry = record { body = queued_body "j" [] "t0" item; older = [] }

abbrev documents : Dict Entry
documents = ("k", old_entry) ∷ ("h", queued_entry) ∷ []

abbrev ingested_status : String
ingested_status = "ingested"

abbrev marked : Entry
marked = mark_entry job ingested_status empty_text now item queued_entry

one_document_per_path_example : hash ≡ hash
unfolding lookup insert
one_document_per_path_example =
    one_document_per_path job ingested_status empty_text now (item ∷ []) documents hash hash marked
      marked (unfold mark_job_status in refl) (unfold mark_job_status in refl)
      (unfold mark_entry advance_entry in refl) (unfold mark_entry advance_entry in refl) refl
      (unfold mark_entry advance_entry in refl)

abbrev known : Dict Entry
known = ("h", old_entry) ∷ []

-- Another PDF, that the job uploads for the first time
abbrev second_item : UploadItem
second_item = record item {
  hash = "g";
  filename = "more.pdf";
  processed_markdown_path = "m/more.md";
}

abbrev uploaded : List UploadItem
uploaded = second_item ∷ item ∷ []

-- The job starts to ingest, while another job ends.
abbrev calls : List Call
calls =
    record { job_id = "j"; status = "ingesting"; error = ""; now = "t2"; files = uploaded }
    ∷ record { job_id = "o"; status = "ingested"; error = ""; now = "t3"; files = item ∷ [] }
    ∷ []

abbrev failed_text : String
failed_text = "no disk"

abbrev failed_status : String
failed_status = "failed"

abbrev interrupted_status : String
interrupted_status = "interrupted"

abbrev later : String
later = "t4"
