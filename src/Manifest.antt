-- ===== src/Manifest.antt =====
-- `IndexManifest` of src/local_rag.py: for each source the counts of its records in the index, with running
-- totals, and the content hashes of the records in one sidecar for each source. A page number that
-- is missing is 0. A record's key is as `_manifest_source_key` chooses it among stripped texts; its
-- content is given by its length and its `sha256`.
pub mod Totals
pub mod Sources
mod Tests
use rag_pipeline_windows.Base.{
  ℕ, zero, suc, ◌+◌, ◌-◌, min, max, ◌==◌, nat_eq, String, Bool, true, false, Option, none, some,
  List, [], ◌∷◌, if◌then◌else◌, get_or_else,
}
use rag_pipeline_windows.Base.Dict.{Dict, lookup, insert, remove}
use rag_pipeline_windows.Base.Updates.{update_all}

-- `node_type`, by what is asked of it: "chunk", a type that ends in "summary", or another
pub data NodeType : Type 0 where
  chunk : NodeType
  summary : NodeType
  other : NodeType

pub record IndexRecord : Type 0 where
  pub id : String
  pub source_hash : String
  pub source_pdf_name : String
  pub source_pdf_path : String
  pub file_path : String
  pub doc_id : String
  pub node_type : NodeType
  pub content_length : ℕ
  pub content_hash : String
  pub page_start : ℕ
  pub page_end : ℕ
  pub vector_reused : Bool

pub record Document : Type 0 where
  pub source_hash : String
  pub source_pdf_name : String
  pub source_pdf_path : String
  pub file_path : String
  pub record_count : ℕ
  pub chunk_count : ℕ
  pub summary_count : ℕ
  pub content_char_count : ℕ
  pub page_start : ℕ
  pub page_end : ℕ
  pub embedded_count : ℕ
  pub reused_count : ℕ

pub record IndexManifest : Type 0 where
  pub documents : Dict Document
  pub total_records : ℕ
  pub embedded_records : ℕ
  pub reused_records : ℕ
  pub sidecars : Dict (Dict String)

-- The payload that `__init__` makes
abbrev pub empty_manifest : Dict (Dict String) → IndexManifest
empty_manifest sidecars = record {
  documents = [];
  total_records = 0;
  embedded_records = 0;
  reused_records = 0;
  sidecars = sidecars;
}

abbrev pub or_text : String → String → String
or_text text default = if text == "" then default else text

-- `_manifest_source_key`
abbrev pub source_key : IndexRecord → String
source_key r =
    or_text r.source_hash
      (or_text (or_text r.source_pdf_path r.file_path) (or_text r.doc_id "unknown"))

-- The entry that `setdefault` puts in.
abbrev pub new_document : IndexRecord → Document
new_document r = record {
  source_hash = r.source_hash;
  source_pdf_name = r.source_pdf_name;
  source_pdf_path = r.source_pdf_path;
  file_path = r.file_path;
  record_count = 0;
  chunk_count = 0;
  summary_count = 0;
  content_char_count = 0;
  page_start = 0;
  page_end = 0;
  embedded_count = 0;
  reused_count = 0;
}

abbrev pub is_chunk : NodeType → ℕ
is_chunk chunk = 1
is_chunk summary = 0
is_chunk other = 0

abbrev pub is_summary : NodeType → ℕ
is_summary summary = 1
is_summary chunk = 0
is_summary other = 0

abbrev pub if_reused : Bool → ℕ
if_reused true = 1
if_reused false = 0

abbrev pub if_embedded : Bool → ℕ
if_embedded true = 0
if_embedded false = 1

-- `page_start` and `page_end` after one record
abbrev pub first_page : ℕ → ℕ → ℕ
first_page current zero = current
first_page zero (suc p) = suc p
first_page (suc c) (suc p) = min (suc c) (suc p)

abbrev pub last_page : ℕ → ℕ → ℕ
last_page current zero = current
last_page current (suc p) = max current (suc p)

-- The document after one of its records.
unfoldable pub count_record : IndexRecord → Document → Document
count_record r d = record d {
  record_count = d.record_count + 1;
  chunk_count = d.chunk_count + is_chunk r.node_type;
  summary_count = d.summary_count + is_summary r.node_type;
  content_char_count = d.content_char_count + r.content_length;
  page_start = first_page d.page_start r.page_start;
  page_end = last_page d.page_end r.page_end;
  embedded_count = d.embedded_count + if_embedded r.vector_reused;
  reused_count = d.reused_count + if_reused r.vector_reused;
}

-- The loop of `merge_records` over the documents and the totals
unfoldable pub count_records : List IndexRecord → IndexManifest → IndexManifest
unfolding count_record
count_records [] m = m
count_records (r ∷ records) m =
    let d = get_or_else (lookup (source_key r) m.documents) (new_document r) in
    count_records records (record m {
      documents = insert (source_key r) (count_record r d) m.documents;
      total_records = m.total_records + 1;
      embedded_records = m.embedded_records + if_embedded r.vector_reused;
      reused_records = m.reused_records + if_reused r.vector_reused;
    })

-- The hashes that the loop collects for the sidecars
unfoldable pub collect_hashes : List IndexRecord → Dict (Dict String) → Dict (Dict String)
collect_hashes [] collected = collected
collect_hashes (r ∷ records) collected =
    let hashes = get_or_else (lookup (source_key r) collected) [] in
    collect_hashes records (
      if r.id == ""
      then collected
      else insert (source_key r) (insert r.id r.content_hash hashes) collected)

-- `_write_content_hash_sidecar` for each source touched: a sidecar is merged with what it holds.
unfoldable pub write_sidecars : Dict (Dict String) → Dict (Dict String) → Dict (Dict String)
unfolding update_all
write_sidecars [] sidecars = sidecars
write_sidecars ((key, hashes) ∷ rest) sidecars =
    write_sidecars rest
      (insert key (update_all hashes (get_or_else (lookup key sidecars) [])) sidecars)

-- `merge_records`, with a working directory
unfoldable pub merge_records : List IndexRecord → IndexManifest → IndexManifest
unfolding count_records collect_hashes write_sidecars
merge_records records m =
    let counted = count_records records m in
    record counted { sidecars = write_sidecars (collect_hashes records []) m.sidecars }

-- `replace_source`, which counts the records in a manifest of its own
unfoldable pub replace_source : String → List IndexRecord → IndexManifest → IndexManifest
unfolding merge_records
replace_source key [] m = record m { documents = remove key m.documents }
replace_source key (r ∷ records) m =
    let mini = merge_records (r ∷ records) (empty_manifest m.sidecars) in
    let rest = remove key m.documents in
    record m {
      documents = elim (lookup key mini.documents) [ none ↦ rest | some d ↦ insert key d rest ];
      sidecars = mini.sidecars;
    }

-- `int(entry.get("embedded_count") or count)`
abbrev pub embedded_or_count : Document → ℕ
embedded_or_count d = if nat_eq d.embedded_count 0 then d.record_count else d.embedded_count

unfoldable pub sum_documents : (Document → ℕ) → Dict Document → ℕ
sum_documents f [] = 0
sum_documents f ((key, d) ∷ documents) = f d + sum_documents f documents

-- `recompute_totals`
unfoldable pub recompute_totals : IndexManifest → IndexManifest
unfolding sum_documents
recompute_totals m = record m {
  total_records = sum_documents (λ d. d.record_count) m.documents;
  embedded_records = sum_documents embedded_or_count m.documents;
  reused_records = sum_documents (λ d. d.reused_count) m.documents;
}

-- The loop of `update_index_manifest_sources`
unfoldable pub replace_sources : Dict (List IndexRecord) → IndexManifest → IndexManifest
unfolding replace_source
replace_sources [] m = m
replace_sources ((key, records) ∷ rest) m =
    replace_sources rest (if key == "" then m else replace_source key records m)

-- `update_index_manifest_sources` on the manifest that `load` gives
unfoldable pub update_index_manifest_sources :
    Dict (List IndexRecord) → IndexManifest → IndexManifest
unfolding replace_sources recompute_totals
update_index_manifest_sources sources m = recompute_totals (replace_sources sources m)
