-- ===== src/Manifest/Tests.antt =====
-- The theorems on the index manifest at concrete records.
use rag_pipeline_windows.Base.{String, false, List, [], ◌∷◌, ◌≡◌, refl}
use rag_pipeline_windows.Base.Dict.{lookup}
use rag_pipeline_windows.Manifest.{
  IndexRecord, IndexManifest, chunk, empty_manifest, merge_records, replace_source, sum_documents,
}
use rag_pipeline_windows.Manifest.Totals.{Balanced, merge_records-Balanced}
use rag_pipeline_windows.Manifest.Sources.{summarised, first_record, replace_source_counts}

abbrev embedded : String → IndexRecord
embedded id = record {
  id = id;
  source_hash = "h";
  source_pdf_name = "notes.pdf";
  source_pdf_path = "u/notes.pdf";
  file_path = "notes.md";
  doc_id = "d";
  node_type = chunk;
  content_length = 40;
  content_hash = "c";
  page_start = 1;
  page_end = 2;
  vector_reused = false;
}

abbrev empty_index : IndexManifest
empty_index = empty_manifest []

empty_index-Balanced : Balanced empty_index
unfolding sum_documents
empty_index-Balanced = record { total = refl; embedded = refl; reused = refl }

abbrev first_run : List IndexRecord
first_run = embedded "r1" ∷ embedded "r2" ∷ []

merge_records-Balanced_example : Balanced (merge_records first_run empty_index)
merge_records-Balanced_example = merge_records-Balanced first_run empty_index empty_index-Balanced

abbrev key : String
key = "h"

abbrev other_key : String
other_key = "g"

-- The index has another source.
abbrev two_sources : IndexManifest
two_sources = merge_records (record (embedded "r0") { source_hash = "g" } ∷ []) empty_index

replace_source_counts_example :
    (lookup key (replace_source key first_run two_sources).documents
      ≡ summarised key first_run (first_record key first_run))
    × (lookup other_key (replace_source key first_run two_sources).documents
        ≡ lookup other_key two_sources.documents)
replace_source_counts_example = replace_source_counts key other_key first_run two_sources refl
