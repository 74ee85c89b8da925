-- ===== src/Overrides/Tests.antt =====
-- The theorems on the overrides at concrete records and directories.
use rag_pipeline_windows.Base.{
  map, keep, ◌==◌, String, true, false, some, List, [], ◌∷◌, ◌≡◌, refl, if◌then◌else◌,
}
use rag_pipeline_windows.Base.Dict.{lookup}
use rag_pipeline_windows.Overrides.{
  IndexRecord, Payload, Disk, load_index_overrides, write_index_overrides, persist_index_edit,
  apply_overrides_to_records, edit_of, deletion_of, with_edit, move_overrides_for_sources,
}
use rag_pipeline_windows.Overrides.Applying.{
  shown, is_kept, with_text, apply_overrides_to_records_shows, persist_index_edit_shows,
}
use rag_pipeline_windows.Overrides.Moving.{Carried, move_overrides_for_sources-Carried}

abbrev record_named : String → IndexRecord
record_named id = record {
  id = id;
  content = "text";
  source_hash = "h";
  doc_id = "d";
  file_path = "f.md";
  manual_edit = false;
}

abbrev now : String
now = "t1"

abbrev content : String
content = "edited"

abbrev payload : Payload
payload = record {
  edits = ("r1", edit_of "t0" (record_named "r1") "new") ∷ [];
  deletions = ("r2", deletion_of "t0" (record_named "r2")) ∷ [];
}

abbrev records : List IndexRecord
records = record_named "r1" ∷ record_named "r2" ∷ record_named "r3" ∷ []

abbrev dir : String
dir = "a"

abbrev other_dir : String
other_dir = "b"

abbrev id_r1 : String
id_r1 = "r1"

abbrev hashes : List String
hashes = "h" ∷ []

abbrev disk : Disk
disk = ("a", payload) ∷ []

abbrev r2 : IndexRecord
r2 = record_named "r2"

apply_overrides_to_records_shows_example :
    apply_overrides_to_records payload records
    ≡ map (with_text payload) (keep (is_kept payload) records)
apply_overrides_to_records_shows_example = apply_overrides_to_records_shows payload records

abbrev edited_disk : Disk
edited_disk = write_index_overrides dir (with_edit now r2 content payload) disk

persist_index_edit_shows_example : shown (load_index_overrides dir edited_disk) r2 ≡ (
    if r2.id == r2.id
    then some (record r2 { content = content; manual_edit = true })
    else shown (load_index_overrides dir disk) r2)
unfolding lookup persist_index_edit
persist_index_edit_shows_example =
    persist_index_edit_shows dir now r2 r2 content disk edited_disk refl refl refl

move_overrides_for_sources-Carried_example :
    Carried dir other_dir hashes id_r1 disk (move_overrides_for_sources dir other_dir hashes disk).1
unfolding lookup
move_overrides_for_sources-Carried_example =
    move_overrides_for_sources-Carried dir other_dir hashes disk id_r1 refl refl refl refl
