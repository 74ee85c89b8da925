-- ===== src/Overrides.antt =====
-- src/index_overrides.py: the manual edits and deletions of index records, one file for each index
-- directory. `Disk` has the file of each directory as `load_index_overrides` reads it; a file that is
-- missing or broken reads as the empty payload. Every writer holds the module's lock.
pub mod Applying
pub mod Moving
mod Tests
use rag_pipeline_windows.Base.{
  ◌==◌, String, Bool, true, false, not, ◌||◌, Option, none, some, List, [], ◌∷◌, if◌then◌else◌,
  contains, get_or_else, length, ℕ,
}
use rag_pipeline_windows.Base.Dict.{Dict, lookup, insert, remove, has}
use rag_pipeline_windows.Base.Updates.{select, update_all}

-- A record of the index, as far as the overrides look at it.
pub record IndexRecord : Type 0 where
  pub id : String
  pub content : String
  pub source_hash : String
  pub doc_id : String
  pub file_path : String
  pub manual_edit : Bool

pub record Edit : Type 0 where
  pub record_id : String
  pub content : String
  pub source_hash : String
  pub doc_id : String
  pub file_path : String
  pub updated_at : String

pub record Deletion : Type 0 where
  pub record_id : String
  pub source_hash : String
  pub doc_id : String
  pub file_path : String
  pub updated_at : String

pub record Payload : Type 0 where
  pub edits : Dict Edit
  pub deletions : Dict Deletion

abbrev pub Disk : Type 0
Disk = Dict Payload

-- `_empty_payload`
abbrev pub empty_payload : Payload
empty_payload = record { edits = []; deletions = [] }

-- `load_index_overrides`
abbrev pub load_index_overrides : String → Disk → Payload
load_index_overrides dir disk = get_or_else (lookup dir disk) empty_payload

-- The payload that `write_index_overrides` writes: entries without an id are dropped.
abbrev pub normalized : Payload → Payload
normalized p = record {
  edits = select (λ id _. not (id == "")) p.edits;
  deletions = select (λ id _. not (id == "")) p.deletions;
}

-- `write_index_overrides`
unfoldable pub write_index_overrides : String → Payload → Disk → Disk
write_index_overrides dir p disk = insert dir (normalized p) disk

abbrev pub edit_of : String → IndexRecord → String → Edit
edit_of now r content = record {
  record_id = r.id;
  content = content;
  source_hash = r.source_hash;
  doc_id = r.doc_id;
  file_path = r.file_path;
  updated_at = now;
}

abbrev pub deletion_of : String → IndexRecord → Deletion
deletion_of now r = record {
  record_id = r.id;
  source_hash = r.source_hash;
  doc_id = r.doc_id;
  file_path = r.file_path;
  updated_at = now;
}

-- The change of the payload in `persist_index_edit`
unfoldable pub with_edit : String → IndexRecord → String → Payload → Payload
with_edit now r content p = record {
  edits = insert r.id (edit_of now r content) p.edits;
  deletions = remove r.id p.deletions;
}

-- `persist_index_edit`; `none` is the `ValueError` of an empty id
unfoldable pub persist_index_edit : String → String → IndexRecord → String → Disk → Option Disk
unfolding with_edit write_index_overrides
persist_index_edit dir now r content disk =
    if r.id == ""
    then none
    else some
        (write_index_overrides dir (with_edit now r content (load_index_overrides dir disk)) disk)

-- The loop of `persist_index_deletions`
unfoldable pub with_deletions : String → List IndexRecord → Payload → Payload
with_deletions now [] p = p
with_deletions now (r ∷ records) p = with_deletions now records (
    if r.id == "" then p else record {
      edits = remove r.id p.edits;
      deletions = insert r.id (deletion_of now r) p.deletions;
    })

-- `persist_index_deletions`
unfoldable pub persist_index_deletions : String → String → List IndexRecord → Disk → Disk
unfolding with_deletions write_index_overrides
persist_index_deletions dir now records disk =
    write_index_overrides dir (with_deletions now records (load_index_overrides dir disk)) disk

abbrev pub edited : Edit → IndexRecord → IndexRecord
edited e r = record r { content = e.content; manual_edit = true }

-- The loop of `apply_overrides_to_records`
unfoldable pub apply_each : Payload → List IndexRecord → List IndexRecord
apply_each p [] = []
apply_each p (r ∷ records) =
    let rest = apply_each p records in
    if has r.id p.deletions
    then rest
    else elim (lookup r.id p.edits) [ none ↦ r ∷ rest | some e ↦ edited e r ∷ rest ]

abbrev pub is_empty {ℓ} : {V : Type ℓ} → Dict V → Bool
is_empty [] = true
is_empty (_ ∷ _) = false

-- `apply_overrides_to_records`
unfoldable pub apply_overrides_to_records : Payload → List IndexRecord → List IndexRecord
unfolding apply_each
apply_overrides_to_records p records =
    if (if is_empty p.edits then is_empty p.deletions else false)
    then records
    else apply_each p records

-- `clear_overrides_for_sources`; `hashes` has no empty text
unfoldable pub clear_overrides_for_sources : String → List String → Disk → Disk
unfolding write_index_overrides
clear_overrides_for_sources dir [] disk = disk
clear_overrides_for_sources dir (h ∷ hs) disk =
    let p = load_index_overrides dir disk in
    write_index_overrides dir
      (record {
        edits = select (λ _ e. not (contains e.source_hash (h ∷ hs))) p.edits;
        deletions = select (λ _ d. not (contains d.source_hash (h ∷ hs))) p.deletions;
      })
      disk

-- The entries that `move_overrides_for_sources` takes along.
abbrev pub moved_edits : List String → Payload → Dict Edit
moved_edits hashes p = select (λ _ e. contains e.source_hash hashes) p.edits

abbrev pub moved_deletions : List String → Payload → Dict Deletion
moved_deletions hashes p = select (λ _ d. contains d.source_hash hashes) p.deletions

-- The target's payload with what is moved, and the source's without it.
abbrev pub received : List String → Payload → Payload → Payload
received hashes p t = record {
  edits = update_all (moved_edits hashes p) t.edits;
  deletions = update_all (moved_deletions hashes p) t.deletions;
}

abbrev pub left_behind : List String → Payload → Payload
left_behind hashes p = record {
  edits = select (λ id _. not (has id (moved_edits hashes p))) p.edits;
  deletions = select (λ id _. not (has id (moved_deletions hashes p))) p.deletions;
}

unfoldable pub move_entries : String → String → List String → Disk → (ℕ × ℕ) × Disk
unfolding write_index_overrides
move_entries source target hashes disk =
    let p = load_index_overrides source disk in
    let t = load_index_overrides target disk in
    (
      (length (moved_edits hashes p), length (moved_deletions hashes p)),
      write_index_overrides source (left_behind hashes p)
          (write_index_overrides target (received hashes p t) disk),
    )

-- `move_overrides_for_sources`; `hashes` has no empty text
unfoldable pub move_overrides_for_sources : String → String → List String → Disk → (ℕ × ℕ) × Disk
unfolding move_entries
move_overrides_for_sources source target hashes disk =
    let p = load_index_overrides source disk in
    if (if is_empty (moved_edits hashes p) then is_empty (moved_deletions hashes p) else false)
    then ((0, 0), disk)
    else move_entries source target hashes disk

-- `copy_index_overrides`
unfoldable pub copy_index_overrides : String → String → Disk → Disk
copy_index_overrides source target disk = elim (lookup source disk) [
  | none ↦ disk
  | some p ↦ insert target p disk
]
