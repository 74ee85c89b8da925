-- ===== src/Manifest/Sources.antt =====
-- One source of the manifest at a time.
use rag_pipeline_windows.Base.{
  ℕ, zero, suc, ◌+◌, min, max, ◌==◌, String, Bool, true, false, Option, none, some, List, [], ◌∷◌,
  if◌then◌else◌, get_or_else, ◌≡◌, refl, ap, sym, ◌∙◌, inl, inr, arith, eq_iff, Bool-cases,
}
use rag_pipeline_windows.Base.Dict.{Dict, lookup, insert, remove, lookup-insert, lookup-remove}
use rag_pipeline_windows.Manifest.{
  IndexRecord, Document, IndexManifest, NodeType, chunk, summary, other, source_key, new_document,
  empty_manifest, count_record, first_page, last_page, count_records, merge_records, replace_source,
}

-- The sum of `f` over the records with the key.
unfoldable pub total : (IndexRecord → ℕ) → String → List IndexRecord → ℕ
total f key [] = 0
total f key (r ∷ records) =
    let rest = total f key records in if source_key r == key then f r + rest else rest

-- The least of two page numbers, of which 0 stands for no page.
abbrev pub least : ℕ → ℕ → ℕ
least zero q = q
least (suc p) zero = suc p
least (suc p) (suc q) = min (suc p) (suc q)

-- The first page of the records with the key, and the last one.
unfoldable pub least_page : String → List IndexRecord → ℕ
least_page key [] = 0
least_page key (r ∷ records) =
    let rest = least_page key records in
    if source_key r == key then least r.page_start rest else rest

unfoldable pub greatest_page : String → List IndexRecord → ℕ
greatest_page key [] = 0
greatest_page key (r ∷ records) =
    let rest = greatest_page key records in
    if source_key r == key then max r.page_end rest else rest

abbrev pub is_chunk_type : NodeType → Bool
is_chunk_type chunk = true
is_chunk_type summary = false
is_chunk_type other = false

abbrev pub is_summary_type : NodeType → Bool
is_summary_type chunk = false
is_summary_type summary = true
is_summary_type other = false

-- The first record with the key.
unfoldable pub first_record : String → List IndexRecord → Option IndexRecord
first_record key [] = none
first_record key (r ∷ records) =
    let rest = first_record key records in if source_key r == key then some r else rest

-- A document after the records with the key, added to what it counts.
abbrev added : String → List IndexRecord → Document → Document
added key records d = record d {
  record_count = d.record_count + total (λ _. 1) key records;
  chunk_count = d.chunk_count + total (λ r. if is_chunk_type r.node_type then 1 else 0) key records;
  summary_count =
      d.summary_count + total (λ r. if is_summary_type r.node_type then 1 else 0) key records;
  content_char_count = d.content_char_count + total (λ r. r.content_length) key records;
  page_start = least d.page_start (least_page key records);
  page_end = max d.page_end (greatest_page key records);
  embedded_count = d.embedded_count + total (λ r. if r.vector_reused then 0 else 1) key records;
  reused_count = d.reused_count + total (λ r. if r.vector_reused then 1 else 0) key records;
}

least_first : (p q r : ℕ) → least (first_page p q) r ≡ least p (least q r)
least_first zero zero r = refl
least_first zero (suc q) r = refl
least_first (suc p) zero zero = refl
least_first (suc p) zero (suc r) = refl
least_first (suc p) (suc q) zero = ground arith
least_first (suc p) (suc q) (suc r) = ground arith

greatest_last : (p q r : ℕ) → max (last_page p q) r ≡ max p (max q r)
greatest_last p zero r = ground arith
greatest_last p (suc q) r = ground arith

added_hit :
    (key : String) (r : IndexRecord) (records : List IndexRecord) (d : Document)
    → (source_key r == key) ≡ true
    → added key records (count_record r d) ≡ added key (r ∷ records) d
unfolding total least_page greatest_page count_record
added_hit key r records d h = ground (
  arith,
  h,
  least_first d.page_start r.page_start (least_page key records),
  greatest_last d.page_end r.page_end (greatest_page key records),
)

added_miss :
    (key : String) (r : IndexRecord) (records : List IndexRecord) (d : Document)
    → (source_key r == key) ≡ false
    → added key records d ≡ added key (r ∷ records) d
unfolding total least_page greatest_page
added_miss key r records d h = ground (arith, h)

abbrev entry_from : String → List IndexRecord → Option IndexRecord → Option Document
entry_from key records none = none
entry_from key records (some r) = some (added key records (new_document r))

-- The entry of a source after some records are counted.
abbrev entry_after : String → List IndexRecord → Option Document → Option Document
entry_after key records (some d) = some (added key records d)
entry_after key records none = entry_from key records (first_record key records)

added_none : (key : String) (d : Document) → added key [] d ≡ d
unfolding total least_page greatest_page
added_none key d = ground (arith, least_zero d.page_start)
  where
    least_zero : (p : ℕ) → least p 0 ≡ p
    least_zero zero = refl
    least_zero (suc p) = refl

entry_hit :
    (key : String) (r : IndexRecord) (records : List IndexRecord) (o : Option Document)
    → (source_key r == key) ≡ true
    → entry_after key records (some (count_record r (get_or_else o (new_document r))))
      ≡ entry_after key (r ∷ records) o
unfolding first_record
entry_hit key r records none h =
    ap (λ (d : Document). some d) (added_hit key r records (new_document r) h)
    ∙ ap (entry_from key (r ∷ records)) first
  where
    first : some r ≡ first_record key (r ∷ records)
    first = ground (arith, h)
entry_hit key r records (some d) h = ap (λ (d : Document). some d) (added_hit key r records d h)

entry_miss :
    (key : String) (r : IndexRecord) (records : List IndexRecord) (o : Option Document)
    → (source_key r == key) ≡ false
    → entry_after key records o ≡ entry_after key (r ∷ records) o
unfolding first_record
entry_miss key r records (some d) h = ap (λ (d : Document). some d) (added_miss key r records d h)
entry_miss key r records none h =
    each (first_record key records) ∙ ap (entry_from key (r ∷ records)) later
  where
    each : (o : Option IndexRecord) → entry_from key records o ≡ entry_from key (r ∷ records) o
    each none = refl
    each (some q) = ap (λ (d : Document). some d) (added_miss key r records (new_document q) h)

    later : first_record key records ≡ first_record key (r ∷ records)
    later = ground (arith, h)

counted_lem :
    (key : String) (records : List IndexRecord) (m : IndexManifest)
    → lookup key (count_records records m).documents
      ≡ entry_after key records (lookup key m.documents)
unfolding count_records
counted_lem key [] m = untouched (lookup key m.documents)
  where
    untouched : (o : Option Document) → o ≡ entry_after key [] o
    untouched none = unfold first_record in refl
    untouched (some d) = ap (λ (d : Document). some d) (sym (added_none key d))
counted_lem key (r ∷ records) m =
    counted_lem key records _
    ∙ ap (entry_after key records) (
        lookup-insert (source_key r) key
          (count_record r (get_or_else (lookup (source_key r) m.documents) (new_document r)))
          m.documents)
    ∙ one (source_key r) refl
  where
    one :
        (k : String)
        → k ≡ source_key r
        → entry_after key records (
            if k == key
            then some (count_record r (get_or_else (lookup k m.documents) (new_document r)))
            else lookup key m.documents)
          ≡ entry_after key (r ∷ records) (lookup key m.documents)
    one k s = elim (Bool-cases (k == key)) [
      | inr t ↦ rw t (entry_miss key r records (lookup key m.documents) (rw (← s) t))
      | inl t ↦ rw t (
          ap
            (λ i.
              entry_after key records
                (some (count_record r (get_or_else (lookup i m.documents) (new_document r)))))
            ((eq_iff k key).0 t)
          ∙ entry_hit key r records (lookup key m.documents) (rw (← s) t))
    ]

-- The entry that the records of a source call for: the texts of the first one, the sums over all of them, and
-- the first and the last of their pages. There is none without records.
abbrev pub summarised : String → List IndexRecord → Option IndexRecord → Option Document
summarised key records none = none
summarised key records (some r) = some (record {
  source_hash = r.source_hash;
  source_pdf_name = r.source_pdf_name;
  source_pdf_path = r.source_pdf_path;
  file_path = r.file_path;
  record_count = total (λ _. 1) key records;
  chunk_count = total (λ r. if is_chunk_type r.node_type then 1 else 0) key records;
  summary_count = total (λ r. if is_summary_type r.node_type then 1 else 0) key records;
  content_char_count = total (λ r. r.content_length) key records;
  page_start = least_page key records;
  page_end = greatest_page key records;
  embedded_count = total (λ r. if r.vector_reused then 0 else 1) key records;
  reused_count = total (λ r. if r.vector_reused then 1 else 0) key records;
})

summarised_lem :
    (key : String) (records : List IndexRecord) (o : Option IndexRecord)
    → entry_from key records o ≡ summarised key records o
summarised_lem key records none = refl
summarised_lem key records (some r) = ground arith

put_lem :
    (key foreign : String) (o : Option Document) (m : Dict Document)
    → lookup foreign (elim o [ none ↦ remove key m | some d ↦ insert key d (remove key m) ])
      ≡ (if key == foreign then o else lookup foreign m)
put_lem key foreign none m = ground (arith, lookup-remove key foreign m)
put_lem key foreign (some d) m =
    ground (arith, lookup-insert key foreign d (remove key m), lookup-remove key foreign m)

replaced_lem :
    (key foreign : String) (records : List IndexRecord) (m : IndexManifest)
    → lookup foreign (replace_source key records m).documents ≡ (
        if key == foreign
        then summarised key records (first_record key records)
        else lookup foreign m.documents)
unfolding replace_source merge_records first_record lookup
replaced_lem key foreign [] m = ground (arith, lookup-remove key foreign m.documents)
replaced_lem key foreign (r ∷ records) m =
    let mini = count_records (r ∷ records) (empty_manifest m.sidecars) in
    put_lem key foreign (lookup key mini.documents) m.documents
    ∙ ap (λ c. if key == foreign then c else lookup foreign m.documents)
        (counted_lem key (r ∷ records) (empty_manifest m.sidecars)
          ∙ summarised_lem key (r ∷ records) (first_record key (r ∷ records)))

-- After `replace_source` the entry of every other source is what it was, with all its fields. The source itself
-- has no entry when none of the given records belongs to it, and otherwise an entry with the texts of the first
-- record that does: its counts of records, chunks, summaries, characters, embedded and reused
-- vectors are the sums over the records that belong to it, and its pages the first and the last one of those
-- that they name.
pub replace_source_counts :
    (key foreign : String) (records : List IndexRecord) (m : IndexManifest)
    → (key == foreign) ≡ false
    → (lookup key (replace_source key records m).documents
        ≡ summarised key records (first_record key records))
      × (lookup foreign (replace_source key records m).documents ≡ lookup foreign m.documents)
replace_source_counts key foreign records m n =
    (replaced_lem key key records m ∙ same, replaced_lem key foreign records m ∙ rw n refl)
  where
    same :
        (if key == key
          then summarised key records (first_record key records)
          else lookup key m.documents)
        ≡ summarised key records (first_record key records)
    same = ground (arith, eq_iff key key)
