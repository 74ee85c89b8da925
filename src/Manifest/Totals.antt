-- ===== src/Manifest/Totals.antt =====
-- The totals of the manifest are the sums over its documents.
use rag_pipeline_windows.Base.{
  ℕ, ◌+◌, ◌-◌, ◌≤◌, ◌<◌, ◌==◌, nat_eq, String, Bool, true, false, List, [], ◌∷◌, if◌then◌else◌,
  get_or_else, ltb, ◌||◌, ◌≡◌, refl, inl, inr, arith, Bool-cases,
}
use rag_pipeline_windows.Base.Dict.{Dict, lookup, insert}
use rag_pipeline_windows.Manifest.{
  IndexRecord, Document, IndexManifest, source_key, new_document, count_record, count_records,
  merge_records, embedded_or_count, sum_documents, recompute_totals, if_embedded, if_reused,
}

-- A write changes the sum by the new value over the old one.
sum-insert :
    (f : Document → ℕ) (key : String) (d e : Document) (documents : Dict Document)
    → f (get_or_else (lookup key documents) e) ≤ f d
    → f e ≡ 0
    → sum_documents f (insert key d documents)
      ≡ sum_documents f documents + (f d - f (get_or_else (lookup key documents) e))
unfolding sum_documents insert lookup
sum-insert f key d e [] h z = ground (arith, h, z)
sum-insert f key d e ((k, c) ∷ documents) h z = elim (Bool-cases (k == key)) [
  | inl t ↦ rw t (omega (arith, held t))
  | inr t ↦ rw t (omega (arith, sum-insert f key d e documents (other t) z))
]
  where
    held : (k == key) ≡ true → f c ≤ f d
    held t = ground (arith, t, h)

    other : (k == key) ≡ false → f (get_or_else (lookup key documents) e) ≤ f d
    other t = ground (arith, t, h)

-- The running totals agree with the entries.
pub record Balanced (m : IndexManifest) : Type 0 where
  pub total : m.total_records ≡ sum_documents (λ d. d.record_count) m.documents
  pub embedded : m.embedded_records ≡ sum_documents (λ d. d.embedded_count) m.documents
  pub reused : m.reused_records ≡ sum_documents (λ d. d.reused_count) m.documents

count_one-Balanced :
    (r : IndexRecord) (m : IndexManifest)
    → Balanced m
    → Balanced (record m {
      documents =
          insert
            (source_key r)
            (count_record r (get_or_else (lookup (source_key r) m.documents) (new_document r)))
            m.documents;
      total_records = m.total_records + 1;
      embedded_records = m.embedded_records + if_embedded r.vector_reused;
      reused_records = m.reused_records + if_reused r.vector_reused;
    })
unfolding count_record
count_one-Balanced r m b =
    let d = get_or_else (lookup (source_key r) m.documents) (new_document r) in
    record {
      total = omega (
        arith,
        b.total,
        sum-insert (λ d. d.record_count) (source_key r) (count_record r d) (new_document r)
            m.documents (omega arith) refl,
      );
      embedded = omega (
        arith,
        b.embedded,
        sum-insert (λ d. d.embedded_count) (source_key r) (count_record r d) (new_document r)
            m.documents (omega arith) refl,
      );
      reused = omega (
        arith,
        b.reused,
        sum-insert (λ d. d.reused_count) (source_key r) (count_record r d) (new_document r)
            m.documents (omega arith) refl,
      );
    }

count_records-Balanced :
    (records : List IndexRecord) (m : IndexManifest)
    → Balanced m
    → Balanced (count_records records m)
unfolding count_records
count_records-Balanced [] m b = b
count_records-Balanced (r ∷ records) m b =
    count_records-Balanced records _ (count_one-Balanced r m b)

-- `merge_records` keeps the totals in step with the entries: if each running total is the sum over the documents,
-- then so it is after any further records, whatever documents they belong to.
pub merge_records-Balanced :
    (records : List IndexRecord) (m : IndexManifest)
    → Balanced m
    → Balanced (merge_records records m)
unfolding merge_records
merge_records-Balanced records m b =
    let c = count_records-Balanced records m b in
    record { total = c.total; embedded = c.embedded; reused = c.reused }

-- A document with records, all of whose vectors were reused.
abbrev pub is_fully_reused : Document → Bool
is_fully_reused d = if nat_eq d.embedded_count 0 then ltb 0 d.record_count else false

unfoldable pub any_fully_reused : Dict Document → Bool
any_fully_reused [] = false
any_fully_reused ((key, d) ∷ documents) = is_fully_reused d || any_fully_reused documents

recounted_lem :
    (documents : Dict Document)
    → sum_documents (λ d. d.embedded_count) documents ≤ sum_documents embedded_or_count documents
unfolding sum_documents
recounted_lem [] = omega arith
recounted_lem ((key, d) ∷ documents) = ground (arith, recounted_lem documents)

exact_lem :
    (documents : Dict Document)
    → any_fully_reused documents ≡ false
    → sum_documents embedded_or_count documents ≡ sum_documents (λ d. d.embedded_count) documents
unfolding sum_documents any_fully_reused
exact_lem [] h = refl
exact_lem ((key, d) ∷ documents) h = ground (arith, exact_lem documents, h)

over_lem :
    (documents : Dict Document)
    → any_fully_reused documents ≡ true
    → sum_documents (λ d. d.embedded_count) documents < sum_documents embedded_or_count documents
unfolding sum_documents any_fully_reused
over_lem [] h = ground (arith, h)
over_lem ((key, d) ∷ documents) h = ground (arith, over_lem documents, h, recounted_lem documents)

-- `recompute_totals` leaves a manifest whose totals agree with its entries as it is, when no document has
-- all its vectors reused.
pub recompute_totals_agrees :
    (m : IndexManifest)
    → Balanced m
    → any_fully_reused m.documents ≡ false
    → ((recompute_totals m).total_records ≡ m.total_records)
      × ((recompute_totals m).embedded_records ≡ m.embedded_records)
      × ((recompute_totals m).reused_records ≡ m.reused_records)
unfolding recompute_totals
recompute_totals_agrees m b h = (
  omega (arith, b.total),
  omega (arith, b.embedded, exact_lem m.documents h),
  omega (arith, b.reused),
)

-- `recompute_totals` counts too many embedded records, when the totals agree with the entries and some document
-- has all its vectors reused: its embedded count of 0 is taken for missing, and all its records are
-- counted as embedded.
pub recompute_totals_overcounts :
    (m : IndexManifest)
    → Balanced m
    → any_fully_reused m.documents ≡ true
    → m.embedded_records < (recompute_totals m).embedded_records
unfolding recompute_totals
recompute_totals_overcounts m b h = omega (arith, b.embedded, over_lem m.documents h)
