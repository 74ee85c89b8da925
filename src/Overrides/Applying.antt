-- ===== src/Overrides/Applying.antt =====
-- What the index shows under the overrides.
use rag_pipeline_windows.Base.{
  map, keep, ◌==◌, String, Bool, true, false, not, Option, none, some, List, [], ◌∷◌, if◌then◌else◌,
  contains, distinct, ◌||◌, ◌≡◌, refl, ap, sym, ◌∙◌, inl, inr, arith, eq_iff, Bool-cases,
  Option-cases,
}
use rag_pipeline_windows.Base.Dict.{
  Dict, lookup, insert, remove, has, keys, has-lookup, has-remove, lookup-insert, lookup-remove,
  distinct-insert, distinct-remove,
}
use rag_pipeline_windows.Base.Updates.{select, lookup-select}
use rag_pipeline_windows.Overrides.{
  IndexRecord, Payload, Disk, load_index_overrides, write_index_overrides, with_edit,
  persist_index_edit, with_deletions, persist_index_deletions, edit_of, deletion_of, apply_each,
  apply_overrides_to_records, is_empty,
}

-- The overrides have no deletion of the record.
abbrev pub is_kept : Payload → IndexRecord → Bool
is_kept p r = not (has r.id p.deletions)

-- The record with the text of its edit, if it has one.
abbrev pub with_text : Payload → IndexRecord → IndexRecord
with_text p r = elim (lookup r.id p.edits) [
  | none ↦ r
  | some e ↦ record r { content = e.content; manual_edit = true }
]

-- What becomes of one record under the overrides.
unfoldable pub shown : Payload → IndexRecord → Option IndexRecord
shown p r = if is_kept p r then some (with_text p r) else none

-- A payload without edits and deletions leaves the records as they are.
shows_all :
    (p : Payload) (records : List IndexRecord)
    → p.edits ≡ []
    → p.deletions ≡ []
    → map (with_text p) (keep (is_kept p) records) ≡ records
unfolding lookup
shows_all p [] e d = refl
shows_all p (r ∷ records) e d =
    ground (arith, shows_all p records e d, ap (lookup r.id) e, ap (has r.id) d)

apply_each_lem :
    (p : Payload) (records : List IndexRecord)
    → apply_each p records ≡ map (with_text p) (keep (is_kept p) records)
unfolding apply_each
apply_each_lem p [] = refl
apply_each_lem p (r ∷ records) =
    ground (arith, apply_each_lem p records, Option-cases (lookup r.id p.edits))

empty_lem : {V : Type 0} (d : Dict V) → is_empty d ≡ true → d ≡ []
empty_lem [] h = refl
empty_lem (e ∷ d) h = ground (arith, h)

-- `apply_overrides_to_records`, with its short cut for no overrides, leaves out the records with a deletion, and
-- keeps the others in order: one with an edit has the edit's text as its content and the flag of a manual
-- edit set, and any other is as it was.
pub apply_overrides_to_records_shows :
    (p : Payload) (records : List IndexRecord)
    → apply_overrides_to_records p records ≡ map (with_text p) (keep (is_kept p) records)
unfolding apply_overrides_to_records
apply_overrides_to_records_shows p records =
    elim (Bool-cases (if is_empty p.edits then is_empty p.deletions else false)) [
      | inl t ↦ rw t (
          sym (
            shows_all p records (empty_lem p.edits (ground (arith, t)))
              (empty_lem p.deletions (ground (arith, t)))))
      | inr t ↦ rw t (apply_each_lem p records)
    ]

-- No id stands twice in a payload: it is read from a JSON object.
abbrev pub unique : Payload → Bool
unique p = if distinct (keys p.edits) then distinct (keys p.deletions) else false

written_lem :
    (dir : String) (p : Payload) (disk : Disk) (q : IndexRecord)
    → unique p ≡ true
    → (q.id == "") ≡ false
    → shown (load_index_overrides dir (write_index_overrides dir p disk)) q ≡ shown p q
unfolding shown write_index_overrides
written_lem dir p disk q u n =
    let written : Payload = record {
      edits = select (λ id _. not (id == "")) p.edits;
      deletions = select (λ id _. not (id == "")) p.deletions;
    } in
    let same : load_index_overrides dir (insert dir written disk) ≡ written =
      ground (arith, lookup-insert dir dir written disk, eq_iff dir dir) in
    ap (λ (r : Payload). shown r q) same
    ∙ ground (
      arith,
      u,
      n,
      lookup-select q.id (λ id _. not (id == "")) p.edits,
      lookup-select q.id (λ id _. not (id == "")) p.deletions,
      has-lookup q.id p.deletions,
      has-lookup q.id (select (λ id _. not (id == "")) p.deletions),
      Option-cases (lookup q.id p.edits),
      Option-cases (lookup q.id p.deletions),
    )

unique-with_edit :
    (now : String) (r : IndexRecord) (content : String) (p : Payload)
    → unique p ≡ true
    → unique (with_edit now r content p) ≡ true
unfolding with_edit
unique-with_edit now r content p u = ground (
  arith,
  u,
  distinct-insert r.id (edit_of now r content) p.edits,
  distinct-remove r.id p.deletions,
)

shown-with_edit :
    (now : String) (r q : IndexRecord) (content : String) (p : Payload)
    → shown (with_edit now r content p) q ≡ (
        if r.id == q.id
        then some (record q { content = content; manual_edit = true })
        else shown p q)
unfolding shown with_edit
shown-with_edit now r q content p = ground (
  arith,
  lookup-insert r.id q.id (edit_of now r content) p.edits,
  has-remove r.id q.id p.deletions,
)

-- After `persist_index_edit` the record with that id shows the text of the edit, even if it was deleted before,
-- and every other record shows as before. No id stands twice in the payload, and the record looked at has an id.
pub persist_index_edit_shows :
    (dir now : String) (r q : IndexRecord) (content : String) (disk after : Disk)
    → unique (load_index_overrides dir disk) ≡ true
    → (q.id == "") ≡ false
    → persist_index_edit dir now r content disk ≡ some after
    → shown (load_index_overrides dir after) q ≡ (
        if r.id == q.id
        then some (record q { content = content; manual_edit = true })
        else shown (load_index_overrides dir disk) q)
unfolding persist_index_edit
persist_index_edit_shows dir now r q content disk after u n e =
    let p = load_index_overrides dir disk in
    ap (λ (d : Disk). shown (load_index_overrides dir d) q) (sym (the_write e))
    ∙ written_lem dir (with_edit now r content p) disk q (unique-with_edit now r content p u) n
    ∙ shown-with_edit now r q content p
  where
    the_write :
        (if r.id == ""
            then none
            else some (
                write_index_overrides dir
                  (with_edit now r content (load_index_overrides dir disk))
                  disk))
          ≡ some after
        → write_index_overrides dir (with_edit now r content (load_index_overrides dir disk)) disk
          ≡ after
    the_write h = ground (arith, h)

abbrev pub ids_of : List IndexRecord → List String
ids_of [] = []
ids_of (r ∷ records) = r.id ∷ ids_of records

unique-with_deletions :
    (now : String) (records : List IndexRecord) (p : Payload)
    → unique p ≡ true
    → unique (with_deletions now records p) ≡ true
unfolding with_deletions
unique-with_deletions now [] p u = u
unique-with_deletions now (r ∷ records) p u = unique-with_deletions now records _ (
    ground (
      arith,
      u,
      distinct-remove r.id p.edits,
      distinct-insert r.id (deletion_of now r) p.deletions,
    ))

shown-with_deletions :
    (now : String) (records : List IndexRecord) (q : IndexRecord) (p : Payload)
    → (q.id == "") ≡ false
    → shown (with_deletions now records p) q
      ≡ (if contains q.id (ids_of records) then none else shown p q)
unfolding with_deletions
shown-with_deletions now [] q p n = refl
shown-with_deletions now (r ∷ records) q p n =
    shown-with_deletions now records q _ n ∙ first (contains q.id (ids_of records))
  where
    first :
        (b : Bool)
        → (if b
            then none
            else shown
                (if r.id == "" then p else record {
                  edits = remove r.id p.edits;
                  deletions = insert r.id (deletion_of now r) p.deletions;
                })
                q)
          ≡ (if r.id == q.id || b then none else shown p q)
    first true = ground arith
    first false =
        unfold shown in
        ground (
          arith,
          n,
          eq_iff r.id q.id,
          eq_iff r.id "",
          lookup-remove r.id q.id p.edits,
          has-lookup q.id (insert r.id (deletion_of now r) p.deletions),
          has-lookup q.id p.deletions,
          lookup-insert r.id q.id (deletion_of now r) p.deletions,
        )

-- After `persist_index_deletions` the records with the given ids are hidden, edited or not, and every other
-- record shows as before. No id stands twice in the payload, and the record looked at has an id.
pub persist_index_deletions_hides :
    (dir now : String) (records : List IndexRecord) (q : IndexRecord) (disk : Disk)
    → unique (load_index_overrides dir disk) ≡ true
    → (q.id == "") ≡ false
    → shown (load_index_overrides dir (persist_index_deletions dir now records disk)) q
      ≡ (if contains q.id (ids_of records) then none else shown (load_index_overrides dir disk) q)
unfolding persist_index_deletions
persist_index_deletions_hides dir now records q disk u n =
    let p = load_index_overrides dir disk in
    written_lem dir (with_deletions now records p) disk q (unique-with_deletions now records p u) n
    ∙ shown-with_deletions now records q p n
