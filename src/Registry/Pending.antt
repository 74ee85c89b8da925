-- ===== src/Registry/Pending.antt =====
-- A forced upload under way: what `register_queued` and the later calls of `mark_job_status` keep.
use rag_pipeline_windows.Base.{
  ◌==◌, String, Bool, true, false, not, Option, none, some, List, [], ◌∷◌, if◌then◌else◌, contains,
  distinct, ◌≡◌, refl, ap, ◌∙◌, ◌⊎◌, inl, inr, arith, eq_iff, Bool-cases,
}
use rag_pipeline_windows.Base.Dict.{Dict, lookup, insert, lookup-insert}
use rag_pipeline_windows.Jobs.{Json}
use rag_pipeline_windows.Registry.{
  Entry, UploadItem, register_queued, mark_items, mark_entry, advance_entry, queued_body, chain_of,
  is_ingested, superseded, supersede_one, supersede_all, active_by_path, mark_job_status,
}
use rag_pipeline_windows.Registry.Superseding.{lookup-supersede_all, map_entry}

abbrev pub hashes : List UploadItem → List String
hashes [] = []
hashes (item ∷ files) = item.hash ∷ hashes files

-- One call of `mark_job_status`.
pub record Call : Type 0 where
  pub job_id : String
  pub status : String
  pub error : String
  pub now : String
  pub files : List UploadItem

unfoldable pub run_calls : List Call → Dict Entry → Dict Entry
run_calls [] m = m
run_calls (c ∷ calls) m =
    run_calls calls (mark_job_status c.job_id c.status c.error c.now c.files m)

-- A status of an upload that is under way.
abbrev pub is_progress : String → Bool
is_progress status =
    if status == "interrupted"
    then false
    else if status == "failed"
    then false
    else not (is_ingested status)

-- The calls of the job itself tell of its progress; those of other jobs are any.
abbrev pub under_way : String → List Call → Bool
under_way job_id [] = true
under_way job_id (c ∷ calls) =
    if (if c.job_id == job_id then is_progress c.status else true)
    then under_way job_id calls
    else false

-- The job's entry for the hash is not ingested, and keeps the one that it replaced.
unfoldable pub Pending : String → String → Entry → Dict Entry → Type 0
Pending job_id h old m =
    (e : Entry) × (lookup h m ≡ some e)
    × (e.body.job_id ≡ job_id)
    × (is_ingested e.body.status ≡ false)
    × (e.older ≡ old.body ∷ old.older)

register_foreign :
    (job_id now h : String) (forced : List String) (options : Dict Json) (files : List UploadItem)
    (documents : Dict Entry)
    → contains h (hashes files) ≡ false
    → lookup h (register_queued job_id forced options now files documents) ≡ lookup h documents
unfolding register_queued
register_foreign job_id now h forced options [] documents n = refl
register_foreign job_id now h forced options (item ∷ files) documents n =
    register_foreign job_id now h forced options files _ (ground (arith, n))
    ∙ lookup-insert item.hash h _ documents
    ∙ ground (arith, n)

pub register-Pending :
    (job_id now h : String) (forced : List String) (options : Dict Json) (files : List UploadItem)
    (documents : Dict Entry) (old : Entry)
    → lookup h documents ≡ some old
    → contains h forced ≡ true
    → contains h (hashes files) ≡ true
    → distinct (hashes files) ≡ true
    → Pending job_id h old (register_queued job_id forced options now files documents)
unfolding register_queued Pending
register-Pending job_id now h forced options [] documents old l f i d = ground (arith, i)
register-Pending job_id now h forced options (item ∷ files) documents old l f i d =
    let put : Entry = record {
      body = queued_body job_id options now item;
      older = if contains item.hash forced then chain_of (lookup item.hash documents) else [];
    } in
    elim (Bool-cases (item.hash == h)) [
      | inr n ↦
          register-Pending job_id now h forced options files (insert item.hash put documents) old
            (lookup-insert item.hash h put documents ∙ rw n l) f (ground (arith, n, i))
            (ground (arith, d))
      | inl n ↦ (
        put,
        register_foreign job_id now h forced options files (insert item.hash put documents)
              (ground (arith, n, d, eq_iff item.hash h))
            ∙ lookup-insert item.hash h put documents
            ∙ rw n refl,
        refl,
        refl,
        ground (arith, n, l, f, eq_iff item.hash h),
      )
    ]

advance_lem :
    (status error now : String) (item : UploadItem) (e : Entry)
    → is_ingested status ≡ false
    → ((advance_entry status error now item e).body.job_id ≡ e.body.job_id)
      × ((advance_entry status error now item e).body.status ≡ status)
      × ((advance_entry status error now item e).older ≡ e.older)
unfolding advance_entry
advance_lem status error now item e i = elim (Bool-cases (error == "")) [
  | inl t ↦ rw (t, i) (refl, refl, refl)
  | inr t ↦ rw (t, i) (refl, refl, refl)
]

progress_lem :
    (job_id status error now : String) (item : UploadItem) (e : Entry)
    → is_progress status ≡ true
    → mark_entry job_id status error now item e ≡ advance_entry status error now item e
unfolding mark_entry
progress_lem job_id status error now item e p = elim (Bool-cases (status == "interrupted")) [
  | inl t ↦ ground (arith, t, p)
  | inr t ↦ elim (Bool-cases (status == "failed")) [
    | inl f ↦ ground (arith, t, f, p)
    | inr f ↦ rw (t, f) refl
  ]
]

-- The entries after one item, for the entry that is found under its hash.
abbrev pub marked :
    String → String → String → String → UploadItem → Dict Entry → Option Entry → Dict Entry
marked job status error now item m found = elim found [
  | none ↦ m
  | some e ↦
      if e.body.job_id == job
      then insert item.hash (mark_entry job status error now item e) m
      else m
]

-- One item of a call while the job is under way.
mark-Pending :
    (job_id status error now h job : String) (item : UploadItem) (old : Entry) (m : Dict Entry)
    (found : Option Entry)
    → (if job == job_id then is_progress status else true) ≡ true
    → lookup item.hash m ≡ found
    → Pending job_id h old m
    → Pending job_id h old (marked job status error now item m found)
unfolding Pending
mark-Pending job_id status error now h job item old m none p n before = before
mark-Pending job_id status error now h job item old m (some q) p n before =
    elim (Bool-cases (q.body.job_id == job)) [
      | inr foreign ↦ rw (marked, foreign) before
      | inl own ↦ rw (marked, own) (put own before)
    ]
  where
    put :
        (q.body.job_id == job) ≡ true
        → Pending job_id h old m
        → Pending job_id h old (insert item.hash (mark_entry job status error now item q) m)
    put own (e, l, j, s, o) = elim (Bool-cases (item.hash == h)) [
      | inr away ↦ (
        e,
        lookup-insert item.hash h (mark_entry job status error now item q) m ∙ rw away l,
        j,
        s,
        o,
      )
      | inl here ↦
          (let same : q ≡ e = ground (arith, n, l, here, eq_iff item.hash h) in
            let progress : is_progress status ≡ true = ground (
              arith,
              p,
              j,
              own,
              ap (λ (x : Entry). x.body.job_id) same,
              eq_iff q.body.job_id job,
              eq_iff job job_id,
            ) in
            let fresh : is_ingested status ≡ false = ground (arith, progress) in
            let (a, b, c) = advance_lem status error now item q fresh in
            let r = progress_lem job status error now item q progress in
            (
              advance_entry status error now item q,
              lookup-insert item.hash h (mark_entry job status error now item q) m
                  ∙ rw (here, r) refl,
              a ∙ ap (λ (x : Entry). x.body.job_id) same ∙ j,
              ap is_ingested b ∙ fresh,
              c ∙ ap (λ (x : Entry). x.older) same ∙ o,
            ))
    ]

mark_items-Pending :
    (job_id status error now h job : String) (files : List UploadItem) (old : Entry)
    (m : Dict Entry)
    → (if job == job_id then is_progress status else true) ≡ true
    → Pending job_id h old m
    → Pending job_id h old (mark_items job status error now files m)
unfolding mark_items
mark_items-Pending job_id status error now h job [] old m p e = e
mark_items-Pending job_id status error now h job (item ∷ files) old m p e =
    mark_items-Pending job_id status error now h job files old
      (marked job status error now item m (lookup item.hash m)) p
      (mark-Pending job_id status error now h job item old m (lookup item.hash m) p refl e)

-- The second loop over the paths.
pub supersede_lem :
    (now h : String) (active : Dict String) (e : Entry)
    → (supersede_one now active h e ≡ e) ⊎ (supersede_one now active h e ≡ superseded now e)
unfolding supersede_one
supersede_lem now h active e = ground arith

call-Pending :
    (job_id status error now h job : String) (files : List UploadItem) (old : Entry)
    (m : Dict Entry)
    → (if job == job_id then is_progress status else true) ≡ true
    → Pending job_id h old m
    → Pending job_id h old (mark_job_status job status error now files m)
unfolding mark_job_status Pending
call-Pending job_id status error now h job files old m p before =
    let state = mark_items job status error now files m in
    let active = active_by_path state [] in
    let (e, l, j, s, o) = mark_items-Pending job_id status error now h job files old m p before in
    let at : lookup h (supersede_all now active state) ≡ some (supersede_one now active h e) =
      lookup-supersede_all now h active state ∙ ap (map_entry (supersede_one now active h)) l in
    elim (supersede_lem now h active e) [
      | inl r ↦ (e, at ∙ ap (λ (x : Entry). some x) r, j, s, o)
      | inr r ↦ (superseded now e, at ∙ ap (λ (x : Entry). some x) r, j, refl, o)
    ]

pub run_calls-Pending :
    (job_id h : String) (calls : List Call) (old : Entry) (m : Dict Entry)
    → under_way job_id calls ≡ true
    → Pending job_id h old m
    → Pending job_id h old (run_calls calls m)
unfolding run_calls
run_calls-Pending job_id h [] old m u e = e
run_calls-Pending job_id h (c ∷ calls) old m u e =
    run_calls-Pending job_id h calls old _ (ground (arith, u))
      (call-Pending job_id c.status c.error c.now h c.job_id c.files old m (ground (arith, u)) e)
