-- ===== src/JobQueue/Recovery/Interrupting.antt =====
-- What becomes of the entries of the PDF registry when a job is interrupted.
use rag_pipeline_windows.Base.{
  ◌==◌, String, Bool, true, false, ◌||◌, Option, none, some, List, [], ◌∷◌, if◌then◌else◌, ◌≡◌,
  refl, ap, arith, eq_iff, inl, inr, distinct, Bool-cases, Option-cases,
}
use rag_pipeline_windows.Base.Dict.{Dict, lookup, insert, keys, lookup-insert, distinct-insert}
use rag_pipeline_windows.Registry.{
  Body, Entry, UploadItem, mark_entry, interrupt_entry, mark_items, supersede_one, supersede_all,
  superseded,
}
use rag_pipeline_windows.JobQueue.Recovery.Uploads.{resume_order}

abbrev pub interrupted : String
interrupted = "interrupted"

-- The uploads of the job have the hash.
abbrev pub has_item : String → List UploadItem → Bool
has_item h [] = false
has_item h (item ∷ files) = (item.hash == h) || has_item h files

-- A recovery does not resume an entry with the status.
abbrev pub stays : String → Bool
stays status = elim (resume_order status) [ none ↦ true | some _ ↦ false ]

abbrev pub none_resumable : List Body → Bool
none_resumable [] = true
none_resumable (b ∷ older) = if stays b.status then none_resumable older else false

interrupt_lem :
    (job_id error now : String) (item : UploadItem) (e : Entry)
    → none_resumable e.older ≡ true
    → (none_resumable (mark_entry job_id interrupted error now item e).older ≡ true)
      × (stays (mark_entry job_id interrupted error now item e).body.status ≡ true)
unfolding mark_entry interrupt_entry resume_order
interrupt_lem job_id error now item e = go e.older
  where
    go :
        (older : List Body)
        → none_resumable older ≡ true
        → (none_resumable (interrupt_entry job_id error now item e.body older).older ≡ true)
          × (stays (interrupt_entry job_id error now item e.body older).body.status ≡ true)
    go [] t = (refl, refl)
    go (b ∷ older) t = ground (arith, t)

abbrev marked : String → String → String → UploadItem → Dict Entry → Dict Entry
marked job_id error now item state = elim (lookup item.hash state) [
  | none ↦ state
  | some e ↦
      if e.body.job_id == job_id
      then insert item.hash (mark_entry job_id interrupted error now item e) state
      else state
]

-- One item: the entry is still of the job or not resumed, and is not resumed when the item is its file.
marked_at :
    (job_id error now h : String) (item : UploadItem) (state : Dict Entry) (e : Entry)
    → lookup h state ≡ some e
    → ((e.body.job_id == job_id) || stays e.body.status) ≡ true
    → none_resumable e.older ≡ true
    → (q : Entry) × (lookup h (marked job_id error now item state) ≡ some q)
      × (((q.body.job_id == job_id) || stays q.body.status) ≡ true)
      × (none_resumable q.older ≡ true)
      × (((item.hash == h) || stays e.body.status) ≡ true → stays q.body.status ≡ true)
marked_at job_id error now h item state e l j o = elim (Bool-cases (item.hash == h)) [
  | inl same ↦
      (let found : lookup item.hash state ≡ some e = ground (arith, l, eq_iff item.hash h, same) in
        let (a, b) = interrupt_lem job_id error now item e o in
        elim (Bool-cases (e.body.job_id == job_id)) [
          | inl own ↦ (
            mark_entry job_id interrupted error now item e,
            rw (found, marked, own)
                (ground (
                  arith,
                  same,
                  lookup-insert item.hash h (mark_entry job_id interrupted error now item e) state,
                )),
            rw b (either (_ == job_id)),
            a,
            λ _. b,
          )
          | inr foreign ↦ (e, rw (found, marked, foreign) l, j, o, λ _. ground (arith, j, foreign))
        ])
  | inr other ↦ (e, kept (lookup item.hash state) other, j, o, λ t. ground (arith, t, other))
]
  where
    either : (b : Bool) → (b || true) ≡ true
    either true = refl
    either false = refl

    kept :
        (found : Option Entry)
        → (item.hash == h) ≡ false
        → lookup h (elim found [
          | none ↦ state
          | some e ↦
              if e.body.job_id == job_id
              then insert item.hash (mark_entry job_id interrupted error now item e) state
              else state
        ])
          ≡ some e
    kept none other = l
    kept (some q) other = ground (
      arith,
      l,
      other,
      lookup-insert item.hash h (mark_entry job_id interrupted error now item q) state,
    )

pub mark_items_interrupt :
    (job_id error now h : String) (files : List UploadItem) (state : Dict Entry) (e : Entry)
    → lookup h state ≡ some e
    → ((e.body.job_id == job_id) || stays e.body.status) ≡ true
    → none_resumable e.older ≡ true
    → (has_item h files || stays e.body.status) ≡ true
    → (q : Entry) × (lookup h (mark_items job_id interrupted error now files state) ≡ some q)
      × (stays q.body.status ≡ true)
unfolding mark_items
mark_items_interrupt job_id error now h [] state e l j o t = (e, l, ground (arith, t))
mark_items_interrupt job_id error now h (item ∷ files) state e l j o t =
    let (q, m, k, p, done) = marked_at job_id error now h item state e l j o in
    mark_items_interrupt job_id error now h files (marked job_id error now item state) q m k p
      (ground (arith, t, done))

distinct-marked :
    (job_id error now : String) (item : UploadItem) (state : Dict Entry)
    → distinct (keys state) ≡ true
    → distinct (keys (marked job_id error now item state)) ≡ true
distinct-marked job_id error now item state d = elim (Option-cases (lookup item.hash state)) [
  | inl n ↦ rw (n, marked) d
  | inr (q, n) ↦
      rw (n, marked)
        (ground (
          arith,
          d,
          distinct-insert item.hash (mark_entry job_id interrupted error now item q) state,
        ))
]

pub distinct-mark_items :
    (job_id error now : String) (files : List UploadItem) (state : Dict Entry)
    → distinct (keys state) ≡ true
    → distinct (keys (mark_items job_id interrupted error now files state)) ≡ true
unfolding mark_items
distinct-mark_items job_id error now [] state d = d
distinct-mark_items job_id error now (item ∷ files) state d =
    distinct-mark_items job_id error now files (marked job_id error now item state)
      (distinct-marked job_id error now item state d)

pub keys-supersede_all :
    (now : String) (active : Dict String) (pdfs : Dict Entry)
    → keys (supersede_all now active pdfs) ≡ keys pdfs
unfolding supersede_all
keys-supersede_all now active [] = refl
keys-supersede_all now active ((k, e) ∷ pdfs) =
    ap (λ rest. k ∷ rest) (keys-supersede_all now active pdfs)

-- Superseding an entry does not make a recovery resume it.
pub not_resumed :
    (now h : String) (active : Dict String) (e : Entry)
    → stays e.body.status ≡ true
    → resume_order (supersede_one now active h e).body.status ≡ none
unfolding supersede_one
not_resumed now h active e i = elim (Bool-cases (e.body.processed_markdown_path == "")) [
  | inl p ↦ rw p as_it_was
  | inr p ↦ rw p (one (lookup e.body.processed_markdown_path active))
]
  where
    as_it_was : resume_order e.body.status ≡ none
    as_it_was = ground (arith, i, Option-cases (resume_order e.body.status))

    one :
        (o : Option String)
        → resume_order
            (elim o as (λ _. Entry) [
              | none ↦ e
              | some k ↦ if k == h then e else superseded now e
            ]).body.status
          ≡ none
    one none = as_it_was
    one (some k) = elim (Bool-cases (k == h)) [
      | inl t ↦ rw t as_it_was
      | inr t ↦ rw t (unfold resume_order in refl)
    ]
