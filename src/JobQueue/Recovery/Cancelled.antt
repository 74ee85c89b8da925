-- ===== src/JobQueue/Recovery/Cancelled.antt =====
-- An upload whose job was interrupted is not resumed: the registry and the recovery together.
use rag_pipeline_windows.Base.{
  ℕ, ◌==◌, String, Bool, true, false, ◌||◌, none, some, List, [], ◌∷◌, if◌then◌else◌, get_or_else,
  ◌≡◌, refl, sym, ap, ◌∙◌, arith, eq_iff, inl, inr, contains, distinct, Bool-cases, Option-cases,
  contains-append,
}
use rag_pipeline_windows.Base.Dict.{Dict, lookup, insert, keys, has-lookup}
use rag_pipeline_windows.Jobs.{QueueJob, Json, new_job}
use rag_pipeline_windows.Registry.{
  Entry, UploadItem, mark_items, supersede_one, supersede_all, active_by_path, mark_job_status,
}
use rag_pipeline_windows.Registry.Superseding.{lookup-supersede_all, map_entry}
use rag_pipeline_windows.JobQueue.Recovery.{insert_by, sort_by}
use rag_pipeline_windows.JobQueue.Recovery.Uploads.{
  resume_order, Group, new_group, add_entry, group_id, collect_groups, values, group_job,
  group_jobs, recovery_jobs_from_registry,
}
use rag_pipeline_windows.JobQueue.Recovery.Resuming.{
  listed, hashes_of, hashes_of-append, listed-upload_items, with_entry, skips, collects,
}
use rag_pipeline_windows.JobQueue.Recovery.Interrupting.{
  interrupted, has_item, none_resumable, mark_items_interrupt, distinct-mark_items,
  keys-supersede_all, not_resumed,
}

-- No group has the file.
abbrev none_holds : String → List Group → Bool
none_holds h [] = true
none_holds h (g ∷ groups) = if contains h (hashes_of g.entries) then false else none_holds h groups

lookup-none_holds :
    (h id : String) (groups : Dict Group)
    → none_holds h (values groups) ≡ true
    → (new : Group) → contains h (hashes_of new.entries) ≡ false
    → contains h (hashes_of (get_or_else (lookup id groups) new).entries) ≡ false
unfolding lookup
lookup-none_holds h id [] t new n = n
lookup-none_holds h id ((k, g) ∷ groups) t new n = elim (Bool-cases (k == id)) [
  | inl same ↦ rw same (ground (arith, t))
  | inr other ↦ rw other (lookup-none_holds h id groups (ground (arith, t)) new n)
]

insert-none_holds :
    (h id : String) (g : Group) (groups : Dict Group)
    → none_holds h (values groups) ≡ true
    → contains h (hashes_of g.entries) ≡ false
    → none_holds h (values (insert id g groups)) ≡ true
unfolding insert
insert-none_holds h id g [] t n = ground (arith, n)
insert-none_holds h id g ((k, i) ∷ groups) t n =
    ground (arith, t, n, insert-none_holds h id g groups)

with_entry-none_holds :
    (now h k : String) (e : Entry) (groups : Dict Group)
    → none_holds h (values groups) ≡ true
    → (k == h) ≡ false
    → none_holds h (values (with_entry now k e groups)) ≡ true
with_entry-none_holds now h k e groups t n =
    let gid = group_id k e in
    let new = new_group now gid e.body in
    let g = get_or_else (lookup gid groups) new in
    insert-none_holds h gid (add_entry k e g) groups t (
      unfold add_entry in
      ground (
        arith,
        n,
        hashes_of-append g.entries k e,
        contains-append h (hashes_of g.entries) (k ∷ []),
        lookup-none_holds h gid groups t new refl,
      ))

-- The loop over the registry puts no entry at `h` into a group, when it is not to be resumed.
collect_groups-none_holds :
    (now h : String) (pdfs : Dict Entry) (groups : Dict Group)
    → ((e : Entry) → lookup h pdfs ≡ some e → resume_order e.body.status ≡ none)
    → distinct (keys pdfs) ≡ true
    → none_holds h (values groups) ≡ true
    → none_holds h (values (collect_groups now pdfs groups)) ≡ true
collect_groups-none_holds now h [] groups over d t = unfold collect_groups in t
collect_groups-none_holds now h ((k, e) ∷ pdfs) groups over d t =
    elim (Option-cases (resume_order e.body.status)) [
      | inl o ↦
          rw (skips now k e pdfs groups o)
            (collect_groups-none_holds now h pdfs groups rest (ground (arith, d)) t)
      | inr (m, o) ↦ rw (collects now k e pdfs groups m o) (
          collect_groups-none_holds now h pdfs (with_entry now k e groups) rest (ground (arith, d))
            (with_entry-none_holds now h k e groups t (other m o)))
    ]
  where
    rest : (q : Entry) → lookup h pdfs ≡ some q → resume_order q.body.status ≡ none
    rest q l = over q (unfold lookup in ground (arith, l, d, has-lookup h pdfs, eq_iff k h))

    other : (m : ℕ) → resume_order e.body.status ≡ some m → (k == h) ≡ false
    other m o = elim (Bool-cases (k == h)) [
      | inr f ↦ f
      | inl same ↦ ground (arith, o, over e (unfold lookup in ground (arith, same)))
    ]

insert_by-none_holds :
    (h : String) (key : Group → String) (g : Group) (gs : List Group)
    → none_holds h (insert_by key g gs)
      ≡ (if contains h (hashes_of g.entries) then false else none_holds h gs)
unfolding insert_by
insert_by-none_holds h key g [] = refl
insert_by-none_holds h key g (x ∷ gs) = ground (arith, insert_by-none_holds h key g gs)

sort_by-none_holds :
    (h : String) (key : Group → String) (gs : List Group)
    → none_holds h (sort_by key gs) ≡ none_holds h gs
unfolding sort_by
sort_by-none_holds h key [] = refl
sort_by-none_holds h key (g ∷ gs) =
    ground (arith, insert_by-none_holds h key g (sort_by key gs), sort_by-none_holds h key gs)

-- One of the jobs has an upload with the hash.
abbrev pub resumed : String → List QueueJob → Bool
resumed h [] = false
resumed h (j ∷ jobs) = listed h j.uploads || resumed h jobs

module _ (parent path_name : String → String) (shown : Json → String) where
  resumed-group_jobs :
      (model h : String) (gs : List Group)
      → none_holds h gs ≡ true
      → resumed h (group_jobs parent path_name shown model gs) ≡ false
  unfolding group_jobs group_job new_job
  resumed-group_jobs model h [] t = refl
  resumed-group_jobs model h (g ∷ gs) t = ground (
    arith,
    t,
    resumed-group_jobs model h gs,
    listed-upload_items parent path_name shown h g.entries,
  )

  -- An upload that is interrupted, as a cancellation marks it in the PDF registry, is not resumed by a recovery: when the
  -- job marks its files as interrupted and the file is one of them, no recovered job has it. The entry of the file is of
  -- that job, none of the entries that it replaced has a status that a recovery resumes, and no hash stands twice in the
  -- registry.
  pub interrupted_upload_stays :
      (model now later job_id error h : String) (files : List UploadItem) (pdfs : Dict Entry)
      (e : Entry)
      → lookup h pdfs ≡ some e
      → e.body.job_id ≡ job_id
      → none_resumable e.older ≡ true
      → has_item h files ≡ true
      → distinct (keys pdfs) ≡ true
      → resumed h (
          recovery_jobs_from_registry parent path_name shown model later
            (mark_job_status job_id interrupted error now files pdfs))
        ≡ false
  unfolding recovery_jobs_from_registry mark_job_status
  interrupted_upload_stays model now later job_id error h files pdfs e l j o i d =
      let state = mark_items job_id interrupted error now files pdfs in
      let active = active_by_path state [] in
      let (q, m, s) =
        mark_items_interrupt job_id error now h files pdfs e l
          (ground (arith, j, eq_iff e.body.job_id job_id)) o (ground (arith, i)) in
      let over : (p : Entry)
          → lookup h (supersede_all now active state) ≡ some p
          → resume_order p.body.status ≡ none =
        λ p n.
          ended p
            (sym n
              ∙ lookup-supersede_all now h active state
              ∙ ap (map_entry (supersede_one now active h)) m)
            (not_resumed now h active q s) in
      let once : distinct (keys (supersede_all now active state)) ≡ true =
        rw (keys-supersede_all now active state)
          (distinct-mark_items job_id error now files pdfs d) in
      let groups = collect_groups later (supersede_all now active state) [] in
      resumed-group_jobs model h (sort_by (λ g. g.created_at) (values groups)) (
        sort_by-none_holds h (λ g. g.created_at) (values groups)
        ∙ collect_groups-none_holds later h (supersede_all now active state) [] over once refl)
    where
      ended :
          {b : Entry} (a : Entry)
          → some a ≡ some b
          → resume_order b.body.status ≡ none
          → resume_order a.body.status ≡ none
      ended a n r = ground (arith, n, r)
