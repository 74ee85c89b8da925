-- ===== src/JobQueue/Recovery/Resuming.antt =====
-- No upload that can be resumed is lost, and none resumes later than at its own phase.
use rag_pipeline_windows.Base.{
  ℕ, ltb, leb, ◌==◌, String, Bool, true, false, ◌&&◌, ◌||◌, Option, none, some, List, [], ◌∷◌, ◌++◌,
  get_or_else, ◌≡◌, refl, arith, eq_iff, inl, inr, contains, any, is_some, Bool-cases, Option-cases,
  contains-append, ap, ◌∙◌,
}
use rag_pipeline_windows.Base.Dict.{Dict, lookup, insert, lookup-insert}
use rag_pipeline_windows.Jobs.{QueueJob, Json, new_job}
use rag_pipeline_windows.Registry.{Entry}
use rag_pipeline_windows.JobQueue.Recovery.{insert_by, sort_by}
use rag_pipeline_windows.JobQueue.Recovery.Uploads.{
  resume_order, order_of, Group, new_group, add_entry, group_id, collect_groups, values,
  upload_items, group_job, group_jobs, recovery_jobs_from_registry,
}

abbrev pub hashes_of : List (String × Entry) → List String
hashes_of [] = []
hashes_of ((h, _) ∷ entries) = h ∷ hashes_of entries

pub hashes_of-append :
    (xs : List (String × Entry)) (h : String) (e : Entry)
    → hashes_of (xs ++ (h, e) ∷ []) ≡ hashes_of xs ++ h ∷ []
hashes_of-append [] h e = refl
hashes_of-append ((k, i) ∷ xs) h e = ground (arith, hashes_of-append xs h e)

-- The group has the file, and resumes at that phase or an earlier one.
abbrev holds : String → ℕ → Group → Bool
holds h n g = contains h (hashes_of g.entries) && leb (order_of g.resume_status) n

abbrev resumes : String → ℕ → Option Group → Bool
resumes h n none = false
resumes h n (some g) = holds h n g

holds-add_entry :
    (h k : String) (n : ℕ) (e : Entry) (g : Group)
    → holds h n g ≡ true
    → holds h n (add_entry k e g) ≡ true
unfolding add_entry
holds-add_entry h k n e g t =
    ground
      (arith, t, hashes_of-append g.entries k e, contains-append h (hashes_of g.entries) (k ∷ []))

holds_new :
    (h : String) (e : Entry) (g : Group) → holds h (order_of e.body.status) (add_entry h e g) ≡ true
unfolding add_entry
holds_new h e g = ground (
  arith,
  hashes_of-append g.entries h e,
  contains-append h (hashes_of g.entries) (h ∷ []),
  eq_iff h h,
  Bool-cases (ltb (order_of e.body.status) (order_of g.resume_status)),
)

resumes_after :
    (now h k id : String) (n : ℕ) (e : Entry) (groups : Dict Group)
    → resumes h n (lookup id groups) ≡ true
    → let gid = group_id k e in
      resumes h n (
        lookup id (
          insert gid
            (add_entry k e (get_or_else (lookup gid groups) (new_group now gid e.body)))
            groups))
      ≡ true
resumes_after now h k id n e groups t = elim (Option-cases (lookup id groups)) [
  | inl o ↦ ground (arith, o, t)
  | inr (g, o) ↦
      (let held : holds h n g ≡ true = rw o at t in
        elim (Bool-cases (group_id k e == id)) [
          | inl same ↦
              (let d = new_group now (group_id k e) e.body in
                let found : lookup (group_id k e) groups ≡ some g =
                  ground (arith, o, eq_iff (group_id k e) id, same) in
                rw
                  (
                    lookup-insert (group_id k e) id
                        (add_entry k e (get_or_else (lookup (group_id k e) groups) d)) groups,
                    same,
                  )
                  (rw found (holds-add_entry h k n e g held)))
          | inr other ↦
              rw
                (
                  lookup-insert (group_id k e) id
                      (add_entry k e (
                        get_or_else (lookup (group_id k e) groups)
                          (new_group now (group_id k e) e.body)))
                      groups,
                  other,
                  o,
                )
                held
        ])
]

abbrev pub with_entry : String → String → Entry → Dict Group → Dict Group
with_entry now k e groups =
    let gid = group_id k e in
    insert gid (add_entry k e (get_or_else (lookup gid groups) (new_group now gid e.body))) groups

pub skips :
    (now k : String) (e : Entry) (pdfs : Dict Entry) (groups : Dict Group)
    → resume_order e.body.status ≡ none
    → collect_groups now ((k, e) ∷ pdfs) groups ≡ collect_groups now pdfs groups
unfolding collect_groups
skips now k e pdfs groups o = rw (o, collect_groups) refl

chosen :
    (o : Option ℕ) (m : ℕ)
    → o ≡ some m
    → (a b : Dict Group) → (elim o [ none ↦ a | some _ ↦ b ]) ≡ b
chosen none m o a b = ground (arith, o)
chosen (some n) m o a b = refl

pub collects :
    (now k : String) (e : Entry) (pdfs : Dict Entry) (groups : Dict Group) (m : ℕ)
    → resume_order e.body.status ≡ some m
    → collect_groups now ((k, e) ∷ pdfs) groups
      ≡ collect_groups now pdfs (with_entry now k e groups)
unfolding collect_groups
collects now k e pdfs groups m o = chosen (resume_order e.body.status) m o _ _

resumes-collect_groups :
    (now h id : String) (n : ℕ) (pdfs : Dict Entry) (groups : Dict Group)
    → resumes h n (lookup id groups) ≡ true
    → resumes h n (lookup id (collect_groups now pdfs groups)) ≡ true
resumes-collect_groups now h id n [] groups t = unfold collect_groups in t
resumes-collect_groups now h id n ((k, e) ∷ pdfs) groups t =
    elim (Option-cases (resume_order e.body.status)) [
      | inl o ↦ rw (skips now k e pdfs groups o) (resumes-collect_groups now h id n pdfs groups t)
      | inr (m, o) ↦
          rw (collects now k e pdfs groups m o)
            (resumes-collect_groups now h id n pdfs _ (resumes_after now h k id n e groups t))
    ]

collected :
    (now h : String) (e : Entry) (pdfs : Dict Entry) (groups : Dict Group)
    → lookup h pdfs ≡ some e
    → is_some (resume_order e.body.status) ≡ true
    → resumes h (order_of e.body.status) (lookup (group_id h e) (collect_groups now pdfs groups))
      ≡ true
unfolding lookup
collected now h e [] groups l r = ground (arith, l)
collected now h e ((k, first) ∷ pdfs) groups l r = elim (Bool-cases (k == h)) [
  | inl same ↦
      (let ke : h ≡ k = ground (arith, eq_iff k h, same) in
        let fe : e ≡ first = ground (arith, l, same) in rw (ke, fe) (entered (rw fe at r)))
  | inr other ↦
      (let l₁ : lookup h pdfs ≡ some e = ground (arith, l, other) in
        elim (Option-cases (resume_order first.body.status)) [
          | inl o ↦ rw (skips now k first pdfs groups o) (collected now h e pdfs groups l₁ r)
          | inr (m, o) ↦ rw (collects now k first pdfs groups m o) (collected now h e pdfs _ l₁ r)
        ])
]
  where
    entered :
        is_some (resume_order first.body.status) ≡ true
        → resumes k
            (order_of first.body.status)
            (lookup (group_id k first) (collect_groups now ((k, first) ∷ pdfs) groups))
          ≡ true
    entered r₁ = elim (Option-cases (resume_order first.body.status)) [
      | inl o ↦ ground (arith, o, r₁)
      | inr (m, o) ↦
          (let gid = group_id k first in
            let g = get_or_else (lookup gid groups) (new_group now gid first.body) in
            rw (collects now k first pdfs groups m o) (
              resumes-collect_groups now k gid (order_of first.body.status) pdfs
                (insert gid (add_entry k first g) groups)
                (rw (lookup-insert gid gid (add_entry k first g) groups)
                  (ground (arith, eq_iff gid gid, holds_new k first g)))))
    ]

values-any :
    (h id : String) (n : ℕ) (groups : Dict Group)
    → resumes h n (lookup id groups) ≡ true
    → any (holds h n) (values groups) ≡ true
unfolding lookup
values-any h id n [] t = t
values-any h id n ((k, g) ∷ groups) t = ground (arith, t, values-any h id n groups)

module _ (key : Group → String) (p : Group → Bool) where
  any-insert_by : (g : Group) (gs : List Group) → any p (insert_by key g gs) ≡ (p g || any p gs)
  unfolding insert_by
  any-insert_by g [] = refl
  any-insert_by g (x ∷ gs) = ground (arith, any-insert_by g gs)

  pub any-sort_by : (gs : List Group) → any p (sort_by key gs) ≡ any p gs
  unfolding sort_by
  any-sort_by [] = refl
  any-sort_by (g ∷ gs) = ground (arith, any-insert_by g (sort_by key gs), any-sort_by gs)

abbrev pub is_text : String → Option Json → Bool
is_text h (some (Json.text t)) = t == h
is_text h _ = false

-- One of the upload items has the hash.
abbrev pub listed : String → List (Dict Json) → Bool
listed h [] = false
listed h (item ∷ items) = is_text h (lookup "hash" item) || listed h items

-- The job has the upload, and resumes at that phase or an earlier one.
abbrev pub resumes_upload : String → ℕ → QueueJob → Bool
resumes_upload h n j = listed h j.uploads && leb (order_of (get_or_else j.resume_status "")) n

module _ (parent path_name : String → String) (shown : Json → String) where
  pub listed-upload_items :
      (h : String) (entries : List (String × Entry))
      → listed h (upload_items parent path_name shown entries) ≡ contains h (hashes_of entries)
  unfolding upload_items lookup
  listed-upload_items h [] = refl
  listed-upload_items h ((k, e) ∷ entries) =
      ap (λ rest. (k == h) || rest) (listed-upload_items h entries)

  any-group_jobs :
      (model h : String) (n : ℕ) (gs : List Group)
      → any (holds h n) gs ≡ true
      → any (resumes_upload h n) (group_jobs parent path_name shown model gs) ≡ true
  unfolding group_jobs group_job new_job
  any-group_jobs model h n [] t = t
  any-group_jobs model h n (g ∷ gs) t =
      ground (arith, t, any-group_jobs model h n gs, listed-upload_items h g.entries)

  -- When the status of an entry of the registry is one that recovery resumes, one of the recovered jobs has the file
  -- among its uploads, and resumes at the phase of the entry or an earlier one.
  pub recovery_resumes_uploads :
      (model now h : String) (e : Entry) (pdfs : Dict Entry)
      → lookup h pdfs ≡ some e
      → is_some (resume_order e.body.status) ≡ true
      → any
          (resumes_upload h (order_of e.body.status))
          (recovery_jobs_from_registry parent path_name shown model now pdfs)
        ≡ true
  unfolding recovery_jobs_from_registry
  recovery_resumes_uploads model now h e pdfs l r =
      let groups = collect_groups now pdfs [] in
      let n = order_of e.body.status in
      any-group_jobs model h n (sort_by (λ g. g.created_at) (values groups)) (
        any-sort_by (λ g. g.created_at) (holds h n) (values groups)
        ∙ values-any h (group_id h e) n groups (collected now h e pdfs [] l r))
