-- ===== src/Registry/Superseding.antt =====
-- One ingested document for each path of processed Markdown, after `mark_job_status`.
use rag_pipeline_windows.Base.{
  ◌==◌, String, true, false, ◌||◌, Option, none, some, List, [], ◌∷◌, if◌then◌else◌, is_some, ◌≡◌,
  refl, ap, sym, ◌∙◌, subst, ◌⊎◌, inl, inr, arith, eq_iff, Bool-cases, Option-cases,
}
use rag_pipeline_windows.Base.Dict.{Dict, lookup, insert, lookup-insert}
use rag_pipeline_windows.Registry.{
  Entry, UploadItem, is_ingested, superseded, supersede_one, supersede_all, active_by_path,
  mark_job_status, mark_items, mark_entry,
}

abbrev pub map_entry : (Entry → Entry) → Option Entry → Option Entry
map_entry f none = none
map_entry f (some e) = some (f e)

pub lookup-supersede_all :
    (now key : String) (active : Dict String) (pdfs : Dict Entry)
    → lookup key (supersede_all now active pdfs)
      ≡ map_entry (supersede_one now active key) (lookup key pdfs)
unfolding supersede_all lookup
lookup-supersede_all now key active [] = refl
lookup-supersede_all now key active ((k, e) ∷ pdfs) = elim (Bool-cases (k == key)) [
  | inl t ↦
      rw t
        (ap (λ (i : String). some (supersede_one now active i e)) (ground (arith, t, eq_iff k key)))
  | inr t ↦ rw t (lookup-supersede_all now key active pdfs)
]

-- A path that is known stays known.
active_by_path_keeps :
    (path : String) (pdfs : Dict Entry) (active : Dict String)
    → is_some (lookup path active) ≡ true
    → is_some (lookup path (active_by_path pdfs active)) ≡ true
unfolding active_by_path
active_by_path_keeps path [] active h = h
active_by_path_keeps path ((k, e) ∷ pdfs) active h =
    active_by_path_keeps path pdfs _
      (elim (Bool-cases (
        (e.body.processed_markdown_path == "")
        || (if is_ingested e.body.status then false else true))) [
          | inl t ↦ rw t h
          | inr t ↦
              rw t (ground (arith, h, lookup-insert e.body.processed_markdown_path path k active))
        ])

-- The path of an ingested document is known.
active_by_path_knows :
    (key : String) (e : Entry) (pdfs : Dict Entry) (active : Dict String)
    → lookup key pdfs ≡ some e
    → is_ingested e.body.status ≡ true
    → (e.body.processed_markdown_path == "") ≡ false
    → is_some (lookup e.body.processed_markdown_path (active_by_path pdfs active)) ≡ true
unfolding active_by_path lookup
active_by_path_knows key e [] active l i p = ground (arith, l)
active_by_path_knows key e ((k, q) ∷ pdfs) active l i p = elim (Bool-cases (k == key)) [
  | inr t ↦ active_by_path_knows key e pdfs _ (ground (arith, t, l)) i p
  | inl t ↦
      active_by_path_keeps e.body.processed_markdown_path pdfs _ (known (ground (arith, t, l)))
]
  where
    known :
        q ≡ e
        → is_some (
            lookup e.body.processed_markdown_path (
              if (q.body.processed_markdown_path == "")
                || (if is_ingested q.body.status then false else true)
              then active
              else insert q.body.processed_markdown_path k active))
          ≡ true
    known s =
        subst
          (λ (q : Entry).
            is_some (
              lookup e.body.processed_markdown_path (
                if (q.body.processed_markdown_path == "")
                  || (if is_ingested q.body.status then false else true)
                then active
                else insert q.body.processed_markdown_path k active))
            ≡ true)
          (sym s)
          (ground (
            arith,
            i,
            p,
            lookup-insert e.body.processed_markdown_path e.body.processed_markdown_path k active,
            eq_iff e.body.processed_markdown_path e.body.processed_markdown_path,
          ))

-- A document that is ingested after the second loop is the one of its path.
supersede_one_owner :
    (now key : String) (active : Dict String) (e : Entry)
    → (is_ingested e.body.status ≡ true
        → (e.body.processed_markdown_path == "") ≡ false
        → is_some (lookup e.body.processed_markdown_path active) ≡ true)
    → is_ingested (supersede_one now active key e).body.status ≡ true
    → ((supersede_one now active key e).body.processed_markdown_path == "") ≡ false
    → lookup (supersede_one now active key e).body.processed_markdown_path active ≡ some key
unfolding supersede_one
supersede_one_owner now key active e known =
    elim (Bool-cases (e.body.processed_markdown_path == "")) [
      | inl t ↦ rw t (λ i p. ground (arith, t, p))
      | inr t ↦ elim (Option-cases (lookup e.body.processed_markdown_path active)) [
        | inl n ↦ rw (t, n) (λ i p. ground (arith, n, known i p))
        | inr (h, n) ↦ elim (Bool-cases (h == key)) [
          | inl o ↦ rw (t, n, o) (λ i p. ground (arith, n, o, eq_iff h key))
          | inr o ↦ rw (t, n, o) (λ i p. ground (arith, i))
        ]
      ]
    ]

owner_lem :
    (now key : String) (state : Dict Entry) (e : Entry)
    → lookup key (supersede_all now (active_by_path state []) state) ≡ some e
    → is_ingested e.body.status ≡ true
    → (e.body.processed_markdown_path == "") ≡ false
    → lookup e.body.processed_markdown_path (active_by_path state []) ≡ some key
owner_lem now key state e l = elim (Option-cases (lookup key state)) [
  | inl n ↦ ground (arith, n, l, lookup-supersede_all now key (active_by_path state []) state)
  | inr (q, n) ↦
      subst
        (λ (r : Entry).
          is_ingested r.body.status ≡ true
          → (r.body.processed_markdown_path == "") ≡ false
          → lookup r.body.processed_markdown_path (active_by_path state []) ≡ some key)
        {y = e}
        (the_same (
          sym (
            lookup-supersede_all now key (active_by_path state []) state
            ∙ ap (map_entry (supersede_one now (active_by_path state []) key)) n)
          ∙ l))
        (supersede_one_owner now key (active_by_path state []) q
          (active_by_path_knows key q state [] n))
]
  where
    the_same : {a b : Entry} → some a ≡ some b → a ≡ b
    the_same h = ground (arith, h)

-- After `mark_job_status` no two documents that are ingested or indexed have one path of processed
-- Markdown, when that path is not empty.
pub one_document_per_path :
    (job_id status error now : String) (files : List UploadItem) (documents : Dict Entry)
    (a b : String) (d e : Entry)
    → lookup a (mark_job_status job_id status error now files documents) ≡ some d
    → lookup b (mark_job_status job_id status error now files documents) ≡ some e
    → is_ingested d.body.status ≡ true
    → is_ingested e.body.status ≡ true
    → d.body.processed_markdown_path ≡ e.body.processed_markdown_path
    → (d.body.processed_markdown_path == "") ≡ false
    → a ≡ b
unfolding mark_job_status
one_document_per_path job_id status error now files documents a b d e la lb id ie p n =
    let state = mark_items job_id status error now files documents in
    ground (arith, owner_lem now a state d la id n, owner_lem now b state e lb ie, p, n)

-- The loop leaves the entries of other jobs alone.
pub mark_items_foreign :
    (job_id status error now key : String) (files : List UploadItem) (state : Dict Entry)
    (e : Entry)
    → lookup key state ≡ some e
    → (e.body.job_id == job_id) ≡ false
    → lookup key (mark_items job_id status error now files state) ≡ some e
unfolding mark_items
mark_items_foreign job_id status error now key [] state e l f = l
mark_items_foreign job_id status error now key (item ∷ files) state e l f =
    elim (Option-cases (lookup item.hash state)) [
      | inl n ↦ rw n (mark_items_foreign job_id status error now key files state e l f)
      | inr (q, n) ↦ elim (Bool-cases (q.body.job_id == job_id)) [
        | inr o ↦ rw (n, o) (mark_items_foreign job_id status error now key files state e l f)
        | inl o ↦
            rw (n, o)
              (mark_items_foreign job_id status error now key files _ e
                (ground (
                  arith,
                  n,
                  l,
                  o,
                  f,
                  lookup-insert item.hash key (mark_entry job_id status error now item q) state,
                  eq_iff item.hash key,
                ))
                f)
      ]
    ]

-- The entry of another job is as it was after `mark_job_status`, or is superseded by the document that
-- has its path now.
pub foreign_entry_stays :
    (job_id status error now key : String) (files : List UploadItem) (documents : Dict Entry)
    (e : Entry)
    → lookup key documents ≡ some e
    → (e.body.job_id == job_id) ≡ false
    → (lookup key (mark_job_status job_id status error now files documents) ≡ some e)
      ⊎ (lookup key (mark_job_status job_id status error now files documents)
          ≡ some (superseded now e))
unfolding mark_job_status
foreign_entry_stays job_id status error now key files documents e l f =
    let state = mark_items job_id status error now files documents in
    let active = active_by_path state [] in
    let kept = mark_items_foreign job_id status error now key files documents e l f in
    let seen =
      lookup-supersede_all now key active state
      ∙ ap (map_entry (supersede_one now active key)) kept in
    elim (either now active key e) [
      | inl o ↦ inl (seen ∙ ap (λ (q : Entry). some q) o)
      | inr o ↦ inr (seen ∙ ap (λ (q : Entry). some q) o)
    ]
  where
    either :
        (now : String) (active : Dict String) (key : String) (e : Entry)
        → (supersede_one now active key e ≡ e) ⊎ (supersede_one now active key e ≡ superseded now e)
    either now active key e = unfold supersede_one in ground arith
