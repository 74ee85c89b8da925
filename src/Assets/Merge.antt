-- ===== src/Assets/Merge.antt =====
-- What `commit_batch` leaves of the work of the batch and of the other workers.
use rag_pipeline_windows.Base.{
  String, Bool, true, false, Option, none, some, if◌then◌else◌, distinct, is_some, ◌≡◌, refl, ap,
  sym, ◌∙◌, subst, inl, inr, arith, Bool-cases,
}
use rag_pipeline_windows.Base.Dict.{Dict, lookup, has, keys, has-lookup}
use rag_pipeline_windows.Base.Updates.{
  first_of, when, differs, changed_entries, missing_keys, remove_all, lookup-update_all,
  lookup-remove_all, contains-missing_keys, distinct-changed_entries, lookup-changed_entries,
}
use rag_pipeline_windows.Assets.{
  Asset, Batch, AssetStore, merge_batch, flush_batch, commit_at, commit_batch, begin_batch,
}

module _ (same : Asset → Asset → Bool) where
  lookup-merge_batch :
      (id : String) (b : Batch) (fresh : Dict Asset)
      → distinct (keys b.manifest) ≡ true
      → lookup id (merge_batch same b fresh)
        ≡ first_of
            (when (differs same (lookup id b.base)) (lookup id b.manifest))
            (if (if has id b.manifest then false else has id b.base) then none else lookup id fresh)
  unfolding merge_batch
  lookup-merge_batch id b fresh d = ground (
    arith,
    lookup-update_all id (changed_entries same b.base b.manifest)
        (remove_all (missing_keys b.base b.manifest) fresh)
        (distinct-changed_entries same b.base b.manifest d),
    lookup-changed_entries same id b.base b.manifest d,
    lookup-remove_all id (missing_keys b.base b.manifest) fresh,
    contains-missing_keys id b.base b.manifest,
  )

  -- The disk after the outermost commit that could write.
  commit-disk :
      (s : AssetStore) (b : Batch)
      → s.depth ≡ 1
      → s.batch ≡ some b
      → (commit_batch same true s).1.disk ≡ merge_batch same b s.disk
  unfolding commit_batch commit_at flush_batch
  commit-disk s b d e =
      subst (λ n. (commit_at same true n s).1.disk ≡ merge_batch same b s.disk) (sym d) (rw e refl)

  -- `commit_batch` keeps the work of other workers: what the batch did not change since `begin_batch`
  -- is on disk after the commit as it was on disk just before, when the outermost batch commits and
  -- the file can be written. Equal entries are the same to `same`, and no id stands twice in the batch.
  pub commit_batch_keeps_foreign :
      (s : AssetStore) (b : Batch) (id : String)
      → ((a : Asset) → same a a ≡ true)
      → s.depth ≡ 1
      → s.batch ≡ some b
      → distinct (keys b.manifest) ≡ true
      → lookup id b.manifest ≡ lookup id b.base
      → lookup id (commit_batch same true s).1.disk ≡ lookup id s.disk
  commit_batch_keeps_foreign s b id law n e d u =
      ap (lookup id) (commit-disk s b n e)
      ∙ lookup-merge_batch id b s.disk d
      ∙ untouched (lookup id b.base) (lookup id b.manifest) u (has-lookup id b.manifest)
          (has-lookup id b.base)
    where
      untouched :
          (old new : Option Asset)
          → new ≡ old
          → has id b.manifest ≡ is_some new
          → has id b.base ≡ is_some old
          → first_of (when (differs same old) new) (
              if (if has id b.manifest then false else has id b.base)
              then none
              else lookup id s.disk)
            ≡ lookup id s.disk
      untouched none none u h k = ground (arith, h, k)
      untouched none (some a) u h k = ground (arith, u)
      untouched (some c) none u h k = ground (arith, u)
      untouched (some c) (some a) u h k = ground (arith, u, h, k, law a, law c)

  -- `commit_batch` publishes the work of the batch: where no other worker has changed the file since
  -- `begin_batch`, the file has after the commit what the batch has, the entries that it removed
  -- included. Entries that are the same to `same` are equal, and no id stands twice in the batch.
  pub commit_batch_publishes :
      (s : AssetStore) (b : Batch) (id : String)
      → ((a c : Asset) → same a c ≡ true → a ≡ c)
      → s.depth ≡ 1
      → s.batch ≡ some b
      → distinct (keys b.manifest) ≡ true
      → lookup id s.disk ≡ lookup id b.base
      → lookup id (commit_batch same true s).1.disk ≡ lookup id b.manifest
  commit_batch_publishes s b id law n e d u =
      ap (lookup id) (commit-disk s b n e)
      ∙ lookup-merge_batch id b s.disk d
      ∙ published (lookup id b.base) (lookup id b.manifest) (lookup id s.disk) u
          (has-lookup id b.manifest) (has-lookup id b.base)
    where
      published :
          (old new disk : Option Asset)
          → disk ≡ old
          → has id b.manifest ≡ is_some new
          → has id b.base ≡ is_some old
          → first_of
              (when (differs same old) new)
              (if (if has id b.manifest then false else has id b.base) then none else disk)
            ≡ new
      published none none disk u h k = ground (arith, u, h, k)
      published none (some a) disk u h k = refl
      published (some c) none disk u h k = ground (arith, h, k)
      published (some c) (some a) disk u h k = elim (Bool-cases (same c a)) [
        | inl t ↦ ground (arith, t, u, h, k, law c a t)
        | inr t ↦ ground (arith, t, u, h, k)
      ]

  -- A commit that cannot write loses nothing: when the outermost batch could not be written, a new batch that
  -- is opened and committed at once leaves the store as the first commit would have left it.
  pub failed_commit_retries :
      (s : AssetStore) (b : Batch)
      → s.depth ≡ 1
      → s.batch ≡ some b
      → commit_batch same true (begin_batch (commit_batch same false s).1)
        ≡ commit_batch same true s
  unfolding commit_batch commit_at flush_batch begin_batch
  failed_commit_retries s b d e =
      subst
        (λ n.
          commit_batch same true (begin_batch (commit_at same false n s).1)
          ≡ commit_at same true n s)
        (sym d) (rw e refl)
