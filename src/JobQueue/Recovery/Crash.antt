-- ===== src/JobQueue/Recovery/Crash.antt =====
-- Work that `enqueue` accepts survives a crash of the process.
use rag_pipeline_windows.Base.{
  ℕ, String, Bool, true, false, ◌&&◌, not, none, some, List, [], ◌∷◌, ◌++◌, ◌≡◌, refl, ap, ◌∙◌, inl,
  inr, arith, eq_iff, contains, distinct, Bool-cases,
}
use rag_pipeline_windows.Base.Dict.{
  lookup, insert, keys, has, has-lookup, lookup-insert, distinct-insert,
}
use rag_pipeline_windows.Jobs.{QueueJob}
use rag_pipeline_windows.Ledger.{LedgerEntry, load, stored, is_tracked, record_job}
use rag_pipeline_windows.JobQueue.State.{RagJobQueue, init, ledger_record, is_nil}
use rag_pipeline_windows.JobQueue.Enqueue.{
  IdentityPayload, job_identity, find_active_duplicate, ensure_worker, enqueue, admit,
}
use rag_pipeline_windows.JobQueue.History.{prune_jobs}
use rag_pipeline_windows.JobQueue.Recovery.{
  sort_by, pending_entries, ledger_job, ledger_jobs, recovery_jobs_from_ledger, enter, take_uploads,
  take_tracked, recover_pending_uploads,
}
use rag_pipeline_windows.JobQueue.Recovery.Sorting.{distinct-sort_by, lookup-sort_by}
use rag_pipeline_windows.JobQueue.Recovery.Resumed.{woken_lem}
use rag_pipeline_windows.JobQueue.Recovery.Survival.{
  Active, ids, saved_entry, same_identity, tracked_survives,
}

module _ (dumps : IdentityPayload → String) (written : Bool) (now : String) where
  -- The uploads that are taken first leave the ids of other jobs free.
  take_uploads-free :
      (uploads : List QueueJob) (id : String) (s : RagJobQueue)
      → contains id (ids uploads) ≡ false
      → has id s.jobs ≡ false
      → has id (take_uploads uploads s).1.jobs ≡ false
  unfolding take_uploads
  take_uploads-free [] id s c f = f
  take_uploads-free (j ∷ uploads) id s c f = elim (Bool-cases (has j.id s.jobs)) [
    | inl h ↦ rw h (take_uploads-free uploads id s (ground (arith, c)) f)
    | inr h ↦ rw h (
        take_uploads-free uploads id (enter j s) (ground (arith, c)) (
          ground (
            arith,
            c,
            f,
            has-lookup id s.jobs,
            has-lookup id (insert j.id j s.jobs),
            lookup-insert j.id id j s.jobs,
          )))
  ]

  take_uploads-distinct :
      (uploads : List QueueJob) (s : RagJobQueue)
      → distinct (keys s.jobs) ≡ true
      → distinct (keys (take_uploads uploads s).1.jobs) ≡ true
  unfolding take_uploads
  take_uploads-distinct [] s u = u
  take_uploads-distinct (j ∷ uploads) s u = elim (Bool-cases (has j.id s.jobs)) [
    | inl h ↦ rw h (take_uploads-distinct uploads s u)
    | inr h ↦ rw h (take_uploads-distinct uploads (enter j s) (distinct-insert j.id j s.jobs u))
  ]

  take_uploads-ledger :
      (uploads : List QueueJob) (s : RagJobQueue) → (take_uploads uploads s).1.ledger ≡ s.ledger
  unfolding take_uploads
  take_uploads-ledger [] s = refl
  take_uploads-ledger (j ∷ uploads) s = elim (Bool-cases (has j.id s.jobs)) [
    | inl h ↦ rw h (take_uploads-ledger uploads s)
    | inr h ↦ rw h (take_uploads-ledger uploads (enter j s))
  ]

  -- Each entry of the ledger has an active job that does its work, when a new queue recovers it.
  recovered_lem :
      (auto_start : Bool) (uploads : List QueueJob) (id : String) (e : LedgerEntry)
      (s : RagJobQueue)
      → lookup id (load s.ledger) ≡ some e
      → distinct (keys (load s.ledger)) ≡ true
      → contains id (ids uploads) ≡ false
      → has id s.jobs ≡ false
      → distinct (keys s.jobs) ≡ true
      → Active dumps
          (ledger_job now id e)
          (recover_pending_uploads dumps written now true auto_start uploads s).1
  unfolding recover_pending_uploads recovery_jobs_from_ledger pending_entries
  recovered_lem auto_start uploads id e s l d c f u =
      let first = take_uploads uploads s in
      let order = λ (x : String × LedgerEntry). x.1.recorded_at in
      let entries = sort_by order (load first.1.ledger) in
      let jobs = ledger_jobs now entries in
      let second = take_tracked dumps written now jobs first.1 in
      let recovered = first.0 ++ second.recovered in
      let same = take_uploads-ledger uploads s in
      let listed : lookup id entries ≡ some e =
        rw same (lookup-sort_by order id (load s.ledger) d ∙ l) in
      let once : distinct (keys entries) ≡ true =
        rw same (distinct-sort_by order (load s.ledger) d) in
      let (k, j, at, active, work) =
        tracked_survives dumps written now entries id e first.1 listed once
          (take_uploads-free uploads id s c f) (take_uploads-distinct uploads s u) in
      let ej =
        (woken_lem dumps written now (auto_start && not (is_nil recovered)) (is_nil recovered)
          second.queue).0 in
      (k, j, ap (lookup k) ej ∙ at, active, work)

  admit_ledger :
      (auto_start : Bool) (earlier : String) (j : QueueJob) (s : RagJobQueue)
      → (admit dumps true auto_start earlier j s).ledger ≡ (ledger_record true j earlier s).ledger
  unfolding admit prune_jobs ensure_worker
  admit_ledger true earlier j s = refl
  admit_ledger false earlier j s = refl

  saved_lem :
      (auto_start : Bool) (earlier : String) (j : QueueJob) (s : RagJobQueue)
      → is_tracked j.kind ≡ true
      → find_active_duplicate dumps j s ≡ none
      → stored (enqueue dumps true auto_start earlier j s).1.ledger
        ≡ insert j.id (saved_entry earlier j) (load s.ledger)
  unfolding enqueue
  saved_lem auto_start earlier j s t n =
      rw (n, enqueue)
        (ap stored (admit_ledger auto_start earlier j s)
          ∙ (unfold ledger_record in unfold record_job in rw t refl))

  -- Work whose entry `enqueue` could write to the ledger is not lost when the process ends before it is done. When
  -- that write succeeds, the job is of a kind that the ledger tracks, no active job does its work yet, and the
  -- entries of the ledger have different ids, then a recovery into a new queue that can read the file that
  -- `enqueue` leaves ends with an active job that does the same work, as long as no recovered upload has its id.
  -- Of a write that fails nothing is said: `enqueue` accepts the job all the same.
  pub enqueued_work_survives :
      (auto_start again : Bool) (earlier : String) (max_workers : ℕ) (uploads : List QueueJob)
      (j : QueueJob) (s : RagJobQueue)
      → is_tracked j.kind ≡ true
      → find_active_duplicate dumps j s ≡ none
      → distinct (keys (load s.ledger)) ≡ true
      → contains j.id (ids uploads) ≡ false
      → Active dumps j
          (recover_pending_uploads dumps written now true again uploads
            (init max_workers (stored (enqueue dumps true auto_start earlier j s).1.ledger))).1
  unfolding init
  enqueued_work_survives auto_start again earlier max_workers uploads j s t n d c =
      let left = stored (enqueue dumps true auto_start earlier j s).1.ledger in
      let saved : left ≡ insert j.id (saved_entry earlier j) (load s.ledger) =
        saved_lem auto_start earlier j s t n in
      let (k, i, at, active, work) =
        recovered_lem again uploads j.id (saved_entry earlier j) (init max_workers left)
          (rw saved (
            ground (
              arith,
              lookup-insert j.id j.id (saved_entry earlier j) (load s.ledger),
              eq_iff j.id j.id,
            )))
          (rw saved (distinct-insert j.id (saved_entry earlier j) (load s.ledger) d)) c refl refl in
      (
        k,
        i,
        at,
        active,
        work ∙ (unfold job_identity in ap dumps (same_identity earlier now j.id j)),
      )
