-- ===== src/JobQueue/Recovery/Survival.antt =====
-- Every entry of the ledger has an active job after the second loop of `recover_pending_uploads`.
use rag_pipeline_windows.Base.{
  ◌==◌, String, Bool, true, false, Option, none, some, List, [], ◌∷◌, get_or_else, ◌≡◌, refl, inl,
  inr, arith, eq_iff, distinct, Bool-cases, Option-cases,
}
use rag_pipeline_windows.Base.Dict.{
  Dict, lookup, insert, keys, has, has-lookup, lookup-insert, distinct-insert,
}
use rag_pipeline_windows.Jobs.{QueueJob, new_job, is_active}
use rag_pipeline_windows.Ledger.{LedgerEntry}
use rag_pipeline_windows.JobQueue.State.{RagJobQueue, ledger_record}
use rag_pipeline_windows.JobQueue.Enqueue.{
  IdentityPayload, identity_payload, job_identity, find_active_duplicate, sorted_set, non_empty,
}
use rag_pipeline_windows.JobQueue.Coalescing.{find_active-some}
use rag_pipeline_windows.JobQueue.Recovery.{given, ledger_job, ledger_jobs, enter, take_tracked}

sorted_set-non_empty : (xs : List String) → sorted_set (non_empty xs) ≡ sorted_set xs
unfolding sorted_set non_empty
sorted_set-non_empty [] = refl
sorted_set-non_empty (x ∷ xs) = ground (arith, sorted_set-non_empty xs)

given_lem : (b : Option String) → get_or_else (given b) "" ≡ get_or_else b ""
given_lem none = refl
given_lem (some text) = ground (arith, eq_iff text "")

abbrev pub saved_entry : String → QueueJob → LedgerEntry
saved_entry now j = record {
  kind = j.kind;
  recorded_at = now;
  source_hashes = j.source_hashes;
  backup_name = j.backup_name;
  options = j.options;
}

-- What the ledger keeps of a job is enough for its identity.
pub same_identity :
    (now later id : String) (j : QueueJob)
    → identity_payload (ledger_job later id (saved_entry now j)) ≡ identity_payload j
unfolding identity_payload ledger_job new_job
same_identity now later id j =
    rw (sorted_set-non_empty j.source_hashes, given_lem j.backup_name) refl

abbrev pub ids : List QueueJob → List String
ids [] = []
ids (j ∷ jobs) = j.id ∷ ids jobs

-- There is an active job in the queue that does the work of `j`.
abbrev pub Active : (IdentityPayload → String) → QueueJob → RagJobQueue → Type 0
Active dumps j s =
    (k : String) × (d : QueueJob) × (lookup k s.jobs ≡ some d)
    × (is_active d ≡ true)
    × (job_identity dumps d ≡ job_identity dumps j)

module _ (dumps : IdentityPayload → String) (written : Bool) (now : String) where
  stays :
      (jobs : List QueueJob) (k : String) (d : QueueJob) (s : RagJobQueue)
      → lookup k s.jobs ≡ some d
      → lookup k (take_tracked dumps written now jobs s).queue.jobs ≡ some d
  unfolding take_tracked
  stays [] k d s e = e
  stays (j ∷ jobs) k d s e = elim (Bool-cases (has j.id s.jobs)) [
    | inl h ↦ rw h (stays jobs k d s e)
    | inr h ↦ elim (Option-cases (find_active_duplicate dumps j s)) [
      | inl n ↦ rw h (
          rw n (
            stays jobs k d (ledger_record written j now (enter j s)) (
              unfold ledger_record in
              ground (
                arith,
                h,
                e,
                has-lookup j.id s.jobs,
                lookup-insert j.id k j s.jobs,
                eq_iff j.id k,
              ))))
      | inr (c, n) ↦ rw h (rw n (stays jobs k d s e))
    ]
  ]

  find_active_duplicate-some :
      (j : QueueJob) (s : RagJobQueue) (d : QueueJob)
      → distinct (keys s.jobs) ≡ true
      → find_active_duplicate dumps j s ≡ some d
      → Active dumps j s
  unfolding find_active_duplicate
  find_active_duplicate-some j s d u e =
      let (k, l, a, w) =
        find_active-some dumps (job_identity dumps j) s.jobs d u (ground (arith, e)) in
      (k, d, l, a, w)

  -- The head of the list has an active job once the loop is through.
  taken :
      (j : QueueJob) (jobs : List QueueJob) (s : RagJobQueue)
      → is_active j ≡ true
      → has j.id s.jobs ≡ false
      → distinct (keys s.jobs) ≡ true
      → Active dumps j (take_tracked dumps written now (j ∷ jobs) s).queue
  unfolding take_tracked
  taken j jobs s a f u = elim (Option-cases (find_active_duplicate dumps j s)) [
    | inl n ↦ rw f (
        rw n (
          j.id,
          j,
          stays jobs j.id j (ledger_record written j now (enter j s)) (
              unfold ledger_record in
              ground (arith, lookup-insert j.id j.id j s.jobs, eq_iff j.id j.id)),
          a,
          refl,
        ))
    | inr (c, n) ↦ rw f (
        rw n (
          let (k, d, l, b, w) = find_active_duplicate-some j s c u n in
          (k, d, stays jobs k d s l, b, w)))
  ]

  pub tracked_survives :
      (entries : Dict LedgerEntry) (id : String) (e : LedgerEntry) (s : RagJobQueue)
      → lookup id entries ≡ some e
      → distinct (keys entries) ≡ true
      → has id s.jobs ≡ false
      → distinct (keys s.jobs) ≡ true
      → Active dumps
          (ledger_job now id e)
          (take_tracked dumps written now (ledger_jobs now entries) s).queue
  unfolding lookup take_tracked ledger_jobs
  tracked_survives [] id e s l d f u = ground (arith, l)
  tracked_survives ((key, first) ∷ entries) id e s l d f u = elim (Bool-cases (key == id)) [
    | inl same ↦
        (let k : id ≡ key = ground (arith, eq_iff key id, same) in
          let v : e ≡ first = ground (arith, l, same) in
          rw v (
            taken (ledger_job now key first) (ledger_jobs now entries) s
              (unfold ledger_job new_job in refl) (unfold ledger_job new_job in (rw k at f)) u))
    | inr other ↦
        (let l₁ : lookup id entries ≡ some e = ground (arith, l, other) in
          let d₁ : distinct (keys entries) ≡ true = ground (arith, d) in
          let j = ledger_job now key first in
          elim (Bool-cases (has j.id s.jobs)) [
            | inl h ↦ rw h (tracked_survives entries id e s l₁ d₁ f u)
            | inr h ↦ elim (Option-cases (find_active_duplicate dumps j s)) [
              | inl n ↦ rw h (
                  rw n (
                    tracked_survives entries id e (ledger_record written j now (enter j s)) l₁ d₁
                      (unfold ledger_record ledger_job new_job in
                        ground (
                          arith,
                          f,
                          other,
                          has-lookup id s.jobs,
                          has-lookup id (insert key j s.jobs),
                          lookup-insert key id j s.jobs,
                        ))
                      (unfold ledger_record in distinct-insert j.id j s.jobs u)))
              | inr (c, n) ↦ rw h (rw n (tracked_survives entries id e s l₁ d₁ f u))
            ]
          ])
  ]
