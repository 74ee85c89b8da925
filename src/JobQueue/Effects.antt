-- ===== src/JobQueue/Effects.antt =====
-- What one step does to the jobs: nothing, one assignment to one job, a prune, or a new job.
use rag_pipeline_windows.Base.{
  ℕ, ◌==◌, ltb, String, Bool, true, false, Option, none, some, List, [], ◌∷◌, ◌++◌, if◌then◌else◌,
  ◌≡◌, refl, sym, subst, ◌⊎◌, inl, inr, arith, eq_iff, distinct, contains, without, Option-cases,
  Bool-cases, ◌∙◌, ap, length,
}
use rag_pipeline_windows.Base.Dict.{Dict, lookup, insert, keys, has, lookup-insert}
use rag_pipeline_windows.Jobs.{
  QueueJob, Status, queued, running, done, failed, cancelled, paused_for_queries, is_terminal,
  is_active, Json,
}
use rag_pipeline_windows.JobQueue.State.{
  RagJobQueue, RegistryCall, update_job, begin_query, finish_query, add_marks, ledger_remove,
  append_job_log, set_job_progress, as_logged, as_reported, mark_cancelled, as_cancelled,
  ledger_record,
}
use rag_pipeline_windows.JobQueue.History.{prune_jobs, prune_loop, max_job_history}
use rag_pipeline_windows.JobQueue.Enqueue.{
  IdentityPayload, enqueue, admit, ensure_worker, find_active_duplicate, identity_payload,
}
use rag_pipeline_windows.JobQueue.Cancel.{
  cancel_job, cancel_found, cancel_queued, cancel_running, request_cancel, as_cancelling, is_queued,
}
use rag_pipeline_windows.JobQueue.Worker.{
  Pop, idle, started, pop, Outcome, completed, job_cancelled, raised, settle, as_started, as_failed,
  as_done, cancel_message,
}
use rag_pipeline_windows.JobQueue.Waiting.{wait_round, is_cancelled, pause, resume}
use rag_pipeline_windows.JobQueue.Steps.{
  System, Step, claim, query_begins, query_ends, enqueues, cancels, pops, waits, settles, logs,
  reports, deledgers, marks_registry, prunes_history,
}
use rag_pipeline_windows.JobQueue.Invariant.{
  Inv, AgreesAt, map_option, is_running, lookup-update_job, update_job_twice, Agrees,
}
use rag_pipeline_windows.JobQueue.Preservation.{
  settled_as, settle_lem, front_waits, pop_starts, pop_leaves, cancel_job_found, cancel_job_missing,
}
use rag_pipeline_windows.JobQueue.Effects.Changes.{
  held-Moves, settled_as_work, starts-Moves, cancels-Moves, notes-Moves,
}
mod Changes
pub use Changes.{Moves, Effect, unchanged, assigned, pruned, entered}

pub after_bookkeeping :
    (answers written : Bool) (calls : List RegistryCall) (k : QueueJob) (t : RagJobQueue)
    → (add_marks answers calls (ledger_remove written k t)).jobs ≡ t.jobs
after_bookkeeping answers written calls k t = unfold add_marks ledger_remove in ground arith

module _ (dumps : IdentityPayload → String) where
  update-Effect :
      (s : RagJobQueue) (m : Dict QueueJob) (id : String) (f : QueueJob → QueueJob)
      → m ≡ (update_job id f s).jobs
      → ((j : QueueJob) → lookup id s.jobs ≡ some j → Moves j (f j))
      → Effect dumps s m
  update-Effect s m id f e moves = elim (Option-cases (lookup id s.jobs)) [
    | inl n ↦ unchanged (e ∙ (unfold update_job in ground (arith, n)))
    | inr (j, n) ↦
        assigned id j (f j) n (λ i. ground (arith, e, n, lookup-update_job id i f s, eq_iff id i))
          (moves j n)
  ]

  settle-Effect :
      (x : System) (now id : String) (outcome : Outcome) (j : QueueJob)
      → Inv x
      → contains id x.claimed ≡ true
      → lookup id x.shared.jobs ≡ some j
      → Effect dumps x.shared (settle now outcome j x.shared).jobs
  settle-Effect x now id outcome j h c n =
      let own : j.id ≡ id = h.own_id id j n in
      update-Effect x.shared _ id (settled_as now outcome j.cancel_requested)
        (rw (← own) (settle_lem now outcome j x.shared).0)
        (λ i ni.
          held-Moves x id i _ h c ni (settled_as_work now outcome j.cancel_requested i).0
            (λ act. absurd (ground (arith, act, settled_as_work now outcome j.cancel_requested i))))

  wait-Effect :
      (x : System) (id phase : String) (bumped expired : Bool)
      → Inv x
      → contains id x.claimed ≡ true
      → Effect dumps x.shared (wait_round id phase bumped expired x.shared).1.jobs
  unfolding wait_round resume pause
  wait-Effect x id phase bumped expired h c = elim (Bool-cases (is_cancelled id x.shared)) [
    | inl e ↦ rw e (unchanged refl)
    | inr e ↦ elim (Bool-cases (ltb 0 x.shared.active_query_count)) [
      | inl q ↦
          rw (e, q)
            (held (λ j. record j { status = paused_for_queries; phase = phase })
              (unfold update_job in ground arith) (λ j. unfold identity_payload in refl)
              (λ j. refl))
      | inr q ↦
          rw (e, q)
            (held (λ j. record j { status = running; phase = phase }) refl
              (λ j. unfold identity_payload in refl) (λ j. refl))
    ]
  ]
    where
      held :
          (f : QueueJob → QueueJob) {m : Dict QueueJob}
          → m ≡ (update_job id f x.shared).jobs
          → ((j : QueueJob) → identity_payload (f j) ≡ identity_payload j)
          → ((j : QueueJob) → (f j).cancel_requested ≡ j.cancel_requested)
          → Effect dumps x.shared m
      held f e same req =
          update-Effect x.shared _ id f e
            (λ j n. held-Moves x id j (f j) h c n (same j) (λ _. req j))

  pop-Effect : (x : System) (now : String) → Inv x → Effect dumps x.shared (pop now x.shared).1.jobs
  pop-Effect x now h = go x.shared.queue refl
    where
      go : (q : List String) → x.shared.queue ≡ q → Effect dumps x.shared (pop now x.shared).1.jobs
      go [] e = rw (pop_leaves x now e) (unchanged refl)
      go (id ∷ rest) e = rw (pop_starts x now id rest h e) (
          let (j, n, q, c, _, _, _) = front_waits x id rest h e in
          update-Effect x.shared _ id (as_started now) (unfold update_job in ground arith)
            (λ i ni. starts-Moves now i (ground (arith, n, ni, q))))

  found-Effect :
      (x : System) (written answers : Bool) (id now : String) (j : QueueJob)
      → lookup id x.shared.jobs ≡ some j
      → Effect dumps x.shared (cancel_found written answers id now j x.shared).1.jobs
  unfolding cancel_found
  found-Effect x written answers id now j n = elim (Bool-cases (is_terminal j.status)) [
    | inl t ↦ rw t (unchanged refl)
    | inr t ↦ elim (Bool-cases (is_queued j.status)) [
      | inl q ↦
          rw (t, q)
            (update-Effect x.shared _ id
              (λ k. as_cancelled "Job cancelled by user." now (request_cancel k))
              (after_bookkeeping answers written _ _ _
                ∙ (unfold cancel_queued mark_cancelled in
                    update_job_twice id request_cancel (as_cancelled "Job cancelled by user." now)
                      x.shared _ refl))
              (λ i ni.
                cancels-Moves i _ (ground (arith, n, ni, t))
                  (unfold as_cancelled request_cancel identity_payload in refl)
                  (unfold as_cancelled request_cancel in refl)))
      | inr q ↦
          rw (t, q)
            (update-Effect x.shared _ id (λ k. as_cancelling (request_cancel k))
              (unfold cancel_running in refl)
              (λ i ni.
                cancels-Moves i _ (ground (arith, n, ni, t))
                  (unfold as_cancelling request_cancel identity_payload in refl)
                  (unfold as_cancelling request_cancel in refl)))
    ]
  ]

  cancel-Effect :
      (x : System) (written answers : Bool) (id now : String)
      → Effect dumps x.shared (cancel_job written answers id now x.shared).1.jobs
  cancel-Effect x written answers id now = elim (Option-cases (lookup id x.shared.jobs)) [
    | inl n ↦ rw (cancel_job_missing written answers id now x.shared n) (unchanged refl)
    | inr (j, n) ↦
        rw (cancel_job_found written answers id now x.shared j n)
          (found-Effect x written answers id now j n)
  ]

  enqueue-Effect :
      (x : System) (written auto_start : Bool) (now : String) (j : QueueJob)
      → Inv x
      → has j.id x.shared.jobs ≡ false
      → Effect dumps x.shared (enqueue dumps written auto_start now j x.shared).1.jobs
  unfolding enqueue
  enqueue-Effect x written auto_start now j h f = go (find_active_duplicate dumps j x.shared) refl
    where
      admitted :
          (b : Bool)
          → (admit dumps written b now j x.shared).jobs
            ≡ (prune_loop max_job_history
                (length (insert j.id j x.shared.jobs))
                (insert j.id j x.shared.jobs)).0
      admitted true = unfold admit ledger_record prune_jobs ensure_worker in refl
      admitted false = unfold admit ledger_record prune_jobs in refl

      go :
          (o : Option QueueJob)
          → find_active_duplicate dumps j x.shared ≡ o
          → Effect dumps x.shared (enqueue dumps written auto_start now j x.shared).1.jobs
      go (some d) e = rw (e, enqueue) (unchanged refl)
      go none e =
          rw (e, enqueue)
            (entered max_job_history (length (insert j.id j x.shared.jobs)) j f h.no_two_keys e
              (admitted auto_start))

  -- The log and the progress.
  log-Effect : (s : RagJobQueue) (id line : String) → Effect dumps s (append_job_log id line s).jobs
  unfolding append_job_log
  log-Effect s id String.[] = unchanged refl
  log-Effect s id (String.◌∷◌ c l) =
      update-Effect s _ id (as_logged (String.◌∷◌ c l)) refl
        (λ j n. unfold as_logged identity_payload in notes-Moves j _ refl refl refl refl refl)

  progress-Effect :
      (s : RagJobQueue) (id : String) (p : Json) → Effect dumps s (set_job_progress id p s).jobs
  unfolding set_job_progress
  progress-Effect s id (Json.obj fields) =
      update-Effect s _ id (as_reported (Json.obj fields)) refl
        (λ j n. unfold as_reported identity_payload in notes-Moves j _ refl refl refl refl refl)
  progress-Effect s id _ = unchanged refl

  pub Step-Effect : (x y : System) → Step dumps x y → Inv x → Effect dumps x.shared y.shared.jobs
  Step-Effect x y (query_begins e) h = rw e (unchanged (unfold begin_query in refl))
  Step-Effect x y (query_ends e) h = rw e (unchanged (unfold finish_query in refl))
  Step-Effect x y (enqueues written auto_start now j f st c e) h =
      rw e (enqueue-Effect x written auto_start now j h f)
  Step-Effect x y (cancels written answers id now e) h =
      rw e (cancel-Effect x written answers id now)
  Step-Effect x y (pops now e) h = rw e (pop-Effect x now h)
  Step-Effect x y (waits id phase bumped expired c e) h =
      rw e (wait-Effect x id phase bumped expired h c)
  Step-Effect x y (settles now id outcome j c n e) h = rw e (settle-Effect x now id outcome j h c n)
  Step-Effect x y (logs id line e) h = rw e (log-Effect x.shared id line)
  Step-Effect x y (reports id payload e) h = rw e (progress-Effect x.shared id payload)
  Step-Effect x y (deledgers written j e) h =
      rw e (unchanged (unfold ledger_remove in ground arith))
  Step-Effect x y (marks_registry answers calls e) h =
      rw e (unchanged (unfold add_marks in ground arith))
  Step-Effect x y (prunes_history limit e) h =
      rw e (pruned limit (length x.shared.jobs) h.no_two_keys (unfold prune_jobs in refl))
