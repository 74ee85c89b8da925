-- ===== src/JobQueue/Preservation/Notes.antt =====
-- The invariant of the queue under the steps that leave the statuses alone, and under the wait.
use rag_pipeline_windows.Base.{
  ℕ, ltb, String, Bool, true, false, Option, none, some, ◌≡◌, refl, inl, inr, arith, distinct,
  contains, Option-cases, Bool-cases, length,
}
use rag_pipeline_windows.Base.Dict.{Dict, lookup, keys}
use rag_pipeline_windows.Jobs.{QueueJob, Status, queued, running, paused_for_queries, Json}
use rag_pipeline_windows.JobQueue.State.{
  update_job, append_job_log, set_job_progress, as_logged, as_reported,
}
use rag_pipeline_windows.JobQueue.History.{prune_jobs, prune_loop}
use rag_pipeline_windows.JobQueue.History.Pruning.{
  distinct-prune_loop, prune_loop_keeps, lookup-prune_loop,
}
use rag_pipeline_windows.JobQueue.Waiting.{wait_round, is_cancelled, pause, resume}
use rag_pipeline_windows.JobQueue.Steps.{System}
use rag_pipeline_windows.JobQueue.Invariant.{
  Inv, Inv-update_job, Agrees, map_option, is_running, is_queued, queue-update_job,
}

-- A change of the counters, the ledger or the marks alone.
pub same_jobs-Inv :
    (x y : System)
    → Inv x
    → y.shared.jobs ≡ x.shared.jobs
    → y.shared.queue ≡ x.shared.queue
    → y.claimed ≡ x.claimed
    → Inv y
same_jobs-Inv x y h ej eq ec = record {
  no_two_keys = rw ej h.no_two_keys;
  once_queued = rw eq h.once_queued;
  once_claimed = rw ec h.once_claimed;
  own_id = λ id j e. h.own_id id j (rw ej at e);
  agrees = λ id. rw (ej, eq, ec) (h.agrees id);
}

-- An assignment that leaves the id, the status and the cancellation request alone.
quiet-Inv :
    (x y : System) (id : String) (f : QueueJob → QueueJob)
    → Inv x
    → y.shared.jobs ≡ (update_job id f x.shared).jobs
    → y.shared.queue ≡ x.shared.queue
    → y.claimed ≡ x.claimed
    → ((j : QueueJob)
        → ((f j).id ≡ j.id)
          × ((f j).status ≡ j.status)
          × ((f j).cancel_requested ≡ j.cancel_requested))
    → Inv y
quiet-Inv x y id f h ej eq ec keeps =
    Inv-update_job x y id f h ej (λ j. (keeps j).0) (rw eq h.once_queued) (rw ec h.once_claimed)
      (λ k _. rw eq) (λ k _. rw ec) (rw (eq, ec) (at (lookup id x.shared.jobs) (h.agrees id)))
  where
    at :
        (o : Option QueueJob)
        → Agrees (contains id x.shared.queue) (contains id x.claimed) o
        → Agrees (contains id x.shared.queue) (contains id x.claimed) (map_option f o)
    at none a = a
    at (some j) a = ground (arith, keeps j)

pub append_job_log-Inv :
    (x : System) (id line : String)
    → Inv x
    → Inv (record x { shared = append_job_log id line x.shared })
unfolding append_job_log
append_job_log-Inv x id String.[] h = h
append_job_log-Inv x id (String.◌∷◌ c l) h =
    quiet-Inv x _ id (as_logged (String.◌∷◌ c l)) h refl (unfold update_job in ground arith) refl
      (λ j. unfold as_logged in (refl, refl, refl))

pub set_job_progress-Inv :
    (x : System) (id : String) (p : Json)
    → Inv x
    → Inv (record x { shared = set_job_progress id p x.shared })
unfolding set_job_progress
set_job_progress-Inv x id (Json.obj fields) h =
    quiet-Inv x _ id (as_reported (Json.obj fields)) h refl (queue-update_job id _ x.shared) refl
      (λ j. unfold as_reported in (refl, refl, refl))
set_job_progress-Inv x id _ h = h

-- A job that is dropped was neither waiting nor running.
Agrees-drop :
    (limit n : ℕ) (m : Dict QueueJob) (id : String) (a b : Bool)
    → distinct (keys m) ≡ true
    → Agrees a b (lookup id m)
    → Agrees a b (lookup id (prune_loop limit n m).0)
Agrees-drop limit n m id a b d h = elim (Option-cases (lookup id m)) [
  | inl e ↦ elim (Option-cases (lookup id (prune_loop limit n m).0)) [
    | inl gone ↦ rw gone (rw e at h)
    | inr (j, kept) ↦ ground (arith, e, kept, lookup-prune_loop limit n m id j d kept)
  ]
  | inr (j, e) ↦ elim (Option-cases (lookup id (prune_loop limit n m).0)) [
    | inl gone ↦ rw gone (
        let h' : Agrees a b (some j) = rw e at h in
        ground (arith, prune_loop_keeps limit n m id j e))
    | inr (i, kept) ↦ rw kept (rw (lookup-prune_loop limit n m id i d kept) at h)
  ]
]

pub prune_jobs-Inv :
    (x : System) (limit : ℕ) → Inv x → Inv (record x { shared = prune_jobs limit x.shared })
unfolding prune_jobs
prune_jobs-Inv x limit h = record {
  no_two_keys = distinct-prune_loop limit (length x.shared.jobs) x.shared.jobs h.no_two_keys;
  once_queued = h.once_queued;
  once_claimed = h.once_claimed;
  own_id = λ id j e.
      h.own_id id j
        (lookup-prune_loop limit (length x.shared.jobs) x.shared.jobs id j h.no_two_keys e);
  agrees = λ id.
      Agrees-drop limit (length x.shared.jobs) x.shared.jobs id _ _ h.no_two_keys (h.agrees id);
}

-- An assignment by the worker that holds the job, which leaves it running.
working-Inv :
    (x y : System) (id : String) (f : QueueJob → QueueJob)
    → Inv x
    → contains id x.claimed ≡ true
    → y.shared.jobs ≡ (update_job id f x.shared).jobs
    → y.shared.queue ≡ x.shared.queue
    → y.claimed ≡ x.claimed
    → ((j : QueueJob) → ((f j).id ≡ j.id) × (is_running (f j).status ≡ true))
    → Inv y
working-Inv x y id f h c ej eq ec keeps =
    Inv-update_job x y id f h ej (λ j. (keeps j).0) (rw eq h.once_queued) (rw ec h.once_claimed)
      (λ k _. rw eq) (λ k _. rw ec) (rw (eq, ec) (at (lookup id x.shared.jobs) (h.agrees id)))
  where
    not_queued : (st : Status) → is_running st ≡ true → is_queued st ≡ false
    not_queued queued r = cc
    not_queued _ r = refl

    at :
        (o : Option QueueJob)
        → Agrees (contains id x.shared.queue) (contains id x.claimed) o
        → Agrees (contains id x.shared.queue) (contains id x.claimed) (map_option f o)
    at none a = cc
    at (some j) a = ground (arith, c, keeps j, not_queued (f j).status, not_queued j.status)

-- A worker in its waiting loop.
pub wait_round-Inv :
    (x : System) (id phase : String) (bumped expired : Bool)
    → Inv x
    → contains id x.claimed ≡ true
    → Inv (record x { shared = (wait_round id phase bumped expired x.shared).1 })
unfolding wait_round pause resume
wait_round-Inv x id phase bumped expired h c = elim (Bool-cases (is_cancelled id x.shared)) [
  | inl e ↦ rw e h
  | inr e ↦ elim (Bool-cases (ltb 0 x.shared.active_query_count)) [
    | inl q ↦ rw (e, q) (paused bumped)
    | inr q ↦
        rw (e, q)
          (working-Inv x _ id (λ j. record j { status = running; phase = phase }) h c refl
            (queue-update_job id _ x.shared) refl (λ j. (refl, refl)))
  ]
]
  where
    paused : (b : Bool) → Inv (record x { shared = pause id phase b x.shared })
    paused true =
        working-Inv x _ id (λ j. record j { status = paused_for_queries; phase = phase }) h c refl
          (queue-update_job id _ x.shared) refl (λ j. (refl, refl))
    paused false =
        working-Inv x _ id (λ j. record j { status = paused_for_queries; phase = phase }) h c refl
          (queue-update_job id _ x.shared) refl (λ j. (refl, refl))
