-- ===== src/JobQueue/Preservation/Popping.antt =====
-- The invariant of the queue when a worker takes a job.
use rag_pipeline_windows.Base.{
  ◌-◌, String, true, false, Option, none, some, List, [], ◌∷◌, ◌≡◌, refl, sym, subst, arith, eq_iff,
  distinct, contains, ◌∙◌, ap,
}
use rag_pipeline_windows.Base.Dict.{lookup}
use rag_pipeline_windows.Jobs.{QueueJob, Status, queued}
use rag_pipeline_windows.JobQueue.State.{RagJobQueue, update_job, bump_state_version}
use rag_pipeline_windows.JobQueue.Worker.{Pop, idle, started, pop, pop_job, as_started}
use rag_pipeline_windows.JobQueue.Steps.{System, claim}
use rag_pipeline_windows.JobQueue.Invariant.{Inv, Inv-update_job, Agrees, is_running, is_queued}
use rag_pipeline_windows.JobQueue.Preservation.Notes.{same_jobs-Inv}

-- The first job of the queue is there, waits, and is held by no worker.
pub front_waits :
    (x : System) (id : String) (rest : List String)
    → Inv x
    → x.shared.queue ≡ id ∷ rest
    → (j : QueueJob) × (lookup id x.shared.jobs ≡ some j)
      × (j.status ≡ queued)
      × (j.cancel_requested ≡ false)
      × (contains id rest ≡ false)
      × (distinct rest ≡ true)
      × (contains id x.claimed ≡ false)
front_waits x id rest h e = at (lookup id x.shared.jobs) refl (h.agrees id)
  where
    queued_of : (st : Status) → is_queued st ≡ true → (st ≡ queued) × (is_running st ≡ false)
    queued_of queued r = (refl, refl)
    queued_of _ r = cc

    once : distinct (id ∷ rest) ≡ true
    once = rw e at h.once_queued

    front : contains id x.shared.queue ≡ true
    front = rw e (ground (arith, eq_iff id id))

    at :
        (o : Option QueueJob)
        → lookup id x.shared.jobs ≡ o
        → Agrees (contains id x.shared.queue) (contains id x.claimed) o
        → (j : QueueJob) × (lookup id x.shared.jobs ≡ some j)
          × (j.status ≡ queued)
          × (j.cancel_requested ≡ false)
          × (contains id rest ≡ false)
          × (distinct rest ≡ true)
          × (contains id x.claimed ≡ false)
    at none n a = ground (arith, front)
    at (some j) n a =
        (let q : (j.status ≡ queued) × (is_running j.status ≡ false) =
            queued_of j.status (ground (arith, front)) in
          (
            j,
            n,
            q.0,
            ground (arith, front),
            ground (arith, once),
            ground (arith, once),
            ground (arith, q.1),
          ))

pop_job_starts :
    (now id : String) (rest : List String) (s : RagJobQueue) (j : QueueJob)
    → lookup id s.jobs ≡ some j
    → j.cancel_requested ≡ false
    → pop_job now (id ∷ rest) s ≡ (
      started id,
      bump_state_version (update_job id (as_started now) (record s { queue = rest })),
    )
unfolding pop_job
pop_job_starts now id rest s j n c = ground (arith, n, c)

-- A worker takes the first job of the queue, which starts.
pub pop_starts :
    (x : System) (now id : String) (rest : List String)
    → Inv x
    → x.shared.queue ≡ id ∷ rest
    → pop now x.shared ≡ (
      started id,
      bump_state_version (update_job id (as_started now) (record (x.shared) { queue = rest })),
    )
unfolding pop
pop_starts x now id rest h e =
    let (j, n, q, c, _, _, _) = front_waits x id rest h e in
    ap (λ (l : List String). pop_job now l x.shared) e ∙ pop_job_starts now id rest x.shared j n c

pub pop_leaves :
    (x : System) (now : String)
    → x.shared.queue ≡ []
    → pop now x.shared ≡ (idle, record (x.shared) { workers = x.shared.workers - 1 })
unfolding pop pop_job
pop_leaves x now e = ap (λ (l : List String). pop_job now l x.shared) e

abbrev after_pop : System → Pop × RagJobQueue → System
after_pop x r = record { shared = r.1; claimed = claim r.0 x.claimed }

pub pop-Inv : (x : System) (now : String) → Inv x → Inv (after_pop x (pop now x.shared))
pop-Inv x now h = go x.shared.queue refl
  where
    go : (q : List String) → x.shared.queue ≡ q → Inv (after_pop x (pop now x.shared))
    go [] e =
        subst (λ r. Inv (after_pop x r)) (sym (pop_leaves x now e))
          (same_jobs-Inv x _ h refl refl refl)
    go (id ∷ rest) e =
        subst (λ r. Inv (after_pop x r)) (sym (pop_starts x now id rest h e))
          (let (j, n, q, c, once, dr, free) = front_waits x id rest h e in
            Inv-update_job x _ id (as_started now) h (unfold update_job in ground arith)
              (λ k. unfold as_started in refl) (unfold update_job in ground (arith, dr))
              (ground (arith, free, h.once_claimed))
              (λ k o. unfold update_job in ground (arith, ap (contains k) e, o))
              (λ k o. ground (arith, o))
              (rw n (unfold update_job as_started in ground (arith, once, n, eq_iff id id))))
