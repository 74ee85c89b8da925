-- ===== src/JobQueue/Invariant.antt =====
-- The invariant of the queue, and that every operation keeps it.
use rag_pipeline_windows.Base.{
  ◌==◌, String, Bool, true, false, Option, none, some, if◌then◌else◌, ◌≡◌, inl, inr, arith, eq_iff,
  distinct, contains, Option-cases, Bool-cases,
}
use rag_pipeline_windows.Base.Dict.{
  lookup, keys, lookup-insert, distinct-insert, insert-insert_self,
}
use rag_pipeline_windows.Jobs.{QueueJob, Status, queued, running, paused_for_queries}
use rag_pipeline_windows.JobQueue.State.{RagJobQueue, update_job}
use rag_pipeline_windows.JobQueue.Steps.{System}

abbrev pub is_running : Status → Bool
is_running running = true
is_running paused_for_queries = true
is_running _ = false

abbrev pub is_queued : Status → Bool
is_queued queued = true
is_queued _ = false

-- What the queue, the jobs and the workers say of one id.
abbrev pub Agrees : Bool → Bool → Option QueueJob → Type 0
Agrees in_queue in_worker none = (in_queue ≡ false) × (in_worker ≡ false)
Agrees in_queue in_worker (some j) =
    (in_queue ≡ is_queued j.status)
    × (in_worker ≡ is_running j.status)
    × (is_queued j.status ≡ true → j.cancel_requested ≡ false)

pub record Inv (x : System) : Type 0 where
  pub no_two_keys : distinct (keys x.shared.jobs) ≡ true
  pub once_queued : distinct x.shared.queue ≡ true
  pub once_claimed : distinct x.claimed ≡ true
  pub own_id : (id : String) (j : QueueJob) → lookup id x.shared.jobs ≡ some j → j.id ≡ id
  pub agrees :
      (id : String)
      → Agrees (contains id x.shared.queue) (contains id x.claimed) (lookup id x.shared.jobs)

abbrev pub map_option : (QueueJob → QueueJob) → Option QueueJob → Option QueueJob
map_option f none = none
map_option f (some j) = some (f j)

pub lookup-update_job :
    (id k : String) (f : QueueJob → QueueJob) (s : RagJobQueue)
    → lookup k (update_job id f s).jobs
      ≡ (if id == k then map_option f (lookup k s.jobs) else lookup k s.jobs)
unfolding update_job
lookup-update_job id k f s = elim (Option-cases (lookup id s.jobs)) [
  | inl e ↦ ground (arith, e, eq_iff id k)
  | inr (j, e) ↦ ground (arith, e, eq_iff id k, lookup-insert id k (f j) s.jobs)
]

pub distinct-update_job :
    (id : String) (f : QueueJob → QueueJob) (s : RagJobQueue)
    → distinct (keys s.jobs) ≡ true
    → distinct (keys (update_job id f s).jobs) ≡ true
unfolding update_job
distinct-update_job id f s h = elim (Option-cases (lookup id s.jobs)) [
  | inl e ↦ ground (arith, e)
  | inr (j, e) ↦ ground (arith, e, distinct-insert id (f j) s.jobs)
]

-- Two assignments to one job are one.
pub update_job_twice :
    (id : String) (f g : QueueJob → QueueJob) (s t : RagJobQueue)
    → t.jobs ≡ (update_job id f s).jobs
    → (update_job id g t).jobs ≡ (update_job id (λ k. g (f k)) s).jobs
unfolding update_job
update_job_twice id f g s t e = elim (Option-cases (lookup id s.jobs)) [
  | inl n ↦ ground (arith, n, e)
  | inr (j, n) ↦ ground (
    arith,
    n,
    e,
    eq_iff id id,
    lookup-insert id id (f j) s.jobs,
    insert-insert_self id (f j) (g (f j)) s.jobs,
  )
]

pub queue-update_job :
    (id : String) (f : QueueJob → QueueJob) (s : RagJobQueue) → (update_job id f s).queue ≡ s.queue
unfolding update_job
queue-update_job id f s = ground arith

abbrev pub AgreesAt : System → String → Type 0
AgreesAt x id =
    Agrees (contains id x.shared.queue) (contains id x.claimed) (lookup id x.shared.jobs)

-- The invariant after an assignment to the job `id`, where the queue and the claims change at most at
-- that id.
pub Inv-update_job :
    (x y : System) (id : String) (f : QueueJob → QueueJob)
    → Inv x
    → y.shared.jobs ≡ (update_job id f x.shared).jobs
    → ((j : QueueJob) → (f j).id ≡ j.id)
    → distinct y.shared.queue ≡ true
    → distinct y.claimed ≡ true
    → ((k : String) → (id == k) ≡ false → contains k y.shared.queue ≡ contains k x.shared.queue)
    → ((k : String) → (id == k) ≡ false → contains k y.claimed ≡ contains k x.claimed)
    → Agrees
        (contains id y.shared.queue)
        (contains id y.claimed)
        (map_option f (lookup id x.shared.jobs))
    → Inv y
Inv-update_job x y id f h ej keeps dq dc sq sc at = record {
  no_two_keys = rw ej (distinct-update_job id f x.shared h.no_two_keys);
  once_queued = dq;
  once_claimed = dc;
  own_id = owns;
  agrees = agree;
}
  where
    seen :
        (k : String)
        → lookup k y.shared.jobs
          ≡ (if id == k then map_option f (lookup k x.shared.jobs) else lookup k x.shared.jobs)
    seen k = rw ej (lookup-update_job id k f x.shared)

    owns : (k : String) (j : QueueJob) → lookup k y.shared.jobs ≡ some j → j.id ≡ k
    owns k j e = elim (Option-cases (lookup k x.shared.jobs)) [
      | inl n ↦ ground (arith, n, seen k)
      | inr (i, n) ↦ ground (arith, n, seen k, keeps i, h.own_id k i n)
    ]

    agree : (k : String) → AgreesAt y k
    agree k = elim (Bool-cases (id == k)) [
      | inl same ↦ (let e : id ≡ k = (eq_iff id k).0 same in rw (seen k, same) (rw e at at))
      | inr other ↦ rw (seen k, other, sq k other, sc k other) (h.agrees k)
    ]
