-- ===== src/JobQueue/Preservation/Settling.antt =====
-- The invariant of the queue when a worker settles its job.
use rag_pipeline_windows.Base.{
  String, Bool, true, false, Option, none, some, ◌≡◌, refl, arith, eq_iff, contains, without,
  contains-without, distinct-without,
}
use rag_pipeline_windows.Base.Dict.{lookup}
use rag_pipeline_windows.Jobs.{QueueJob, Status, queued, running, paused_for_queries, is_terminal}
use rag_pipeline_windows.JobQueue.State.{RagJobQueue, update_job, mark_cancelled, as_cancelled}
use rag_pipeline_windows.JobQueue.Worker.{
  Outcome, completed, job_cancelled, raised, settle, as_failed, as_done, cancel_message,
}
use rag_pipeline_windows.JobQueue.Steps.{System}
use rag_pipeline_windows.JobQueue.Invariant.{
  Inv, Inv-update_job, Agrees, map_option, is_running, is_queued,
}

-- The worker gives the job its terminal status, and no longer holds it.
settled-Inv :
    (x y : System) (id : String) (f : QueueJob → QueueJob)
    → Inv x
    → contains id x.claimed ≡ true
    → y.shared.jobs ≡ (update_job id f x.shared).jobs
    → y.shared.queue ≡ x.shared.queue
    → y.claimed ≡ without id x.claimed
    → ((j : QueueJob) → ((f j).id ≡ j.id) × (is_terminal (f j).status ≡ true))
    → Inv y
settled-Inv x y id f h c ej eq ec keeps =
    Inv-update_job x y id f h ej (λ j. (keeps j).0) (rw eq h.once_queued)
      (rw ec (distinct-without id x.claimed h.once_claimed)) (λ k _. rw eq)
      (λ k n. rw ec (ground (arith, n, contains-without id k x.claimed)))
      (rw (eq, ec) (at (lookup id x.shared.jobs) (h.agrees id)))
  where
    neither :
        (st : Status) → is_terminal st ≡ true → (is_queued st ≡ false) × (is_running st ≡ false)
    neither queued r = cc
    neither running r = cc
    neither paused_for_queries r = cc
    neither _ r = (refl, refl)

    not_queued : (st : Status) → is_running st ≡ true → is_queued st ≡ false
    not_queued queued r = cc
    not_queued _ r = refl

    at :
        (o : Option QueueJob)
        → Agrees (contains id x.shared.queue) (contains id x.claimed) o
        → Agrees (contains id x.shared.queue) (contains id (without id x.claimed)) (map_option f o)
    at none a = cc
    at (some j) a = ground (
      arith,
      c,
      keeps j,
      neither (f j).status,
      not_queued j.status,
      contains-without id id x.claimed,
      eq_iff id id,
    )

-- The assignments to the job that `settle` comes to.
abbrev pub settled_as : String → Outcome → Bool → QueueJob → QueueJob
settled_as now (job_cancelled message) requested = as_cancelled (cancel_message message) now
settled_as now (raised message true) b = as_cancelled "Job cancelled by user." now
settled_as now (raised message false) b = as_failed message now
settled_as now completed true = as_cancelled "Job cancelled by user." now
settled_as now completed false = as_done now

pub settle_lem :
    (now : String) (outcome : Outcome) (j : QueueJob) (s : RagJobQueue)
    → ((settle now outcome j s).jobs
        ≡ (update_job j.id (settled_as now outcome j.cancel_requested) s).jobs)
      × ((settle now outcome j s).queue ≡ s.queue)
      × ((settle now outcome j s).ledger ≡ s.ledger)
      × ((settle now outcome j s).marks ≡ s.marks)
unfolding settle mark_cancelled
settle_lem now outcome j s = go outcome j.cancel_requested refl
  where
    quiet :
        (f : QueueJob → QueueJob)
        → ((update_job j.id f s).queue ≡ s.queue)
          × ((update_job j.id f s).ledger ≡ s.ledger)
          × ((update_job j.id f s).marks ≡ s.marks)
    quiet f = unfold update_job in ground arith

    go :
        (o : Outcome) (b : Bool)
        → j.cancel_requested ≡ b
        → ((settle now o j s).jobs ≡ (update_job j.id (settled_as now o b) s).jobs)
          × ((settle now o j s).queue ≡ s.queue)
          × ((settle now o j s).ledger ≡ s.ledger)
          × ((settle now o j s).marks ≡ s.marks)
    go (job_cancelled message) b e =
        ground (arith, quiet (as_cancelled (cancel_message message) now))
    go (raised message true) b e = (refl, (quiet _).0, (quiet _).1, (quiet _).2)
    go (raised message false) b e = (refl, (quiet _).0, (quiet _).1, (quiet _).2)
    go completed true e = rw e (refl, (quiet _).0, (quiet _).1, (quiet _).2)
    go completed false e = rw e (refl, (quiet _).0, (quiet _).1, (quiet _).2)

pub settled_as_terminal :
    (now : String) (outcome : Outcome) (b : Bool) (j : QueueJob)
    → ((settled_as now outcome b j).id ≡ j.id)
      × (is_terminal (settled_as now outcome b j).status ≡ true)
unfolding as_cancelled as_failed as_done
settled_as_terminal now (job_cancelled message) b j = (refl, refl)
settled_as_terminal now (raised message true) b j = (refl, refl)
settled_as_terminal now (raised message false) b j = (refl, refl)
settled_as_terminal now completed true j = (refl, refl)
settled_as_terminal now completed false j = (refl, refl)

pub settle-Inv :
    (x : System) (now id : String) (outcome : Outcome) (j : QueueJob)
    → Inv x
    → contains id x.claimed ≡ true
    → lookup id x.shared.jobs ≡ some j
    → Inv (record { shared = settle now outcome j x.shared; claimed = without id x.claimed })
settle-Inv x now id outcome j h c e =
    let same : j.id ≡ id = h.own_id id j e in
    settled-Inv x _ id (settled_as now outcome j.cancel_requested) h c
      (rw (← same) ((settle_lem now outcome j x.shared).0)) (settle_lem now outcome j x.shared).1
      refl (settled_as_terminal now outcome j.cancel_requested)
