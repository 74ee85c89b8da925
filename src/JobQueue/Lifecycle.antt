-- ===== src/JobQueue/Lifecycle.antt =====
-- The life of a job under every interleaving: it waits in the queue once, is started from there, and
-- keeps its terminal status.
use rag_pipeline_windows.Base.{
  ℕ, String, Bool, true, false, Option, none, some, List, [], ◌∷◌, ◌≡◌, refl, arith, eq_iff,
  distinct, contains, ◌∙◌, ap,
}
use rag_pipeline_windows.Base.Dict.{
  Dict, lookup, insert, has-lookup, lookup-insert, distinct-insert,
}
use rag_pipeline_windows.Jobs.{QueueJob, queued, is_terminal, is_active, is_upload}
use rag_pipeline_windows.Ledger.{LedgerEntry}
use rag_pipeline_windows.JobQueue.State.{RagJobQueue, init}
use rag_pipeline_windows.JobQueue.History.Pruning.{lookup-prune_loop}
use rag_pipeline_windows.JobQueue.Enqueue.{IdentityPayload, job_identity}
use rag_pipeline_windows.JobQueue.Worker.{Pop, pop, started, as_started}
use rag_pipeline_windows.JobQueue.Steps.{System, Step, Reach}
use rag_pipeline_windows.JobQueue.Invariant.{
  Inv, Agrees, is_queued, is_running, lookup-update_job, queue-update_job,
}
use rag_pipeline_windows.JobQueue.Preservation.{Reach-Inv, front_waits, pop_starts}
use rag_pipeline_windows.JobQueue.Coalescing.{Reach-OneActive}
use rag_pipeline_windows.JobQueue.Effects.{
  Effect, unchanged, assigned, pruned, entered, Step-Effect,
}

-- The system as a new server starts it: no job, no worker.
unfoldable pub start : ℕ → Dict LedgerEntry → System
unfolding init
start max_workers ledger = record { shared = init max_workers ledger; claimed = [] }

pub start-Inv : (n : ℕ) (l : Dict LedgerEntry) → Inv (start n l)
unfolding start lookup
start-Inv n l = record {
  no_two_keys = refl;
  once_queued = refl;
  once_claimed = refl;
  own_id = λ id j e. cc;
  agrees = λ id. (refl, refl);
}

-- What the queue and the workers must say of a job with this status.
abbrev pub Place : Bool → Bool → Option QueueJob → Type 0
Place in_queue in_worker none = (in_queue ≡ false) × (in_worker ≡ false)
Place in_queue in_worker (some j) =
    (in_queue ≡ is_queued j.status) × (in_worker ≡ is_running j.status)

module _ (dumps : IdentityPayload → String) where
  -- Whatever the threads do from the start of the server, no id stands twice in the queue, and an id
  -- stands in the queue exactly when its job is in the table with the status `queued`, and is held by
  -- a worker exactly when its job is there and running or paused. So no queued job is ever lost and no
  -- two workers hold one job.
  pub queue_holds_the_queued :
      (n : ℕ) (l : Dict LedgerEntry) (y : System) (id : String)
      → Reach dumps (start n l) y
      → (distinct y.shared.queue ≡ true)
        × (distinct y.claimed ≡ true)
        × Place (contains id y.shared.queue) (contains id y.claimed) (lookup id y.shared.jobs)
  queue_holds_the_queued n l y id r =
      let h : Inv y = Reach-Inv dumps (start-Inv n l) r in
      (h.once_queued, h.once_claimed, place _ _ (lookup id y.shared.jobs) (h.agrees id))
    where
      place : (a b : Bool) (o : Option QueueJob) → Agrees a b o → Place a b o
      place a b none h = h
      place a b (some j) h = (h.0, h.1)

  -- A worker that finds a job in the queue never meets a missing or a cancelled one: the first id is
  -- taken off the queue, and its job, which was queued, runs.
  pub pop_takes_waiting :
      (m : ℕ) (l : Dict LedgerEntry) (y : System) (now id : String) (rest : List String)
      → Reach dumps (start m l) y
      → y.shared.queue ≡ id ∷ rest
      → (j : QueueJob) × (lookup id y.shared.jobs ≡ some j)
        × (j.status ≡ queued)
        × (j.cancel_requested ≡ false)
        × ((pop now y.shared).0 ≡ started id)
        × ((pop now y.shared).1.queue ≡ rest)
        × (lookup id (pop now y.shared).1.jobs ≡ some (as_started now j))
  pop_takes_waiting m l y now id rest r e =
      let h : Inv y = Reach-Inv dumps (start-Inv m l) r in
      let (j, n, q, c, _, _, _) = front_waits y id rest h e in
      let p = pop_starts y now id rest h e in
      let taken = record (y.shared) { queue = rest } in
      (
        j,
        n,
        q,
        c,
        ap (λ (v : Pop × RagJobQueue). v.0) p,
        ap (λ (v : Pop × RagJobQueue). v.1.queue) p ∙ queue-update_job id (as_started now) taken,
        ap (λ (v : Pop × RagJobQueue). lookup id v.1.jobs) p
            ∙ ground (arith, n, lookup-update_job id id (as_started now) taken, eq_iff id id),
      )

  -- However the threads interleave, two active jobs that are not uploads and have the same identity
  -- are one job: equivalent work is never scheduled twice.
  pub active_work_is_once :
      (n : ℕ) (l : Dict LedgerEntry) (y : System) (a b : String) (i j : QueueJob)
      → Reach dumps (start n l) y
      → lookup a y.shared.jobs ≡ some i
      → lookup b y.shared.jobs ≡ some j
      → is_active i ≡ true
      → is_active j ≡ true
      → is_upload i.kind ≡ false
      → is_upload j.kind ≡ false
      → job_identity dumps i ≡ job_identity dumps j
      → a ≡ b
  active_work_is_once n l y a b i j r =
      Reach-OneActive dumps (start n l) y r (start-Inv n l) (unfold start lookup in λ a b i j p. cc)
        a b i j

  -- A step of any thread, from any state that the server can reach, changes neither the status nor the
  -- error nor the end of a terminal job that is still in the history after it.
  pub terminal_stays :
      (n : ℕ) (l : Dict LedgerEntry) (x y : System) (id : String) (j k : QueueJob)
      → Reach dumps (start n l) x
      → Step dumps x y
      → lookup id x.shared.jobs ≡ some j
      → is_terminal j.status ≡ true
      → lookup id y.shared.jobs ≡ some k
      → (k.status ≡ j.status) × (k.error ≡ j.error) × (k.finished_at ≡ j.finished_at)
  terminal_stays n l x y id j k r st e t f =
      by_effect (Step-Effect dumps x y st (Reach-Inv dumps (start-Inv n l) r))
    where
      by_effect :
          Effect dumps x.shared y.shared.jobs
          → (k.status ≡ j.status) × (k.error ≡ j.error) × (k.finished_at ≡ j.finished_at)
      by_effect (unchanged m) = ground (arith, e, f, m)
      by_effect (assigned i a b q see moves) =
          ground (arith, e, f, q, see id, moves.settled, t, eq_iff i id)
      by_effect (pruned c z u m) =
          ground (arith, e, f, m, lookup-prune_loop c z x.shared.jobs id k u)
      by_effect (entered c z i fresh u none_active m) = ground (
        arith,
        e,
        f,
        m,
        lookup-prune_loop c z (insert i.id i x.shared.jobs) id k
            (distinct-insert i.id i x.shared.jobs u),
        lookup-insert i.id id i x.shared.jobs,
        eq_iff i.id id,
        has-lookup i.id x.shared.jobs,
        fresh,
      )
