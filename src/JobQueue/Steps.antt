-- ===== src/JobQueue/Steps.antt =====
-- The interleavings of the threads that share a `RagJobQueue`: one step for each part of the code that
-- runs under the queue's lock while the server is up. `claimed` are the ids of the jobs that worker
-- threads hold at the time, between `popleft` and the terminal status. Not among the steps are a
-- graceful shutdown, and `recover_pending_uploads`, which the server runs at start-up.
use rag_pipeline_windows.Base.{
  ℕ, String, Bool, true, false, List, ◌∷◌, ◌≡◌, contains, without, some,
}
use rag_pipeline_windows.Base.Dict.{lookup, has}
use rag_pipeline_windows.Jobs.{QueueJob, queued, Json}
use rag_pipeline_windows.JobQueue.State.{
  RagJobQueue, RegistryCall, begin_query, finish_query, add_marks, ledger_remove, append_job_log,
  set_job_progress,
}
use rag_pipeline_windows.JobQueue.History.{prune_jobs}
use rag_pipeline_windows.JobQueue.Enqueue.{IdentityPayload, enqueue}
use rag_pipeline_windows.JobQueue.Cancel.{cancel_job}
use rag_pipeline_windows.JobQueue.Worker.{Pop, started, pop, Outcome, settle}
use rag_pipeline_windows.JobQueue.Waiting.{wait_round}

pub record System : Type 0 where
  pub shared : RagJobQueue
  pub claimed : List String

abbrev pub claim : Pop → List String → List String
claim (started id) ids = id ∷ ids
claim _ ids = ids

pub data Step (dumps : IdentityPayload → String) (x : System) (y : System) : Type 0 where
  query_begins : y ≡ record x { shared = begin_query x.shared } → Step dumps x y
  query_ends : y ≡ record x { shared = finish_query x.shared } → Step dumps x y
  -- an `enqueue_*` method, whose job has a fresh id
  enqueues :
      (written auto_start : Bool) (now : String) (j : QueueJob)
      → has j.id x.shared.jobs ≡ false
      → j.status ≡ queued
      → j.cancel_requested ≡ false
      → y ≡ record x { shared = (enqueue dumps written auto_start now j x.shared).1 }
      → Step dumps x y
  cancels :
      (written answers : Bool) (id now : String)
      → y ≡ record x { shared = (cancel_job written answers id now x.shared).1 }
      → Step dumps x y
  pops :
      (now : String)
      → y ≡ record { shared = (pop now x.shared).1; claimed = claim (pop now x.shared).0 x.claimed }
      → Step dumps x y
  waits :
      (id phase : String) (bumped expired : Bool)
      → contains id x.claimed ≡ true
      → y ≡ record x { shared = (wait_round id phase bumped expired x.shared).1 }
      → Step dumps x y
  settles :
      (now id : String) (outcome : Outcome) (j : QueueJob)
      → contains id x.claimed ≡ true
      → lookup id x.shared.jobs ≡ some j
      → y ≡ record { shared = settle now outcome j x.shared; claimed = without id x.claimed }
      → Step dumps x y
  logs :
      (id line : String)
      → y ≡ record x { shared = append_job_log id line x.shared }
      → Step dumps x y
  reports :
      (id : String) (payload : Json)
      → y ≡ record x { shared = set_job_progress id payload x.shared }
      → Step dumps x y
  deledgers :
      (written : Bool) (j : QueueJob)
      → y ≡ record x { shared = ledger_remove written j x.shared }
      → Step dumps x y
  marks_registry :
      (answers : Bool) (calls : List RegistryCall)
      → y ≡ record x { shared = add_marks answers calls x.shared }
      → Step dumps x y
  prunes_history :
      (limit : ℕ) → y ≡ record x { shared = prune_jobs limit x.shared } → Step dumps x y

pub data Reach (dumps : IdentityPayload → String) (x : System) : System → Type 0 where
  here : Reach dumps x x
  next : {y z : System} → Reach dumps x y → Step dumps y z → Reach dumps x z
