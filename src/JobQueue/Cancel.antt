-- ===== src/JobQueue/Cancel.antt =====
-- `cancel_job` and `shutdown_finalize`.
use rag_pipeline_windows.Base.{
  String, Bool, true, false, ◌||◌, none, some, List, [], ◌∷◌, if◌then◌else◌, without,
}
use rag_pipeline_windows.Base.Dict.{Dict, lookup}
use rag_pipeline_windows.Jobs.{QueueJob, Status, queued, is_terminal}
use rag_pipeline_windows.JobQueue.State.{
  RagJobQueue, as_cancelled, bump_state_version, update_job, mark_cancelled, interrupted_marks,
  add_marks, ledger_remove, is_nil,
}

-- `job.cancel_requested = True; job._cancel_event.set()`
unfoldable pub request_cancel : QueueJob → QueueJob
request_cancel j = record j { cancel_requested = true; cancel_event = true }

pub data CancelReply : Type 0 where
  -- `KeyError`
  unknown_job : CancelReply
  -- `ValueError`: the job has this terminal status
  already : Status → CancelReply
  -- the job that `to_dict` serialises
  accepted : QueueJob → CancelReply
  -- an exception of the registry
  registry_error : CancelReply

-- The job that was waiting in the queue: `_queue` without it, and the job cancelled.
unfoldable pub cancel_queued : String → String → RagJobQueue → RagJobQueue
unfolding request_cancel mark_cancelled update_job
cancel_queued id now s =
    let s₁ = update_job id request_cancel s in
    mark_cancelled id "Job cancelled by user." now (record s₁ { queue = without id s₁.queue })

-- The job that a worker runs: the request is left for its next checkpoint.
unfoldable pub as_cancelling : QueueJob → QueueJob
as_cancelling j = record j { error = some "Cancellation requested." }

unfoldable pub cancel_running : String → RagJobQueue → RagJobQueue
unfolding as_cancelling request_cancel update_job
cancel_running id s = update_job id (λ j. as_cancelling (request_cancel j)) s

-- `status == "queued"`
abbrev pub is_queued : Status → Bool
is_queued queued = true
is_queued _ = false

-- The branches of `cancel_job` on the job `j` that `_jobs` holds under `id`. The registry calls are
-- not guarded here: an exception of the registry is the reply, after the state has changed.
unfoldable pub cancel_found :
    Bool → Bool → String → String → QueueJob → RagJobQueue → CancelReply × RagJobQueue
cancel_found written answers id now j s =
    if is_terminal j.status
    then (already j.status, s)
    else if is_queued j.status
    then (let k = as_cancelled "Job cancelled by user." now (request_cancel j) in
        let calls = interrupted_marks k "Job cancelled by user." in
        (
          if answers || is_nil calls then accepted k else registry_error,
          add_marks answers calls (ledger_remove written k (cancel_queued id now s)),
        ))
    else (accepted (as_cancelling (request_cancel j)), cancel_running id s)

-- `cancel_job`
unfoldable pub cancel_job : Bool → Bool → String → String → RagJobQueue → CancelReply × RagJobQueue
cancel_job written answers id now s = elim (lookup id s.jobs) [
  | none ↦ (unknown_job, s)
  | some j ↦ cancel_found written answers id now j s
]

-- The first locked part of `shutdown_finalize`: the ids of the active jobs, whose cancellation is
-- requested.
unfoldable pub active_ids : Dict QueueJob → List String
active_ids [] = []
active_ids ((id, j) ∷ rest) =
    let ids = active_ids rest in if is_terminal j.status then ids else id ∷ ids

unfoldable pub request_all : List String → RagJobQueue → RagJobQueue
unfolding request_cancel update_job
request_all [] s = s
request_all (id ∷ ids) s = request_all ids (update_job id request_cancel s)

unfoldable pub shutdown_request : RagJobQueue → List String × RagJobQueue
unfolding request_all active_ids
shutdown_request s =
    let ids = active_ids s.jobs in
    (ids, if is_nil ids then s else bump_state_version (request_all ids s))

-- The last locked part: the stragglers among `ids` are cancelled by force. The result also names them.
unfoldable pub shutdown_force :
    String → String → List String → RagJobQueue → List String × RagJobQueue
unfolding mark_cancelled
shutdown_force reason now [] s = ([], s)
shutdown_force reason now (id ∷ ids) s =
    let forced = shutdown_force reason now ids (mark_cancelled id reason now s) in
    let rest = shutdown_force reason now ids s in
    elim (lookup id s.jobs) [
      | none ↦ rest
      | some j ↦ if is_terminal j.status then rest else (id ∷ forced.0, forced.1)
    ]

-- The best-effort bookkeeping for the forced jobs
unfoldable pub shutdown_bookkeeping : Bool → Bool → String → List String → RagJobQueue → RagJobQueue
unfolding interrupted_marks add_marks ledger_remove
shutdown_bookkeeping written answers reason [] s = s
shutdown_bookkeeping written answers reason (id ∷ ids) s =
    shutdown_bookkeeping written answers reason ids (elim (lookup id s.jobs) [
      | none ↦ s
      | some j ↦ ledger_remove written j (add_marks answers (interrupted_marks j reason) s)
    ])
