-- ===== src/JobQueue/Tests.antt =====
-- The theorems on the queue at concrete queues.
use rag_pipeline_windows.Base.{
  ◌≤◌, String, true, false, some, [], ◌∷◌, ◌≡◌, ◌≢◌, ◌++◌, ◌⊎◌, keep, length, get_or_else, refl,
  contains, distinct,
}
use rag_pipeline_windows.Base.Dict.{Dict, lookup, insert}
use rag_pipeline_windows.Jobs.{QueueJob, reindex, queued, running, new_job, is_active}
use rag_pipeline_windows.JobQueue.State.{
  RagJobQueue, init, append_job_log, add_marks, ledger_remove, as_cancelled,
}
use rag_pipeline_windows.JobQueue.Enqueue.{IdentityPayload, enqueue, job_identity}
use rag_pipeline_windows.JobQueue.Cancel.{cancel_job, cancel_found, request_cancel, cancel_queued}
use rag_pipeline_windows.JobQueue.Worker.{started, as_started, pop, completed, finish_job}
use rag_pipeline_windows.JobQueue.Waiting.{wait_for_no_queries, waiting}
use rag_pipeline_windows.JobQueue.Steps.{System, enqueues, cancels, logs, Reach, here, next}
use rag_pipeline_windows.JobQueue.Lifecycle.{
  start, Place, queue_holds_the_queued, pop_takes_waiting, active_work_is_once, terminal_stays,
}
use rag_pipeline_windows.JobQueue.Patience.{
  Ended, wait_for_no_queries-Ended, wait_for_no_queries_expires,
}
use rag_pipeline_windows.JobQueue.Coalescing.{enqueue_coalesces}
use rag_pipeline_windows.JobQueue.Summary.{summary}
use rag_pipeline_windows.JobQueue.Summary.Counts.{live_count, summary_counts_live}
use rag_pipeline_windows.JobQueue.History.{prune_jobs}
use rag_pipeline_windows.JobQueue.History.Pruning.{is_live, prune_oldest_first}

-- A serialisation that keeps the name of the backup alone.
abbrev dumps : IdentityPayload → String
dumps p = p.backup_name

abbrev job_a : QueueJob
job_a = new_job "a" reindex [] "t0"

abbrev job_b : QueueJob
job_b = new_job "b" reindex [] "t1"

abbrev empty_system : System
empty_system = start 2 []

abbrev one_queued : System
one_queued = record empty_system {
  shared = (enqueue dumps true false "t1" job_a empty_system.shared).1;
}

Reach-one : Reach dumps empty_system one_queued
unfolding start init new_job
Reach-one = next here (enqueues true false "t1" job_a refl refl refl refl)

queue_holds_the_queued_example :
    (distinct one_queued.shared.queue ≡ true)
    × (distinct one_queued.claimed ≡ true)
    × Place
        (contains "a" one_queued.shared.queue)
        (contains "a" one_queued.claimed)
        (lookup "a" one_queued.shared.jobs)
queue_holds_the_queued_example = queue_holds_the_queued dumps 2 [] one_queued "a" Reach-one

summary_counts_live_example :
    ((summary one_queued.shared).active_job_count ≡ live_count one_queued.shared.jobs)
    × (contains "a" (summary one_queued.shared).running_job_ids ≡ contains "a" one_queued.claimed)
summary_counts_live_example = summary_counts_live dumps 2 [] one_queued "a" Reach-one

pop_takes_waiting_example :
    (j : QueueJob) × (lookup "a" one_queued.shared.jobs ≡ some j)
    × (j.status ≡ queued)
    × (j.cancel_requested ≡ false)
    × ((pop "t2" one_queued.shared).0 ≡ started "a")
    × ((pop "t2" one_queued.shared).1.queue ≡ [])
    × (lookup "a" (pop "t2" one_queued.shared).1.jobs ≡ some (as_started "t2" j))
unfolding start init new_job enqueue
pop_takes_waiting_example = pop_takes_waiting dumps 2 [] one_queued "t2" "a" [] Reach-one refl

abbrev id_a : String
id_a = "a"

active_work_is_once_example : id_a ≡ id_a
unfolding start init new_job enqueue lookup insert
active_work_is_once_example =
    active_work_is_once dumps 2 [] one_queued id_a id_a job_a job_a Reach-one refl refl refl refl
      refl refl refl

-- The queued job is cancelled, and then writes a line.
abbrev one_cancelled : System
one_cancelled = record one_queued { shared = (cancel_job true true "a" "t2" one_queued.shared).1 }

abbrev one_logged : System
one_logged = record one_cancelled { shared = append_job_log "a" "late" one_cancelled.shared }

Reach-cancelled : Reach dumps empty_system one_cancelled
Reach-cancelled = next Reach-one (cancels true true "a" "t2" refl)

abbrev cancelled_a : QueueJob
cancelled_a = get_or_else (lookup "a" one_cancelled.shared.jobs) job_a

abbrev logged_a : QueueJob
logged_a = get_or_else (lookup "a" one_logged.shared.jobs) job_a

terminal_stays_example :
    (logged_a.status ≡ cancelled_a.status)
    × (logged_a.error ≡ cancelled_a.error)
    × (logged_a.finished_at ≡ cancelled_a.finished_at)
unfolding start init new_job enqueue cancel_job lookup insert append_job_log cancel_found add_marks
    ledger_remove as_cancelled request_cancel cancel_queued
terminal_stays_example =
    terminal_stays dumps 2 [] one_cancelled one_logged "a" cancelled_a logged_a Reach-cancelled
      (logs "a" "late" refl) refl refl refl

abbrev job_run : QueueJob
job_run = record (new_job "r" reindex [] "t0") { status = running }

abbrev two_jobs : RagJobQueue
two_jobs = record (init 2 []) { jobs = ("r", job_run) ∷ ("b", job_b) ∷ [] }

abbrev run_done : QueueJob
run_done =
    get_or_else (lookup "r" (finish_job true true "t3" completed job_run two_jobs).jobs) job_run

wait_for_no_queries-Ended_example :
    Ended "r"
      (wait_for_no_queries "r" "Indexing" false [] two_jobs).0
      (wait_for_no_queries "r" "Indexing" false [] two_jobs).1
wait_for_no_queries-Ended_example = wait_for_no_queries-Ended "r" "Indexing" false [] two_jobs

abbrev chatting : RagJobQueue
chatting = record two_jobs { active_query_count = 1 }

wait_for_no_queries_expires_example :
    (wait_for_no_queries "r" "Indexing" true [] chatting).0 ≢ waiting
wait_for_no_queries_expires_example =
    wait_for_no_queries_expires "r" "Indexing" true [] chatting refl

enqueue_coalesces_example :
    (d : QueueJob) × (enqueue dumps true true "t2" job_b one_queued.shared ≡ (d, one_queued.shared))
    × (is_active d ≡ true)
    × (job_identity dumps d ≡ job_identity dumps job_b)
    × ((key : String) × (lookup key one_queued.shared.jobs ≡ some d))
unfolding start init new_job enqueue lookup insert
enqueue_coalesces_example =
    enqueue_coalesces dumps true true "t2" "a" job_b job_a one_queued.shared refl refl refl refl
      refl

prune_oldest_first_example :
    (older : Dict QueueJob) × (newer : Dict QueueJob) × (one_cancelled.shared.jobs ≡ older ++ newer)
    × ((prune_jobs 0 one_cancelled.shared).jobs ≡ keep is_live older ++ newer)
    × ((length (prune_jobs 0 one_cancelled.shared).jobs ≤ 0) ⊎ (newer ≡ []))
    × ((0 ≤ length (prune_jobs 0 one_cancelled.shared).jobs)
        ⊎ ((prune_jobs 0 one_cancelled.shared).jobs ≡ one_cancelled.shared.jobs))
prune_oldest_first_example = prune_oldest_first one_cancelled.shared 0
