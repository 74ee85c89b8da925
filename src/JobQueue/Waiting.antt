-- ===== src/JobQueue/Waiting.antt =====
-- `_wait_for_no_queries`: an index job waits until no chat is active, until it is cancelled, or until
-- its deadline passes. The lock is released in `wait(timeout=0.2)`: what the other threads do there is
-- `others`, and `expired` says whether the deadline has passed at the test after it.
use rag_pipeline_windows.Base.{
  ltb, String, Bool, true, false, ◌||◌, none, some, List, [], ◌∷◌, if◌then◌else◌,
}
use rag_pipeline_windows.Base.Dict.{lookup}
use rag_pipeline_windows.Jobs.{running, paused_for_queries}
use rag_pipeline_windows.JobQueue.State.{RagJobQueue, bump_state_version, update_job}

pub record Poll : Type 0 where
  pub expired : Bool
  pub others : RagJobQueue → RagJobQueue

pub data WaitResult : Type 0 where
  -- it returned: the job may go on
  proceed : WaitResult
  -- `JobCancelled`
  stopped : WaitResult
  -- `RuntimeError`: the watchdog
  timed_out : WaitResult
  -- still in the loop when the given polls are used up
  waiting : WaitResult

-- `_raise_if_cancelled`
unfoldable pub is_cancelled : String → RagJobQueue → Bool
is_cancelled id s = elim (lookup id s.jobs) [
  | none ↦ false
  | some j ↦ j.cancel_requested || j.cancel_event
]

unfoldable pub pause : String → String → Bool → RagJobQueue → RagJobQueue
unfolding update_job
pause id phase bumped s =
    let s₁ = update_job id (λ j. record j { status = paused_for_queries; phase = phase }) s in
    if bumped then s₁ else bump_state_version s₁

unfoldable pub resume : String → String → RagJobQueue → RagJobQueue
unfolding update_job
resume id phase s =
    bump_state_version (update_job id (λ j. record j { status = running; phase = phase }) s)

-- One round under the lock, from the test of the loop to `wait`, or past the loop to the end.
unfoldable pub wait_round : String → String → Bool → Bool → RagJobQueue → WaitResult × RagJobQueue
unfolding is_cancelled pause resume
wait_round id phase bumped expired s =
    if is_cancelled id s
    then (stopped, s)
    else if ltb 0 s.active_query_count
    then (if expired then timed_out else waiting, pause id phase bumped s)
    else (proceed, resume id phase s)

-- A round that waited is followed by the next one; any other leaves the loop.
abbrev pub go_on : WaitResult × RagJobQueue → WaitResult × RagJobQueue → WaitResult × RagJobQueue
go_on (waiting, _) next = next
go_on (proceed, s) next = (proceed, s)
go_on (stopped, s) next = (stopped, s)
go_on (timed_out, s) next = (timed_out, s)

unfoldable pub wait_loop :
    String → String → Bool → Bool → List Poll → RagJobQueue → WaitResult × RagJobQueue
unfolding wait_round
wait_loop id phase bumped expired [] s = wait_round id phase bumped expired s
wait_loop id phase bumped expired (p ∷ rest) s =
    let r = wait_round id phase bumped expired s in
    let next = wait_loop id phase true p.expired rest (p.others r.1) in go_on r next

unfoldable pub wait_for_no_queries :
    String → String → Bool → List Poll → RagJobQueue → WaitResult × RagJobQueue
unfolding wait_loop is_cancelled update_job
wait_for_no_queries id phase expired polls s =
    if is_cancelled id s
    then (stopped, s)
    else wait_loop id phase false expired polls (update_job id (λ j. record j { phase = phase }) s)
