-- ===== src/JobQueue/Patience.antt =====
-- How the wait for active queries ends.
use rag_pipeline_windows.Base.{
  ◌<◌, ltb, String, Bool, true, false, Option, none, some, List, [], ◌∷◌, any, if◌then◌else◌, ◌≡◌,
  ◌≢◌, refl, sym, subst, ◌⊎◌, inl, inr, arith, eq_iff, Option-cases, Bool-cases, ◌||◌,
}
use rag_pipeline_windows.Base.Dict.{lookup}
use rag_pipeline_windows.Jobs.{QueueJob, Status, running, paused_for_queries}
use rag_pipeline_windows.JobQueue.State.{RagJobQueue, update_job}
use rag_pipeline_windows.JobQueue.Waiting.{
  Poll, WaitResult, proceed, stopped, timed_out, waiting, go_on, is_cancelled, wait_round,
  wait_loop, wait_for_no_queries, pause, resume,
}
use rag_pipeline_windows.JobQueue.Invariant.{lookup-update_job}

abbrev pub status_of : String → RagJobQueue → Option Status
status_of id s = elim (lookup id s.jobs) [ none ↦ none | some j ↦ some j.status ]

-- What holds when the wait ends with this result.
abbrev pub Ended : String → WaitResult → RagJobQueue → Type 0
Ended id proceed s =
    (s.active_query_count ≡ 0)
    × (is_cancelled id s ≡ false)
    × ((status_of id s ≡ none) ⊎ (status_of id s ≡ some running))
Ended id stopped s = is_cancelled id s ≡ true
Ended id timed_out s =
    (0 < s.active_query_count)
    × (is_cancelled id s ≡ false)
    × ((status_of id s ≡ none) ⊎ (status_of id s ≡ some paused_for_queries))
Ended id waiting s =
    (0 < s.active_query_count)
    × (is_cancelled id s ≡ false)
    × ((status_of id s ≡ none) ⊎ (status_of id s ≡ some paused_for_queries))

-- An assignment of a status leaves the request to cancel alone.
assign_lem :
    (id : String) (f : QueueJob → QueueJob) (st : Status) (s : RagJobQueue)
    → ((j : QueueJob)
        → ((f j).status ≡ st)
          × ((f j).cancel_requested ≡ j.cancel_requested)
          × ((f j).cancel_event ≡ j.cancel_event))
    → (is_cancelled id (update_job id f s) ≡ is_cancelled id s)
      × ((status_of id (update_job id f s) ≡ none) ⊎ (status_of id (update_job id f s) ≡ some st))
      × ((update_job id f s).active_query_count ≡ s.active_query_count)
unfolding is_cancelled
assign_lem id f st s keeps = elim (Option-cases (lookup id s.jobs)) [
  | inl n ↦ (
    ground (arith, n, lookup-update_job id id f s, eq_iff id id),
    inl (ground (arith, n, lookup-update_job id id f s, eq_iff id id)),
    unfold update_job in ground arith,
  )
  | inr (j, n) ↦ (
    ground (arith, n, lookup-update_job id id f s, eq_iff id id, keeps j),
    inr (ground (arith, n, lookup-update_job id id f s, eq_iff id id, keeps j)),
    unfold update_job in ground arith,
  )
]

pause_lem :
    (id phase : String) (b : Bool) (s : RagJobQueue)
    → (is_cancelled id (pause id phase b s) ≡ is_cancelled id s)
      × ((status_of id (pause id phase b s) ≡ none)
          ⊎ (status_of id (pause id phase b s) ≡ some paused_for_queries))
      × ((pause id phase b s).active_query_count ≡ s.active_query_count)
pause_lem id phase true s =
    unfold pause is_cancelled in
    assign_lem id (λ j. record j { status = paused_for_queries; phase = phase }) paused_for_queries
      s (λ j. (refl, refl, refl))
pause_lem id phase false s =
    unfold pause is_cancelled in
    assign_lem id (λ j. record j { status = paused_for_queries; phase = phase }) paused_for_queries
      s (λ j. (refl, refl, refl))

resume_lem :
    (id phase : String) (s : RagJobQueue)
    → (is_cancelled id (resume id phase s) ≡ is_cancelled id s)
      × ((status_of id (resume id phase s) ≡ none)
          ⊎ (status_of id (resume id phase s) ≡ some running))
      × ((resume id phase s).active_query_count ≡ s.active_query_count)
resume_lem id phase s =
    unfold resume is_cancelled in
    assign_lem id (λ j. record j { status = running; phase = phase }) running s
      (λ j. (refl, refl, refl))

-- One round, by its branches.
round_lem :
    (id phase : String) (b e : Bool) (s : RagJobQueue)
    → wait_round id phase b e s ≡ (
        if is_cancelled id s
        then (stopped, s)
        else if ltb 0 s.active_query_count
        then (if e then timed_out else waiting, pause id phase b s)
        else (proceed, resume id phase s))
round_lem id phase b e s = unfold wait_round in refl

round_Ended :
    (id phase : String) (b e : Bool) (s : RagJobQueue)
    → Ended id (wait_round id phase b e s).0 (wait_round id phase b e s).1
round_Ended id phase b e s = elim (Bool-cases (is_cancelled id s)) [
  | inl c ↦ rw (round_lem id phase b e s, c) c
  | inr c ↦ elim (Bool-cases (ltb 0 s.active_query_count)) [
    | inr q ↦ rw (round_lem id phase b e s, c, q) (ground (arith, q, c, resume_lem id phase s))
    | inl q ↦ rw (round_lem id phase b e s, c, q) (paused e c (ground (arith, q)))
  ]
]
  where
    paused :
        (w : Bool)
        → (is_cancelled id s ≡ false)
        → (0 < s.active_query_count)
        → Ended id (if w then timed_out else waiting) (pause id phase b s)
    paused true c q = ground (arith, pause_lem id phase b s)
    paused false c q = ground (arith, pause_lem id phase b s)

-- The loop goes on with the next round only while it waits.
after_round :
    (id : String) (r next : WaitResult × RagJobQueue)
    → Ended id r.0 r.1
    → Ended id next.0 next.1
    → Ended id (go_on r next).0 (go_on r next).1
after_round id (proceed, s) next h n = h
after_round id (stopped, s) next h n = h
after_round id (timed_out, s) next h n = h
after_round id (waiting, s) next h n = n

loop_Ended :
    (id phase : String) (b e : Bool) (polls : List Poll) (s : RagJobQueue)
    → Ended id (wait_loop id phase b e polls s).0 (wait_loop id phase b e polls s).1
unfolding wait_loop
loop_Ended id phase b e [] s = round_Ended id phase b e s
loop_Ended id phase b e (p ∷ rest) s =
    after_round id (wait_round id phase b e s)
      (wait_loop id phase true p.expired rest (p.others (wait_round id phase b e s).1))
      (round_Ended id phase b e s)
      (loop_Ended id phase true p.expired rest (p.others (wait_round id phase b e s).1))

-- Once the deadline has passed at a test, no later poll is needed.
expired_ends :
    (r : WaitResult × RagJobQueue) (next : WaitResult × RagJobQueue)
    → (r.0 ≢ waiting) ⊎ (next.0 ≢ waiting)
    → (go_on r next).0 ≢ waiting
expired_ends (proceed, s) next h = λ q. ground (arith, q)
expired_ends (stopped, s) next h = λ q. ground (arith, q)
expired_ends (timed_out, s) next h = λ q. ground (arith, q)
expired_ends (waiting, s) next (inl h) = λ q. h refl
expired_ends (waiting, s) next (inr h) = h

round_expired :
    (id phase : String) (b : Bool) (s : RagJobQueue) → (wait_round id phase b true s).0 ≢ waiting
round_expired id phase b s = elim (Bool-cases (is_cancelled id s)) [
  | inl c ↦ rw (round_lem id phase b true s, c) (λ q. ground (arith, q))
  | inr c ↦ elim (Bool-cases (ltb 0 s.active_query_count)) [
    | inr q ↦ rw (round_lem id phase b true s, c, q) (λ p. ground (arith, p))
    | inl q ↦ rw (round_lem id phase b true s, c, q) (λ p. ground (arith, p))
  ]
]

loop_expires :
    (id phase : String) (b e : Bool) (polls : List Poll) (s : RagJobQueue)
    → (e || any (λ p. p.expired) polls) ≡ true
    → (wait_loop id phase b e polls s).0 ≢ waiting
unfolding wait_loop
loop_expires id phase true true [] s h = round_expired id phase true s
loop_expires id phase false true [] s h = round_expired id phase false s
loop_expires id phase b true (p ∷ rest) s h =
    expired_ends (wait_round id phase b true s)
      (wait_loop id phase true p.expired rest (p.others (wait_round id phase b true s).1))
      (inl (round_expired id phase b s))
loop_expires id phase b false [] s h = ground arith
loop_expires id phase b false (p ∷ rest) s h =
    expired_ends (wait_round id phase b false s)
      (wait_loop id phase true p.expired rest (p.others (wait_round id phase b false s).1))
      (inr
        (loop_expires id phase true p.expired rest (p.others (wait_round id phase b false s).1) h))

stopped_at_once :
    (id phase : String) (expired : Bool) (polls : List Poll) (s : RagJobQueue)
    → is_cancelled id s ≡ true
    → wait_for_no_queries id phase expired polls s ≡ (stopped, s)
stopped_at_once id phase expired polls s c = unfold wait_for_no_queries in ground (arith, c)

goes_to_loop :
    (id phase : String) (expired : Bool) (polls : List Poll) (s : RagJobQueue)
    → is_cancelled id s ≡ false
    → wait_for_no_queries id phase expired polls s
      ≡ wait_loop id phase false expired polls (update_job id (λ j. record j { phase = phase }) s)
goes_to_loop id phase expired polls s c = unfold wait_for_no_queries in ground (arith, c)

-- Whatever the other threads do while the lock is released, the wait of `_wait_for_no_queries` ends in
-- one of three ways, or it still waits. It returns only when no chat is active and the job is not
-- cancelled, and the job, when it is registered, is then running; it raises `JobCancelled` only
-- when the job is cancelled; it raises the watchdog's error, or still waits, only while a chat is
-- active, with the job, when it is registered, paused for queries.
pub wait_for_no_queries-Ended :
    (id phase : String) (expired : Bool) (polls : List Poll) (s : RagJobQueue)
    → Ended id
        (wait_for_no_queries id phase expired polls s).0
        (wait_for_no_queries id phase expired polls s).1
wait_for_no_queries-Ended id phase expired polls s = elim (Bool-cases (is_cancelled id s)) [
  | inl c ↦ subst (λ r. Ended id r.0 r.1) (sym (stopped_at_once id phase expired polls s c)) c
  | inr c ↦
      subst (λ r. Ended id r.0 r.1) (sym (goes_to_loop id phase expired polls s c))
        (loop_Ended id phase false expired polls
          (update_job id (λ j. record j { phase = phase }) s))
]

-- The wait is bounded: once the deadline has passed at one of its tests, `_wait_for_no_queries` no
-- longer waits, whatever the other threads do.
pub wait_for_no_queries_expires :
    (id phase : String) (expired : Bool) (polls : List Poll) (s : RagJobQueue)
    → (expired || any (λ p. p.expired) polls) ≡ true
    → (wait_for_no_queries id phase expired polls s).0 ≢ waiting
wait_for_no_queries_expires id phase expired polls s h = elim (Bool-cases (is_cancelled id s)) [
  | inl c ↦
      subst (λ r. r.0 ≢ waiting) (sym (stopped_at_once id phase expired polls s c))
        (λ q. ground (arith, q))
  | inr c ↦
      subst (λ r. r.0 ≢ waiting) (sym (goes_to_loop id phase expired polls s c))
        (loop_expires id phase false expired polls
          (update_job id (λ j. record j { phase = phase }) s) h)
]
