-- ===== src/JobQueue/Summary/Counts.antt =====
-- What `summary` counts, under the invariant of the queue.
use rag_pipeline_windows.Base.{
  ℕ, suc, ◌+◌, String, Bool, true, false, Option, none, some, List, [], ◌∷◌, length, if◌then◌else◌,
  ◌≡◌, refl, sym, ◌∙◌, arith, eq_iff, contains, distinct, without, contains-without,
  distinct-without,
}
use rag_pipeline_windows.Base.Dict.{Dict, lookup, keys, has-lookup}
use rag_pipeline_windows.Jobs.{QueueJob, is_terminal}
use rag_pipeline_windows.Ledger.{LedgerEntry}
use rag_pipeline_windows.JobQueue.Enqueue.{IdentityPayload}
use rag_pipeline_windows.JobQueue.Steps.{System, Reach}
use rag_pipeline_windows.JobQueue.Invariant.{Inv, is_queued, Agrees}
use rag_pipeline_windows.JobQueue.Preservation.{Reach-Inv}
use rag_pipeline_windows.JobQueue.Lifecycle.{start, start-Inv}
use rag_pipeline_windows.JobQueue.Summary.{runs, ids_where, summary}

-- The jobs that have not ended.
unfoldable pub live_count : Dict QueueJob → ℕ
live_count [] = 0
live_count ((_, j) ∷ jobs) =
    let rest = live_count jobs in if is_terminal j.status then rest else suc rest

unfoldable queued_count : Dict QueueJob → ℕ
queued_count [] = 0
queued_count ((_, j) ∷ jobs) =
    let rest = queued_count jobs in if is_queued j.status then suc rest else rest

live_lem : (m : Dict QueueJob) → live_count m ≡ length (ids_where runs m) + queued_count m
unfolding live_count queued_count ids_where
live_lem [] = refl
live_lem ((k, j) ∷ m) = ground (arith, live_lem m)

abbrev waits_at : Option QueueJob → Bool
waits_at none = false
waits_at (some j) = is_queued j.status

length-without :
    (k : String) (q : List String)
    → distinct q ≡ true
    → length q ≡ (if contains k q then suc (length (without k q)) else length (without k q))
length-without k [] d = refl
length-without k (x ∷ q) d =
    ground (arith, d, length-without k q, eq_iff x k, contains-without k k q)

none_in : (q : List String) → ((k : String) → contains k q ≡ false) → length q ≡ 0
none_in [] h = refl
none_in (x ∷ q) h = ground (arith, h x, eq_iff x x)

-- A list of different ids that has an id exactly when its job is queued is as long as there are queued jobs.
counted :
    (m : Dict QueueJob) (q : List String)
    → distinct q ≡ true
    → distinct (keys m) ≡ true
    → ((k : String) → contains k q ≡ waits_at (lookup k m))
    → length q ≡ queued_count m
unfolding queued_count lookup
counted [] q d u h = none_in q h
counted ((id, j) ∷ m) q d u h = ground (
  arith,
  length-without id q d,
  h id,
  eq_iff id id,
  counted m (without id q) (distinct-without id q d) (ground (arith, u)) rest,
)
  where
    rest : (k : String) → contains k (without id q) ≡ waits_at (lookup k m)
    rest k = ground (arith, contains-without id k q, h k, has-lookup k m, u, eq_iff id k)

abbrev runs_at : Option QueueJob → Bool
runs_at none = false
runs_at (some j) = runs j

contains-ids_where :
    (k : String) (m : Dict QueueJob)
    → distinct (keys m) ≡ true
    → ((i : String) (j : QueueJob) → lookup i m ≡ some j → j.id ≡ i)
    → contains k (ids_where runs m) ≡ runs_at (lookup k m)
unfolding ids_where lookup
contains-ids_where k [] u own = refl
contains-ids_where k ((id, j) ∷ m) u own = ground (
  arith,
  contains-ids_where k m (ground (arith, u)) rest,
  own id j (ground (arith, eq_iff id id)),
  eq_iff id k,
  has-lookup k m,
  u,
)
  where
    rest : (i : String) (e : QueueJob) → lookup i m ≡ some e → e.id ≡ i
    rest i e l = ground (arith, l, own i e, eq_iff id i, has-lookup i m, u)

placed_lem : (a b : Bool) (o : Option QueueJob) → Agrees a b o → (a ≡ waits_at o) × (b ≡ runs_at o)
placed_lem a b none h = h
placed_lem a b (some j) h = ground (arith, h)

-- Whatever the threads do from the start of the server, the number of active jobs that `summary` reports is that of
-- the jobs in the table that have not ended, and the ids that it reports as running are those that a
-- worker holds.
pub summary_counts_live :
    (dumps : IdentityPayload → String) (n : ℕ) (l : Dict LedgerEntry) (y : System) (id : String)
    → Reach dumps (start n l) y
    → ((summary y.shared).active_job_count ≡ live_count y.shared.jobs)
      × (contains id (summary y.shared).running_job_ids ≡ contains id y.claimed)
unfolding summary
summary_counts_live dumps n l y id r =
    let h : Inv y = Reach-Inv dumps (start-Inv n l) r in
    let queue = counted y.shared.jobs y.shared.queue h.once_queued h.no_two_keys (λ k.
      (placed_lem (contains k y.shared.queue) (contains k y.claimed) (lookup k y.shared.jobs)
        (h.agrees k)).0) in
    (
      omega (arith, queue, live_lem y.shared.jobs),
      contains-ids_where id y.shared.jobs h.no_two_keys h.own_id
          ∙ sym
              (placed_lem (contains id y.shared.queue) (contains id y.claimed)
                (lookup id y.shared.jobs) (h.agrees id)).1,
    )
