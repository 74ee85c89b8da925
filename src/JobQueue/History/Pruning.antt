-- ===== src/JobQueue/History/Pruning.antt =====
-- What `_prune_jobs_locked` keeps.
use rag_pipeline_windows.Base.{
  ℕ, ◌+◌, ◌-◌, ◌≤◌, ltb, String, Bool, true, false, some, [], ◌∷◌, length, if◌then◌else◌, ◌≡◌, refl,
  ◌⊎◌, inl, inr, arith, eq_iff, distinct, keep, ◌++◌, Bool-cases,
}
use rag_pipeline_windows.Base.Dict.{Dict, lookup, keys, has, has-lookup}
use rag_pipeline_windows.Jobs.{QueueJob, is_terminal}
use rag_pipeline_windows.JobQueue.State.{RagJobQueue}
use rag_pipeline_windows.JobQueue.History.{prune_loop, prune_jobs}

pub has-prune_loop :
    (l n : ℕ) (m : Dict QueueJob) (k : String)
    → has k m ≡ false
    → has k (prune_loop l n m).0 ≡ false
unfolding prune_loop
has-prune_loop l n [] k h = refl
has-prune_loop l n ((i, j) ∷ m) k h =
    ground (arith, has-prune_loop l (n - 1) m k, has-prune_loop l n m k)

pub distinct-prune_loop :
    (l n : ℕ) (m : Dict QueueJob)
    → distinct (keys m) ≡ true
    → distinct (keys (prune_loop l n m).0) ≡ true
unfolding prune_loop
distinct-prune_loop l n [] h = refl
distinct-prune_loop l n ((i, j) ∷ m) h =
    ground
      (arith, distinct-prune_loop l (n - 1) m, distinct-prune_loop l n m, has-prune_loop l n m i)

-- A job that is not terminal is kept.
pub prune_loop_keeps :
    (l n : ℕ) (m : Dict QueueJob) (k : String) (j : QueueJob)
    → lookup k m ≡ some j
    → is_terminal j.status ≡ false
    → lookup k (prune_loop l n m).0 ≡ some j
unfolding prune_loop lookup
prune_loop_keeps l n [] k j h t = h
prune_loop_keeps l n ((i, x) ∷ m) k j h t =
    ground (arith, prune_loop_keeps l (n - 1) m k j, prune_loop_keeps l n m k j)

-- No job is changed.
pub lookup-prune_loop :
    (l n : ℕ) (m : Dict QueueJob) (k : String) (j : QueueJob)
    → distinct (keys m) ≡ true
    → lookup k (prune_loop l n m).0 ≡ some j
    → lookup k m ≡ some j
unfolding prune_loop lookup
lookup-prune_loop l n [] k j d h = h
lookup-prune_loop l n ((i, x) ∷ m) k j d h = ground (
  arith,
  lookup-prune_loop l (n - 1) m k j,
  lookup-prune_loop l n m k j,
  has-prune_loop l (n - 1) m i,
  has-lookup k (prune_loop l (n - 1) m).0,
  eq_iff i k,
  has-lookup i m,
  has-lookup k m,
)

-- The count of dropped jobs, and the bound: within the cap, or nothing terminal is left.
abbrev none_terminal : Dict QueueJob → Bool
none_terminal [] = true
none_terminal ((i, j) ∷ m) = if is_terminal j.status then false else none_terminal m

pub length-prune_loop :
    (l n : ℕ) (m : Dict QueueJob) → length (prune_loop l n m).0 + (prune_loop l n m).1 ≡ length m
unfolding prune_loop
length-prune_loop l n [] = omega arith
length-prune_loop l n ((i, j) ∷ m) =
    ground (arith, length-prune_loop l (n - 1) m, length-prune_loop l n m)

pub prune_loop_bound :
    (l n : ℕ) (m : Dict QueueJob)
    → length m ≤ n
    → (n - (prune_loop l n m).1 ≤ l) ⊎ (none_terminal (prune_loop l n m).0 ≡ true)
unfolding prune_loop
prune_loop_bound l n [] h = inr refl
prune_loop_bound l n ((i, j) ∷ m) h =
    ground (arith, prune_loop_bound l (n - 1) m, prune_loop_bound l n m)

abbrev pub is_live : String × QueueJob → Bool
is_live (i, j) = if is_terminal j.status then false else true

-- The loop on the jobs `m`, when `kept` earlier ones have been kept.
SplitAt : ℕ → ℕ → ℕ → Dict QueueJob → Type 0
SplitAt l n kept m =
    (older : Dict QueueJob) × (newer : Dict QueueJob) × (m ≡ older ++ newer)
    × ((prune_loop l n m).0 ≡ keep is_live older ++ newer)
    × ((kept + length (prune_loop l n m).0 ≤ l) ⊎ (newer ≡ []))
    × ((l ≤ kept + length (prune_loop l n m).0) ⊎ ((prune_loop l n m).0 ≡ m))

prune_loop_splits : (l n kept : ℕ) (m : Dict QueueJob) → n ≡ kept + length m → SplitAt l n kept m
unfolding prune_loop SplitAt
prune_loop_splits l n kept [] e = ([], [], refl, refl, inr refl, inr refl)
prune_loop_splits l n kept ((i, j) ∷ m) e = elim (Bool-cases (ltb l n)) [
  | inr fits ↦ ([], (i, j) ∷ m, refl, ground arith, ground arith, ground arith)
  | inl over ↦ elim (Bool-cases (is_terminal j.status)) [
    | inl t ↦
        (let (older, newer, q, r, b, c) = prune_loop_splits l (n - 1) kept m (omega arith) in
          ((i, j) ∷ older, newer, ground arith, ground arith, ground arith, ground arith))
    | inr t ↦
        (let (older, newer, q, r, b, c) = prune_loop_splits l n (kept + 1) m (omega arith) in
          ((i, j) ∷ older, newer, ground arith, ground arith, ground arith, ground arith))
  ]
]

-- Pruning splits the history at a point: before it only the jobs that are not terminal stay, and
-- behind it all do. So the oldest terminal jobs go first, and no other job goes. The history is then
-- within the cap, or no terminal job is left in it; and it does not fall below the cap, unless nothing
-- was dropped.
pub prune_oldest_first :
    (s : RagJobQueue) (l : ℕ)
    → (older : Dict QueueJob) × (newer : Dict QueueJob) × (s.jobs ≡ older ++ newer)
      × ((prune_jobs l s).jobs ≡ keep is_live older ++ newer)
      × ((length (prune_jobs l s).jobs ≤ l) ⊎ (newer ≡ []))
      × ((l ≤ length (prune_jobs l s).jobs) ⊎ ((prune_jobs l s).jobs ≡ s.jobs))
unfolding prune_jobs SplitAt
prune_oldest_first s l =
    let (older, newer, q, r, b, c) = prune_loop_splits l (length s.jobs) 0 s.jobs (omega arith) in
    (older, newer, q, r, ground arith, ground arith)
