-- ===== src/ApiKeys/Limits.antt =====
-- `RateLimiter` (src/api_key_auth.py): a sliding window of request times for each identity. The clock
-- `time.monotonic()` is a number of ticks, `ticks` of them in a second.
use rag_pipeline_windows.Base.{
  ℕ, zero, suc, ◌+◌, ◌-◌, ◌/◌, max, ltb, leb, String, Bool, true, false, List, [], ◌∷◌, ◌++◌,
  if◌then◌else◌, length, get_or_else,
}
use rag_pipeline_windows.Base.Dict.{Dict, lookup, insert}

pub record RateLimiter : Type 0 where
  pub window : ℕ
  pub buckets : Dict (List ℕ)

-- The `while` loop at the left end of the deque: `bucket[0] <= now - window`.
unfoldable pub drop_expired : ℕ → ℕ → List ℕ → List ℕ
drop_expired window now [] = []
drop_expired window now (t ∷ bucket) =
    let rest = drop_expired window now bucket in if leb (t + window) now then rest else t ∷ bucket

abbrev pub first_or : ℕ → List ℕ → ℕ
first_or d [] = d
first_or d (t ∷ _) = t

-- `max(1, int(bucket[0] + window - now) + 1)`
abbrev pub retry_after : ℕ → ℕ → ℕ → List ℕ → ℕ
retry_after ticks window now bucket = max 1 ((first_or now bucket + window - now) / ticks + 1)

-- The decision on the pruned bucket, and the bucket after it.
unfoldable pub admit_request : ℕ → ℕ → ℕ → ℕ → List ℕ → (Bool × ℕ) × List ℕ
admit_request ticks window limit now bucket =
    if ltb (length bucket) limit
    then ((true, 0), bucket ++ now ∷ [])
    else ((false, retry_after ticks window now bucket), bucket)

-- `check`
unfoldable pub check : ℕ → String → ℕ → ℕ → RateLimiter → (Bool × ℕ) × RateLimiter
unfolding drop_expired admit_request
check ticks identity zero now l = ((true, 0), l)
check ticks identity (suc n) now l =
    let r =
      admit_request ticks l.window (suc n) now
        (drop_expired l.window now (get_or_else (lookup identity l.buckets) [])) in
    (r.0, record l { buckets = insert identity r.1 l.buckets })
