-- ===== src/ApiKeys/Requests.antt =====
-- The requests that a `RateLimiter` gets, and what `check` does to the bucket of one caller.
use rag_pipeline_windows.Base.{
  ℕ, zero, suc, ◌≤◌, ltb, leb, String, Bool, true, false, List, [], ◌∷◌, ◌++◌, if◌then◌else◌, ◌==◌,
  ◌&&◌, nat_eq, length, keep, get_or_else, ◌≡◌, refl, arith, eq_iff,
}
use rag_pipeline_windows.Base.Dict.{lookup, lookup-insert}
use rag_pipeline_windows.ApiKeys.Limits.{RateLimiter, drop_expired, admit_request, check}
use rag_pipeline_windows.ApiKeys.Times.{ascending, counts}

-- The requests of a limiter, each with the caller, its limit and the time.
pub record Request : Type 0 where
  pub identity : String
  pub limit : ℕ
  pub now : ℕ

abbrev pub bucket_of : String → RateLimiter → List ℕ
bucket_of id l = get_or_else (lookup id l.buckets) []

-- The times of the requests of `id` that the limiter allows, after those in `log`.
unfoldable pub granted : ℕ → String → List Request → RateLimiter → List ℕ → List ℕ
granted ticks id [] l log = log
granted ticks id (q ∷ rest) l log =
    let r = check ticks q.identity q.limit q.now l in
    granted ticks id rest r.1
      (if q.identity == id then (if r.0.0 then log ++ q.now ∷ [] else log) else log)

-- The clock does not go back from `last`, and `id` has the limit `limit` throughout.
abbrev pub in_order : String → ℕ → ℕ → List Request → Bool
in_order id limit last [] = true
in_order id limit last (q ∷ rest) =
    leb last q.now
    && (if q.identity == id then nat_eq q.limit limit else true)
    && in_order id limit q.now rest

abbrev pub time_of_last : ℕ → List Request → ℕ
time_of_last last [] = last
time_of_last last (q ∷ rest) = time_of_last q.now rest

-- The bucket of `id` is the part of the log that counts at `moment`.
abbrev pub Follows : String → ℕ → ℕ → RateLimiter → List ℕ → ℕ → Type 0
Follows id window limit l log moment =
    (l.window ≡ window)
    × (bucket_of id l ≡ keep (counts window moment) log)
    × (ascending (bucket_of id l) moment ≡ true)
    × (length (bucket_of id l) ≤ limit)

pub check-elsewhere :
    (ticks : ℕ) (other id : String) (limit now : ℕ) (l : RateLimiter)
    → (other == id) ≡ false
    → bucket_of id (check ticks other limit now l).1 ≡ bucket_of id l
unfolding check
check-elsewhere ticks other id zero now l h = refl
check-elsewhere ticks other id (suc n) now l h = ground (
  arith,
  h,
  lookup-insert other id
      (admit_request ticks l.window (suc n) now
        (drop_expired l.window now (get_or_else (lookup other l.buckets) []))).1
      l.buckets,
)

pub check-bucket :
    (ticks : ℕ) (id : String) (n now : ℕ) (l : RateLimiter)
    → bucket_of id (check ticks id (suc n) now l).1
      ≡ (admit_request ticks l.window (suc n) now (drop_expired l.window now (bucket_of id l))).1
unfolding check
check-bucket ticks id n now l = ground (
  arith,
  eq_iff id id,
  lookup-insert id id
      (admit_request ticks l.window (suc n) now
        (drop_expired l.window now (get_or_else (lookup id l.buckets) []))).1
      l.buckets,
)

-- The decision of `check` for a limit above 0, and that the limiter keeps its window.
pub check-allowed :
    (ticks : ℕ) (id : String) (n now : ℕ) (l : RateLimiter)
    → ((check ticks id (suc n) now l).0.0
        ≡ ltb (length (drop_expired l.window now (bucket_of id l))) (suc n))
      × ((check ticks id (suc n) now l).1.window ≡ l.window)
unfolding check admit_request
check-allowed ticks id n now l = (ground arith, refl)

pub check-window :
    (ticks : ℕ) (id : String) (limit now : ℕ) (l : RateLimiter)
    → (check ticks id limit now l).1.window ≡ l.window
unfolding check
check-window ticks id zero now l = refl
check-window ticks id (suc n) now l = refl
