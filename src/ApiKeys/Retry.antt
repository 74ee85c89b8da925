-- ===== src/ApiKeys/Retry.antt =====
-- The `retry_after` hint of `RateLimiter.check`.
use rag_pipeline_windows.Base.{
  ℕ, suc, ◌+◌, ◌-◌, ◌*◌, ◌/◌, ◌≤◌, ◌<◌, max, ltb, String, true, false, List, [], ◌∷◌, length, ◌≡◌,
  ap, sym, ◌∙◌, subst, arith,
}
use native.Mathlib.Nat.{lt-div-mul-add, suc-mul}
use rag_pipeline_windows.ApiKeys.Limits.{
  RateLimiter, drop_expired, retry_after, admit_request, check,
}
use rag_pipeline_windows.ApiKeys.Requests.{bucket_of, check-allowed, check-bucket, check-window}
use rag_pipeline_windows.ApiKeys.Times.{length-drop_expired}

-- The oldest time has left the window when the hint has passed.
retry_after-outlasts :
    (ticks window now later t : ℕ) (bucket : List ℕ)
    → (0 < ticks)
    → (now + retry_after ticks window now (t ∷ bucket) * ticks ≤ later)
    → (t + window ≤ later)
retry_after-outlasts ticks window now later t bucket p h =
    outlasts ((t + window - now) / ticks) (lt-div-mul-add p) h
  where
    outlasts :
        (q : ℕ)
        → (t + window - now < q * ticks + ticks)
        → (now + max 1 (q + 1) * ticks ≤ later)
        → (t + window ≤ later)
    outlasts q l m = scaled (suc q) (omega arith) (suc-mul q ticks)
      where
        scaled :
            (r : ℕ) → (max 1 (q + 1) ≡ r) → (r * ticks ≡ q * ticks + ticks) → (t + window ≤ later)
        scaled r e f = omega (arith, l, subst (λ v. now + v * ticks ≤ later) e m, f)

drop_expired-oldest :
    (window later t : ℕ) (bucket : List ℕ)
    → (t + window ≤ later)
    → length (drop_expired window later (t ∷ bucket)) ≤ length bucket
unfolding drop_expired
drop_expired-oldest window later t bucket h =
    ground (arith, length-drop_expired window later bucket)

oldest_leaves :
    (ticks window n now later : ℕ) (bucket : List ℕ)
    → (0 < ticks)
    → ltb (length bucket) (suc n) ≡ false
    → (length bucket ≤ suc n)
    → (now + retry_after ticks window now bucket * ticks ≤ later)
    → ltb (length (drop_expired window later bucket)) (suc n) ≡ true
oldest_leaves ticks window n now later [] p d m h = ground (arith, d)
oldest_leaves ticks window n now later (t ∷ bucket) p d m h = ground (
  arith,
  drop_expired-oldest window later t bucket
      (retry_after-outlasts ticks window now later t bucket p h),
)

refused_lem :
    (ticks window n now : ℕ) (bucket : List ℕ)
    → ltb (length bucket) (suc n) ≡ false
    → (admit_request ticks window (suc n) now bucket
        ≡ ((false, retry_after ticks window now bucket), bucket))
unfolding admit_request
refused_lem ticks window n now bucket d = ground (arith, d)

hint_lem :
    (ticks : ℕ) (id : String) (n now : ℕ) (l : RateLimiter)
    → (check ticks id (suc n) now l).0
      ≡ (admit_request ticks l.window (suc n) now (drop_expired l.window now (bucket_of id l))).0
unfolding check
hint_lem ticks id n now l = ground arith

-- A caller that `RateLimiter.check` refuses, at a time when its bucket holds no more than its limit, and
-- that calls next when the seconds of the hint have passed, is allowed.
pub retry_after_suffices :
    (ticks : ℕ) (id : String) (n now later : ℕ) (l : RateLimiter)
    → (0 < ticks)
    → (length (bucket_of id l) ≤ suc n)
    → (check ticks id (suc n) now l).0.0 ≡ false
    → (now + (check ticks id (suc n) now l).0.1 * ticks ≤ later)
    → (check ticks id (suc n) later (check ticks id (suc n) now l).1).0.0 ≡ true
retry_after_suffices ticks id n now later l p m d h =
    let bucket = drop_expired l.window now (bucket_of id l) in
    let full = sym ((check-allowed ticks id n now l).0) ∙ d in
    let r = refused_lem ticks l.window n now bucket full in
    (check-allowed ticks id n later (check ticks id (suc n) now l).1).0
    ∙ ap
        (λ v.
          ltb (length (drop_expired v later (bucket_of id (check ticks id (suc n) now l).1)))
            (suc n))
        (check-window ticks id (suc n) now l)
    ∙ ap (λ b. ltb (length (drop_expired l.window later b)) (suc n))
        (check-bucket ticks id n now l ∙ ap (λ q. q.1) r)
    ∙ oldest_leaves ticks l.window n now later bucket p full
        (ground (arith, m, length-drop_expired l.window now (bucket_of id l)))
        (subst (λ k. now + k * ticks ≤ later)
          (ap (λ q. q.1) (hint_lem ticks id n now l ∙ ap (λ q. q.0) r)) h)
