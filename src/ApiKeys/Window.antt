-- ===== src/ApiKeys/Window.antt =====
-- The bound of the sliding window of `RateLimiter`.
use rag_pipeline_windows.Base.{
  ℕ, suc, ◌≤◌, ◌<◌, ltb, String, true, List, [], ◌∷◌, ◌++◌, if◌then◌else◌, ◌==◌, nat_eq, length,
  keep, ◌≡◌, refl, ap, sym, ◌∙◌, subst, inl, inr, arith, eq_iff, Bool-cases, length-append,
}
use rag_pipeline_windows.ApiKeys.Limits.{RateLimiter, drop_expired, admit_request, check}
use rag_pipeline_windows.ApiKeys.Times.{
  ascending, counts, drop_expired-keep, keep-keep, length-keep_later, keep-snoc, ascending-later,
  ascending-snoc, ascending-drop_expired, length-drop_expired,
}
use rag_pipeline_windows.ApiKeys.Requests.{
  Request, bucket_of, granted, in_order, time_of_last, Follows, check-elsewhere, check-bucket,
  check-allowed, check-window,
}

pruned_lem :
    (id : String) (window limit now earlier : ℕ) (l : RateLimiter) (log : List ℕ)
    → Follows id window limit l log earlier
    → (earlier ≤ now)
    → (drop_expired l.window now (bucket_of id l) ≡ keep (counts window now) log)
      × (ascending (drop_expired l.window now (bucket_of id l)) now ≡ true)
      × (length (drop_expired l.window now (bucket_of id l)) ≤ limit)
pruned_lem id window limit now earlier l log (w, b, a, n) h = (
  ap (λ v. drop_expired v now (bucket_of id l)) w
      ∙ drop_expired-keep window now (bucket_of id l) earlier a
      ∙ ap (keep (counts window now)) b
      ∙ keep-keep window earlier now log h,
  ascending-drop_expired l.window now (bucket_of id l) now
      (ascending-later (bucket_of id l) earlier now h a),
  ground (arith, length-drop_expired l.window now (bucket_of id l)),
)

admit_lem :
    (ticks window v limit now : ℕ) (bucket log : List ℕ)
    → (0 < window)
    → (bucket ≡ keep (counts window now) log)
    → ascending bucket now ≡ true
    → (length bucket ≤ limit)
    → ((admit_request ticks v limit now bucket).1
        ≡ keep (counts window now) (if ltb (length bucket) limit then log ++ now ∷ [] else log))
      × (ascending (admit_request ticks v limit now bucket).1 now ≡ true)
      × (length (admit_request ticks v limit now bucket).1 ≤ limit)
unfolding admit_request
admit_lem ticks window v limit now bucket log p b a n =
    elim (Bool-cases (ltb (length bucket) limit)) [
      | inl t ↦ rw t (
        ap (λ xs. xs ++ now ∷ []) b ∙ sym (keep-snoc window now log p),
        ascending-snoc bucket now a,
        ground (arith, t, length-append bucket (now ∷ [])),
      )
      | inr t ↦ rw t (b, a, n)
    ]

Follows-check :
    (ticks : ℕ) (id : String) (window n now earlier : ℕ) (l : RateLimiter) (log : List ℕ)
    → (0 < window)
    → Follows id window (suc n) l log earlier
    → (earlier ≤ now)
    → Follows id window
        (suc n)
        (check ticks id (suc n) now l).1
        (if (check ticks id (suc n) now l).0.0 then log ++ now ∷ [] else log)
        now
Follows-check ticks id window n now earlier l log p f h =
    let (d, w) = check-allowed ticks id n now l in
    let (b, a, m) = pruned_lem id window (suc n) now earlier l log f h in
    let (b₂, a₂, m₂) =
      admit_lem ticks window l.window (suc n) now (drop_expired l.window now (bucket_of id l)) log p
        b a m in
    (
      w ∙ f.0,
      check-bucket ticks id n now l
          ∙ b₂
          ∙ ap (λ t. keep (counts window now) (if t then log ++ now ∷ [] else log)) (sym d),
      subst (λ xs. ascending xs now ≡ true) (sym (check-bucket ticks id n now l)) a₂,
      subst (λ xs. length xs ≤ suc n) (sym (check-bucket ticks id n now l)) m₂,
    )

-- A check of any caller leaves the bucket of `id` in step with the log.
Follows-step :
    (ticks : ℕ) (id identity : String) (window n limit now earlier last : ℕ) (l : RateLimiter)
    (log : List ℕ)
    → (0 < window)
    → Follows id window (suc n) l log earlier
    → (earlier ≤ last)
    → (last ≤ now)
    → (if identity == id then nat_eq limit (suc n) else true) ≡ true
    → (moment : ℕ) × Follows id window
        (suc n)
        (check ticks identity limit now l).1
        (if identity == id
          then (if (check ticks identity limit now l).0.0 then log ++ now ∷ [] else log)
          else log)
        moment
      × (moment ≤ now)
Follows-step ticks id identity window n limit now earlier last l log p f e h o =
    elim (Bool-cases (identity == id)) [
      | inl t ↦ rw t (
        now,
        same identity limit (ground (arith, t, eq_iff identity id)) (ground (arith, t)),
        ground arith,
      )
      | inr t ↦ rw t (
        earlier,
        (
          check-window ticks identity limit now l ∙ f.0,
          check-elsewhere ticks identity id limit now l t ∙ f.1,
          subst (λ xs. ascending xs earlier ≡ true)
              (sym (check-elsewhere ticks identity id limit now l t)) f.2,
          subst (λ xs. length xs ≤ suc n) (sym (check-elsewhere ticks identity id limit now l t))
              f.3,
        ),
        ground arith,
      )
    ]
  where
    same :
        (j : String) (m : ℕ)
        → (id ≡ j)
        → (suc n ≡ m)
        → Follows id window
            (suc n)
            (check ticks j m now l).1
            (if (check ticks j m now l).0.0 then log ++ now ∷ [] else log)
            now
    same j m i k =
        subst
          (λ v.
            Follows id window (suc n) (check ticks j v now l).1
              (if (check ticks j v now l).0.0 then log ++ now ∷ [] else log) now)
          k
          (subst
            (λ v.
              Follows id window (suc n) (check ticks v (suc n) now l).1
                (if (check ticks v (suc n) now l).0.0 then log ++ now ∷ [] else log) now)
            i (Follows-check ticks id window n now earlier l log p f (ground arith)))

bound_lem :
    (ticks : ℕ) (id : String) (window n earlier last now : ℕ) (requests : List Request)
    (l : RateLimiter) (log : List ℕ)
    → (0 < window)
    → Follows id window (suc n) l log earlier
    → (earlier ≤ last)
    → in_order id (suc n) last requests ≡ true
    → (time_of_last last requests ≤ now)
    → length (keep (counts window now) (granted ticks id requests l log)) ≤ suc n
unfolding granted
bound_lem ticks id window n earlier last now [] l log p (w, b, a, m) e o h =
    ground (arith, length-keep_later window earlier now log, ap length b)
bound_lem ticks id window n earlier last now (q ∷ rest) l log p f e o h =
    let (moment, g, k) =
      Follows-step ticks id q.identity window n q.limit q.now earlier last l log p f e
        (ground (arith, o)) (ground (arith, o)) in
    bound_lem ticks id window n moment q.now now rest (check ticks q.identity q.limit q.now l).1
      (if q.identity == id
        then (if (check ticks q.identity q.limit q.now l).0.0 then log ++ q.now ∷ [] else log)
        else log)
      p g k (ground (arith, o)) h

-- `RateLimiter.check` keeps its bound, whoever else calls: when the window is longer than 0, the clock
-- does not go back, `id` has the same limit above 0 throughout and starts with an empty bucket, then of
-- the requests of `id` that it allows, at most the limit lie in the window that ends at any time
-- from the last request on.
pub window_bound :
    (ticks : ℕ) (id : String) (n now : ℕ) (requests : List Request) (l : RateLimiter)
    → (0 < l.window)
    → bucket_of id l ≡ []
    → in_order id (suc n) 0 requests ≡ true
    → (time_of_last 0 requests ≤ now)
    → length (keep (counts l.window now) (granted ticks id requests l [])) ≤ suc n
window_bound ticks id n now requests l p e o h =
    bound_lem ticks id l.window n 0 0 now requests l [] p
      (
        refl,
        e,
        subst (λ xs. ascending xs 0 ≡ true) (sym e) refl,
        subst (λ xs. length xs ≤ suc n) (sym e) (ground arith),
      )
      (ground arith) o h
