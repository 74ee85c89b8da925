-- ===== src/ApiKeys/Times.antt =====
-- The times in a bucket of `RateLimiter`, and the loop that drops the expired ones.
use rag_pipeline_windows.Base.{
  ℕ, ◌+◌, ◌≤◌, ◌<◌, ltb, leb, Bool, true, false, List, [], ◌∷◌, ◌++◌, if◌then◌else◌, length, keep,
  ◌≡◌, refl, arith,
}
use rag_pipeline_windows.ApiKeys.Limits.{drop_expired}

-- The times of a bucket do not go back, and none is later than `now`.
abbrev pub ascending : List ℕ → ℕ → Bool
ascending [] now = true
ascending (t ∷ []) now = leb t now
ascending (t ∷ (u ∷ bucket)) now = if leb t u then ascending (u ∷ bucket) now else false

-- A request at `t` counts at `now`.
abbrev pub counts : ℕ → ℕ → ℕ → Bool
counts window now t = ltb now (t + window)

keep_all :
    (window now t : ℕ) (bucket : List ℕ) (end : ℕ)
    → ascending (t ∷ bucket) end ≡ true
    → ltb now (t + window) ≡ true
    → keep (counts window now) (t ∷ bucket) ≡ t ∷ bucket
keep_all window now t [] end a h = ground arith
keep_all window now t (u ∷ bucket) end a h = ground (arith, keep_all window now u bucket end)

-- The loop that stops at the first time in the window keeps every time in the window.
pub drop_expired-keep :
    (window now : ℕ) (bucket : List ℕ) (end : ℕ)
    → ascending bucket end ≡ true
    → drop_expired window now bucket ≡ keep (counts window now) bucket
unfolding drop_expired
drop_expired-keep window now [] end a = refl
drop_expired-keep window now (t ∷ []) end a = ground arith
drop_expired-keep window now (t ∷ (u ∷ bucket)) end a =
    ground
      (arith, drop_expired-keep window now (u ∷ bucket) end, keep_all window now t (u ∷ bucket) end)

pub keep-keep :
    (window earlier now : ℕ) (xs : List ℕ)
    → (earlier ≤ now)
    → keep (counts window now) (keep (counts window earlier) xs) ≡ keep (counts window now) xs
keep-keep window earlier now [] h = refl
keep-keep window earlier now (t ∷ xs) h = ground (arith, keep-keep window earlier now xs h)

pub length-keep_later :
    (window earlier now : ℕ) (xs : List ℕ)
    → (earlier ≤ now)
    → length (keep (counts window now) xs) ≤ length (keep (counts window earlier) xs)
length-keep_later window earlier now [] h = ground arith
length-keep_later window earlier now (t ∷ xs) h =
    ground (arith, length-keep_later window earlier now xs h)

pub keep-snoc :
    (window now : ℕ) (xs : List ℕ)
    → (0 < window)
    → keep (counts window now) (xs ++ now ∷ []) ≡ keep (counts window now) xs ++ now ∷ []
keep-snoc window now [] h = ground arith
keep-snoc window now (t ∷ xs) h = ground (arith, keep-snoc window now xs h)

pub ascending-later :
    (bucket : List ℕ) (earlier now : ℕ)
    → (earlier ≤ now)
    → ascending bucket earlier ≡ true
    → ascending bucket now ≡ true
ascending-later [] earlier now h a = refl
ascending-later (t ∷ []) earlier now h a = ground arith
ascending-later (t ∷ (u ∷ bucket)) earlier now h a =
    ground (arith, ascending-later (u ∷ bucket) earlier now h)

pub ascending-snoc :
    (bucket : List ℕ) (now : ℕ)
    → ascending bucket now ≡ true
    → ascending (bucket ++ now ∷ []) now ≡ true
ascending-snoc [] now a = ground arith
ascending-snoc (t ∷ []) now a = ground arith
ascending-snoc (t ∷ (u ∷ bucket)) now a = ground (arith, ascending-snoc (u ∷ bucket) now)

pub ascending-drop_expired :
    (window now : ℕ) (bucket : List ℕ) (end : ℕ)
    → ascending bucket end ≡ true
    → ascending (drop_expired window now bucket) end ≡ true
unfolding drop_expired
ascending-drop_expired window now [] end a = refl
ascending-drop_expired window now (t ∷ []) end a = ground arith
ascending-drop_expired window now (t ∷ (u ∷ bucket)) end a =
    ground (arith, ascending-drop_expired window now (u ∷ bucket) end)

pub length-drop_expired :
    (window now : ℕ) (bucket : List ℕ) → length (drop_expired window now bucket) ≤ length bucket
unfolding drop_expired
length-drop_expired window now [] = ground arith
length-drop_expired window now (t ∷ bucket) = ground (arith, length-drop_expired window now bucket)
