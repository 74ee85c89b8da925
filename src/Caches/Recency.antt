-- ===== src/Caches/Recency.antt =====
-- Least recently used: which entry goes when a new one comes, and how long an entry stays.
use rag_pipeline_windows.Base.{
  ℕ, ◌≤◌, ◌<◌, ◌+◌, String, true, false, ◌==◌, Bool, List, [], ◌∷◌, ◌++◌, length, ◌≡◌, arith,
  Option-cases, inl, inr, if◌then◌else◌, eq_iff, Bool-cases, length-append,
}
use rag_pipeline_windows.Base.Dict.{
  Dict, lookup, insert, has, remove, has-lookup, lookup-insert, length-insert, has-remove,
}
use rag_pipeline_windows.Caches.{
  BoundedLru, get, set_item, pop, setdefault, clear, bump, evict_if_needed,
}
use rag_pipeline_windows.Caches.Entries.{
  length-remove, has-bump, evict_if_needed_full, insert_fresh,
}
use rag_pipeline_windows.Caches.Bounds.{
  Call, get_call, set_call, pop_call, default_call, clear_call, IsValid, perform, perform_all,
  perform-IsValid, maxsize-perform,
}

-- Everything but the oldest entry.
abbrev pub newer {ℓ} : {V : Type ℓ} → Dict V → Dict V
newer [] = []
newer (e ∷ m) = m

module _ {V : Type 0} where
  pub set_item_full :
      (k : String) (v : V) (m : Dict V) (n : ℕ)
      → 1 ≤ n
      → length m ≡ n
      → has k m ≡ false
      → (set_item k v (record { entries = m; maxsize = n })).entries ≡ newer m ++ (k, v) ∷ []
  unfolding set_item
  set_item_full k v [] n p l h = absurd (omega arith)
  set_item_full k v (e ∷ m) n p l h = ground (
    arith,
    insert_fresh k v (e ∷ m),
    evict_if_needed_full n e (m ++ (k, v) ∷ []),
    length-append m ((k, v) ∷ []),
  )

  -- How many entries are more recent than that of `k`.
  unfoldable pub age : String → Dict V → ℕ
  age k [] = 0
  age k ((j, v) ∷ m) = if j == k then length m else age k m

  age-snoc :
      (k j : String) (v : V) (m : Dict V) → has k m ≡ true → age k (m ++ (j, v) ∷ []) ≡ age k m + 1
  unfolding age
  age-snoc k j v [] h = cc
  age-snoc k j v ((i, w) ∷ m) h = ground (arith, age-snoc k j v m, length-append m ((j, v) ∷ []))

  age-snoc_self : (k : String) (v : V) (m : Dict V) → has k m ≡ false → age k (m ++ (k, v) ∷ []) ≡ 0
  unfolding age
  age-snoc_self k v [] h = ground (arith, eq_iff k k)
  age-snoc_self k v ((i, w) ∷ m) h = ground (arith, age-snoc_self k v m)

  age-remove : (k j : String) (m : Dict V) → (j == k) ≡ false → age k (remove j m) ≤ age k m
  unfolding age remove
  age-remove k j [] h = omega arith
  age-remove k j ((i, w) ∷ m) h =
      ground (arith, age-remove k j m, length-remove j m, eq_iff i k, eq_iff i j, eq_iff j k)

  age-insert : (k j : String) (v : V) (m : Dict V) → has j m ≡ true → age k (insert j v m) ≡ age k m
  unfolding age insert
  age-insert k j v [] h = cc
  age-insert k j v ((i, w) ∷ m) h = ground (arith, age-insert k j v m, length-insert j v m)

  age-bump : (k j : String) (m : Dict V) → has j m ≡ true → age j (bump k m) ≤ age j m + 1
  unfolding bump
  age-bump k j m h = elim (Option-cases (lookup k m)) [
    | inl e ↦ ground (arith, e)
    | inr (v, e) ↦ ground (
      arith,
      e,
      age-snoc_self k v (remove k m),
      has-remove k k m,
      has-remove k j m,
      eq_iff k j,
      eq_iff k k,
      age-snoc j k v (remove k m),
      age-remove j k m,
    )
  ]

  evict_keeps_recent :
      (k : String) (n : ℕ) (m : Dict V)
      → has k m ≡ true
      → age k m < n
      → (has k (evict_if_needed n m) ≡ true) × (age k (evict_if_needed n m) ≡ age k m)
  unfolding age evict_if_needed
  evict_keeps_recent k n [] h a = cc
  evict_keeps_recent k n ((j, v) ∷ m) h a = ground (arith, evict_keeps_recent k n m)

  -- The calls that take `k` out of the cache by name.
  unfoldable pub removes : String → Call V → Bool
  removes k (pop_call j) = j == k
  removes k clear_call = true
  removes k _ = false

  unfoldable pub none_removes : String → List (Call V) → Bool
  unfolding removes
  none_removes k [] = true
  none_removes k (o ∷ os) = if removes k o then false else none_removes k os

  has-insert : (k j : String) (v : V) (m : Dict V) → has k m ≡ true → has k (insert j v m) ≡ true
  has-insert k j v m h =
      ground (arith, has-lookup k m, has-lookup k (insert j v m), lookup-insert j k v m)

  insert_evicts :
      (k j : String) (v : V) (n : ℕ) (m : Dict V)
      → has k m ≡ true
      → has j m ≡ false
      → age k m + 1 < n
      → (has k (evict_if_needed n (insert j v m)) ≡ true)
        × (age k (evict_if_needed n (insert j v m)) ≤ age k m + 1)
  insert_evicts k j v n m h f a = ground (
    arith,
    insert_fresh j v m,
    has-insert k j v m,
    age-snoc k j v m,
    evict_keeps_recent k n (insert j v m),
  )

  perform_ages :
      (k : String) (o : Call V) (c : BoundedLru V)
      → IsValid c
      → has k c.entries ≡ true
      → removes k o ≡ false
      → age k c.entries + 1 < c.maxsize
      → (has k (perform o c).entries ≡ true) × (age k (perform o c).entries ≤ age k c.entries + 1)
  unfolding perform get set_item pop setdefault clear removes
  perform_ages k (get_call j) c h p r a =
      ground (arith, has-bump j k c.entries, age-bump j k c.entries)
  perform_ages k (set_call j v) c h p r a = elim (Bool-cases (has j c.entries)) [
    | inl e ↦ ground (
      arith,
      e,
      has-bump j k (insert j v c.entries),
      has-insert k j v c.entries,
      age-bump j k (insert j v c.entries),
      age-insert k j v c.entries,
    )
    | inr e ↦ ground (arith, e, insert_evicts k j v c.maxsize c.entries)
  ]
  perform_ages k (pop_call j) c h p r a =
      ground (arith, has-remove j k c.entries, age-remove k j c.entries)
  perform_ages k (default_call j d) c h p r a = elim (Option-cases (lookup j c.entries)) [
    | inr (w, e) ↦ ground (arith, e, has-bump j k c.entries, age-bump j k c.entries)
    | inl e ↦ ground (arith, e, has-lookup j c.entries, insert_evicts k j d c.maxsize c.entries)
  ]
  perform_ages k clear_call c h p r a = cc

  -- An entry with `a` entries more recent than it survives any calls, fewer than the room behind it,
  -- that do not take it out by name.
  pub recent_survives :
      (k : String) (os : List (Call V)) (c : BoundedLru V)
      → IsValid c
      → has k c.entries ≡ true
      → none_removes k os ≡ true
      → age k c.entries + length os < c.maxsize
      → has k (perform_all os c).entries ≡ true
  unfolding perform_all none_removes
  recent_survives k [] c h p r a = p
  recent_survives k (o ∷ os) c h p r a =
      let (p', a') = perform_ages k o c h p (ground arith) (omega arith) in
      recent_survives k os (perform o c) (perform-IsValid o c h) p' (ground arith)
        (omega (arith, maxsize-perform o c))
