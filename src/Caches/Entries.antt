-- ===== src/Caches/Entries.antt =====
-- What the entries of a cache are after `move_to_end` and after an eviction.
use rag_pipeline_windows.Base.{
  ℕ, ◌+◌, ◌≤◌, String, true, false, List, [], ◌∷◌, ◌++◌, length, if◌then◌else◌, ◌≡◌, refl, inl, inr,
  Option-cases, arith, eq_iff, length-append, contains, without, distinct, contains-without,
  distinct-without, distinct-snoc,
}
use rag_pipeline_windows.Base.Dict.{
  Dict, lookup, insert, remove, has, keys, lookup-remove, has-lookup, lookup-append_fresh,
  keys-append, keys-remove, length-keys, has-remove,
}
use rag_pipeline_windows.Caches.{bump, evict_if_needed}

pub without_absent : (k : String) (xs : List String) → contains k xs ≡ false → without k xs ≡ xs
without_absent k [] h = refl
without_absent k (x ∷ xs) h = ground (arith, without_absent k xs)

module _ {ℓ} {V : Type ℓ} where
  -- `move_to_end` changes no value.
  pub lookup-bump : (k j : String) (m : Dict V) → lookup j (bump k m) ≡ lookup j m
  unfolding bump
  lookup-bump k j m = elim (Option-cases (lookup k m)) [
    | inl e ↦ ground (arith, e)
    | inr (v, e) ↦ ground (
      arith,
      e,
      lookup-append_fresh k j v (remove k m),
      lookup-remove k j m,
      has-remove k k m,
      eq_iff k j,
      eq_iff k k,
    )
  ]

  pub has-bump : (k j : String) (m : Dict V) → has j (bump k m) ≡ has j m
  has-bump k j m = ground (arith, has-lookup j (bump k m), has-lookup j m, lookup-bump k j m)

  -- Nothing is evicted within bounds.
  pub evict_if_needed_fits : (n : ℕ) (m : Dict V) → length m ≤ n → evict_if_needed n m ≡ m
  unfolding evict_if_needed
  evict_if_needed_fits n [] h = refl
  evict_if_needed_fits n (e ∷ m) h = ground arith

  -- One entry too many: the oldest goes.
  pub evict_if_needed_full :
      (n : ℕ) (e : String × V) (m : Dict V) → length m ≡ n → evict_if_needed n (e ∷ m) ≡ m
  unfolding evict_if_needed
  evict_if_needed_full n e m h = ground (arith, evict_if_needed_fits n m)

pub length-without :
    (k : String) (xs : List String)
    → distinct xs ≡ true
    → length (without k xs) + (if contains k xs then 1 else 0) ≡ length xs
length-without k [] h = omega arith
length-without k (x ∷ xs) h =
    ground (arith, length-without k xs, eq_iff x k, contains-without k k xs, without_absent k xs)

module _ {ℓ} {V : Type ℓ} where
  pub insert_fresh :
      (k : String) (v : V) (m : Dict V) → has k m ≡ false → insert k v m ≡ m ++ (k, v) ∷ []
  unfolding insert
  insert_fresh k v [] h = refl
  insert_fresh k v ((j, w) ∷ m) h = ground (arith, insert_fresh k v m)

  pub distinct-bump :
      (k : String) (m : Dict V) → distinct (keys m) ≡ true → distinct (keys (bump k m)) ≡ true
  unfolding bump
  distinct-bump k m h = elim (Option-cases (lookup k m)) [
    | inl e ↦ ground (arith, e)
    | inr (v, e) ↦ ground (
      arith,
      e,
      keys-append (remove k m) ((k, v) ∷ []),
      keys-remove k m,
      eq_iff k k,
      distinct-snoc k (without k (keys m)),
      distinct-without k (keys m),
      contains-without k k (keys m),
    )
  ]

  pub length-bump :
      (k : String) (m : Dict V) → distinct (keys m) ≡ true → length (bump k m) ≡ length m
  unfolding bump
  length-bump k m h = elim (Option-cases (lookup k m)) [
    | inl e ↦ ground (arith, e)
    | inr (v, e) ↦ ground (
      arith,
      e,
      length-append (remove k m) ((k, v) ∷ []),
      length-keys (remove k m),
      length-keys m,
      keys-remove k m,
      length-without k (keys m),
      has-lookup k m,
    )
  ]

  pub distinct-evict :
      (n : ℕ) (m : Dict V) → distinct (keys m) ≡ true → distinct (keys (evict_if_needed n m)) ≡ true
  unfolding evict_if_needed
  distinct-evict n [] h = refl
  distinct-evict n ((k, v) ∷ m) h = ground (arith, distinct-evict n m)

  pub length-evict : (n : ℕ) (m : Dict V) → length (evict_if_needed n m) ≤ n
  unfolding evict_if_needed
  length-evict n [] = omega arith
  length-evict n (e ∷ m) = ground (arith, length-evict n m)

  pub length-remove : (k : String) (m : Dict V) → length (remove k m) ≤ length m
  unfolding remove
  length-remove k [] = omega arith
  length-remove k (e ∷ m) = ground (arith, length-remove k m)
