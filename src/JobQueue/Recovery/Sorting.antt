-- ===== src/JobQueue/Recovery/Sorting.antt =====
-- The sort of the ledger's entries loses none and repeats none.
use rag_pipeline_windows.Base.{
  ◌==◌, String, true, false, ◌||◌, some, [], ◌∷◌, if◌then◌else◌, ◌≡◌, refl, arith, eq_iff, contains,
  distinct,
}
use rag_pipeline_windows.Base.Dict.{Dict, lookup, keys}
use rag_pipeline_windows.Ledger.{LedgerEntry}
use rag_pipeline_windows.JobQueue.Recovery.{insert_by, sort_by}

module _ (key : String × LedgerEntry → String) where
  contains-insert_by :
      (k : String) (x : String × LedgerEntry) (ys : Dict LedgerEntry)
      → contains k (keys (insert_by key x ys)) ≡ (x.0 == k || contains k (keys ys))
  unfolding insert_by
  contains-insert_by k x [] = refl
  contains-insert_by k x (y ∷ ys) = ground (arith, contains-insert_by k x ys)

  distinct-insert_by :
      (x : String × LedgerEntry) (ys : Dict LedgerEntry)
      → contains x.0 (keys ys) ≡ false
      → distinct (keys ys) ≡ true
      → distinct (keys (insert_by key x ys)) ≡ true
  unfolding insert_by
  distinct-insert_by x [] f d = refl
  distinct-insert_by x (y ∷ ys) f d =
      ground (
        arith,
        distinct-insert_by x ys,
        contains-insert_by y.0 x ys,
        eq_iff x.0 y.0,
        eq_iff y.0 x.0,
      )

  contains-sort_by :
      (k : String) (m : Dict LedgerEntry) → contains k (keys (sort_by key m)) ≡ contains k (keys m)
  unfolding sort_by
  contains-sort_by k [] = refl
  contains-sort_by k (x ∷ m) =
      ground (arith, contains-insert_by k x (sort_by key m), contains-sort_by k m)

  pub distinct-sort_by :
      (m : Dict LedgerEntry) → distinct (keys m) ≡ true → distinct (keys (sort_by key m)) ≡ true
  unfolding sort_by
  distinct-sort_by [] d = refl
  distinct-sort_by (x ∷ m) d =
      ground
        (arith, distinct-insert_by x (sort_by key m), contains-sort_by x.0 m, distinct-sort_by m)

  lookup-insert_by :
      (k : String) (x : String × LedgerEntry) (ys : Dict LedgerEntry)
      → contains x.0 (keys ys) ≡ false
      → lookup k (insert_by key x ys) ≡ (if x.0 == k then some x.1 else lookup k ys)
  unfolding insert_by lookup
  lookup-insert_by k x [] f = refl
  lookup-insert_by k x (y ∷ ys) f =
      ground (arith, lookup-insert_by k x ys, eq_iff x.0 k, eq_iff y.0 k, eq_iff y.0 x.0)

  pub lookup-sort_by :
      (k : String) (m : Dict LedgerEntry)
      → distinct (keys m) ≡ true
      → lookup k (sort_by key m) ≡ lookup k m
  unfolding sort_by lookup
  lookup-sort_by k [] d = refl
  lookup-sort_by k (x ∷ m) d =
      ground
        (arith, lookup-insert_by k x (sort_by key m), contains-sort_by x.0 m, lookup-sort_by k m)
