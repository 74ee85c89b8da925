-- ===== src/ApiKeys/Counting.antt =====
-- What the usage counts of the store and of the tracker add up to.
use rag_pipeline_windows.Base.{
  ℕ, ◌+◌, ◌==◌, nat_eq, String, Bool, true, false, Option, none, some, [], ◌∷◌, if◌then◌else◌, ◌≡◌,
  refl, ap, sym, ◌∙◌, subst, inl, inr, arith, eq_iff, Bool-cases, Option-cases,
}
use rag_pipeline_windows.Base.Dict.{Dict, lookup, insert, has-lookup, lookup-insert}
use rag_pipeline_windows.ApiKeys.{UsageEntry, KeyRecord, Payload}
use rag_pipeline_windows.ApiKeys.Store.{
  KeyStore, holds, Change, write, leave, load_raw, commit, commit_change, merge_deltas, any_known,
  merge_usage, add_usage, with_usage, cached_or, is_cached, changed_in_place, load_raw_file, refuse,
  next_signature, save_raw,
}
use rag_pipeline_windows.ApiKeys.Usage.{UsageTracker, entry_of, restore, flush, flush_deltas}

-- The count of an identity in a dictionary of deltas, and in the records of the store.
abbrev pub sum_of : String → Dict UsageEntry → ℕ
sum_of id [] = 0
sum_of id ((j, u) ∷ rest) = if j == id then u.requests + sum_of id rest else sum_of id rest

abbrev pub recorded : String → Dict KeyRecord → Option ℕ
recorded id m = elim (lookup id m) [ none ↦ none | some r ↦ some r.usage.requests ]

abbrev pub plus : ℕ → Option ℕ → Option ℕ
plus n none = none
plus n (some m) = some (m + n)

-- Each delta is counted once for an identity that has a record.
merge_deltas_lem :
    (id : String) (deltas : Dict UsageEntry) (m : Dict KeyRecord)
    → recorded id (merge_deltas deltas m) ≡ plus (sum_of id deltas) (recorded id m)
unfolding merge_deltas
merge_deltas_lem id [] m = ground (arith, Option-cases (lookup id m))
merge_deltas_lem id ((k, d) ∷ rest) m = elim (Option-cases (lookup k m)) [
  | inl n ↦ ground (arith, n, Option-cases (lookup id m), merge_deltas_lem id rest m, eq_iff k id)
  | inr (r, n) ↦ ground (
    arith,
    n,
    Option-cases (lookup id m),
    merge_deltas_lem id rest (insert k (with_usage d r) m),
    lookup-insert k id (with_usage d r) m,
    eq_iff k id,
  )
]

pub insert_lem :
    (i k : String) (d : UsageEntry) (m : Dict UsageEntry)
    → sum_of i (insert k (add_usage d (entry_of k m)) m)
      ≡ (if k == i then d.requests + sum_of i m else sum_of i m)
unfolding insert lookup
insert_lem i k d [] = ground arith
insert_lem i k d ((j, u) ∷ m) =
    ground (arith, insert_lem i k d m, eq_iff j k, eq_iff k i, eq_iff j i)

-- Putting the deltas back adds them to what waits.
pub restore_lem :
    (id : String) (deltas pending : Dict UsageEntry)
    → sum_of id (restore deltas pending) ≡ sum_of id pending + sum_of id deltas
unfolding restore
restore_lem id [] pending = omega arith
restore_lem id ((k, d) ∷ rest) pending = ground (
  arith,
  restore_lem id rest (insert k (add_usage d (entry_of k pending)) pending),
  insert_lem id k d pending,
)

-- The payload that a method leaves to the next load.
abbrev pub after : Change → Payload → Payload
after (write p) old = p
after _ old = old

abbrev pub seen : String → KeyStore → Payload
seen now s = (load_raw now s).0

pub seen_lem :
    (now : String) (s : KeyStore) (g : ℕ) (q : Payload)
    → s.file ≡ holds g q
    → load_raw now s ≡ cached_or (is_cached g s.cache) g q s
unfolding load_raw load_raw_file
seen_lem now s g q f = ap (λ v. load_raw_file now v s) f

-- A store that has loaded its file: the cache has the payload under the file's signature.
abbrev pub Loaded : ℕ → Payload → Payload → KeyStore → Type 0
Loaded g q v s = (s.file ≡ holds g q) × (is_cached g s.cache ≡ some v)

cached_lem :
    (o : Option Payload) (g : ℕ) (q : Payload) (s : KeyStore)
    → is_cached g s.cache ≡ o
    → s.file ≡ holds g q
    → Loaded g q (cached_or o g q s).0 (cached_or o g q s).1
cached_lem none g q s e f = (f, ground arith)
cached_lem (some v) g q s e f = (f, e)

changed_lem :
    (g : ℕ) (v p : Payload) (c : Option (ℕ × Payload))
    → is_cached g c ≡ some v
    → is_cached g (changed_in_place p c) ≡ some p
changed_lem g v p none e = ground (arith, e)
changed_lem g v p (some (h, w)) e = elim (Bool-cases (nat_eq g h)) [
  | inl t ↦ rw t refl
  | inr t ↦ ground (arith, e, t)
]

Loaded-seen :
    (now : String) (g : ℕ) (q v : Payload) (s : KeyStore) → Loaded g q v s → seen now s ≡ v
Loaded-seen now g q v s (f, e) =
    ap (λ r. r.0) (seen_lem now s g q f) ∙ ap (λ o. (cached_or o g q s).0) e

commit_change-seen :
    (now : String) (ok : Bool) (change : Change) (g : ℕ) (q v : Payload) (s : KeyStore)
    → Loaded g q v s
    → seen now (commit_change ok change s).1 ≡ after change v
unfolding commit_change save_raw
commit_change-seen now ok refuse g q v s l = Loaded-seen now g q v s l
commit_change-seen now ok leave g q v s l = Loaded-seen now g q v s l
commit_change-seen now true (write p) g q v s l =
    ap (λ r. r.0)
      (seen_lem now (record s { file = holds (next_signature s.file) p; cache = none })
        (next_signature s.file) p refl)
commit_change-seen now false (write p) g q v s (f, e) =
    Loaded-seen now g q p (record s { cache = changed_in_place p s.cache })
      (f, changed_lem g v p s.cache e)

-- Written or not, a change of a store whose file holds a payload is what the next load sees.
commit-seen :
    (now : String) (ok : Bool) (change : Payload → Change) (s : KeyStore) (g : ℕ) (q : Payload)
    → s.file ≡ holds g q
    → seen now (commit now ok change s).1 ≡ after (change (seen now s)) (seen now s)
unfolding commit
commit-seen now ok change s g q f =
    commit_change-seen now ok (change (seen now s)) g q (seen now s) (load_raw now s).1 (
      subst (λ r. Loaded g q r.0 r.1) (sym (seen_lem now s g q f))
        (cached_lem (is_cached g s.cache) g q s refl f))

none_known :
    (deltas : Dict UsageEntry) (m : Dict KeyRecord)
    → any_known deltas m ≡ false
    → merge_deltas deltas m ≡ m
unfolding merge_deltas
none_known [] m h = refl
none_known ((k, d) ∷ rest) m h =
    ground (arith, h, has-lookup k m, Option-cases (lookup k m), none_known rest m)

after_merge :
    (deltas : Dict UsageEntry) (p : Payload)
    → (after (merge_usage deltas p) p).keys ≡ merge_deltas deltas p.keys
unfolding merge_usage
after_merge deltas p = elim (Bool-cases (any_known deltas p.keys)) [
  | inl t ↦ rw t refl
  | inr t ↦ rw t (sym (none_known deltas p.keys t))
]

-- A flush adds what waits to what the next load sees, whether or not the file could be written.
pub flush-seen :
    (now id : String) (ok : Bool) (t : UsageTracker) (g : ℕ) (q : Payload)
    → t.store.file ≡ holds g q
    → recorded id (seen now (flush now ok t).store).keys
      ≡ plus (sum_of id t.pending) (recorded id (seen now t.store).keys)
unfolding flush flush_deltas
flush-seen now id ok t g q f = go t.pending
  where
    go :
        (deltas : Dict UsageEntry)
        → recorded id
            (seen now
              (elim deltas as (λ _. UsageTracker) [
                | [] ↦ t
                | d ∷ rest ↦ flush_deltas now ok (d ∷ rest) t
              ]).store).keys
          ≡ plus (sum_of id deltas) (recorded id (seen now t.store).keys)
    go [] = ground (arith, Option-cases (lookup id (seen now t.store).keys))
    go (d ∷ rest) =
        ap (λ p. recorded id p.keys) (commit-seen now ok (merge_usage (d ∷ rest)) t.store g q f)
        ∙ ap (recorded id) (after_merge (d ∷ rest) (seen now t.store))
        ∙ merge_deltas_lem id (d ∷ rest) (seen now t.store).keys
