-- ===== src/ApiKeys/Retries.antt =====
-- The counts of usage over `UsageTracker.record` and `flush`, when the store can be written and when not.
use rag_pipeline_windows.Base.{
  ℕ, ◌==◌, leb, String, true, false, Option, none, some, [], ◌∷◌, if◌then◌else◌, ◌≡◌, refl, ap, sym,
  ◌∙◌, subst, inl, inr, arith, Bool-cases, Option-cases,
}
use rag_pipeline_windows.Base.Dict.{Dict, lookup, insert}
use rag_pipeline_windows.ApiKeys.{UsageEntry, Payload}
use rag_pipeline_windows.ApiKeys.Store.{
  KeyStore, holds, Change, write, leave, refuse, load_raw, cached_or, is_cached, commit,
  commit_change, save_raw, any_known, merge_usage, add_usage,
}
use rag_pipeline_windows.ApiKeys.Usage.{
  UsageTracker, entry_of, flush, flush_deltas, kept_back, record_use, used,
}
use rag_pipeline_windows.ApiKeys.Counting.{
  sum_of, recorded, plus, seen, seen_lem, flush-seen, restore_lem, insert_lem,
}

-- The count of an identity that has a record: what the store shows and what waits.
abbrev pub total : String → String → UsageTracker → Option ℕ
total now id t = plus (sum_of id t.pending) (recorded id (seen now t.store).keys)

commit-written :
    (now : String) (change : Payload → Change) (deltas : Dict UsageEntry) (s : KeyStore)
    → kept_back (commit now true change s).0 deltas ≡ []
unfolding commit
commit-written now change deltas s = go (change (seen now s)) (load_raw now s).1
  where
    go : (c : Change) (r : KeyStore) → kept_back (commit_change true c r).0 deltas ≡ []
    go refuse r = unfold commit_change in refl
    go leave r = unfold commit_change in refl
    go (write p) r = unfold commit_change save_raw in refl

flush-pending : (now : String) (t : UsageTracker) → (flush now true t).pending ≡ []
unfolding flush flush_deltas
flush-pending now t = go t.pending refl
  where
    go :
        (deltas : Dict UsageEntry)
        → t.pending ≡ deltas
        → (elim deltas as (λ _. UsageTracker) [
          | [] ↦ t
          | d ∷ rest ↦ flush_deltas now true (d ∷ rest) t
        ]).pending
          ≡ []
    go [] e = e
    go (d ∷ rest) e = commit-written now (merge_usage (d ∷ rest)) (d ∷ rest) t.store

flush-total :
    (now id : String) (t : UsageTracker) (g : ℕ) (q : Payload)
    → t.store.file ≡ holds g q
    → total now id (flush now true t) ≡ total now id t
flush-total now id t g q f =
    ap (λ m. plus (sum_of id m) (recorded id (seen now (flush now true t).store).keys))
      (flush-pending now t)
    ∙ plus_zero (recorded id (seen now (flush now true t).store).keys)
    ∙ flush-seen now id true t g q f
  where
    plus_zero : (o : Option ℕ) → plus 0 o ≡ o
    plus_zero none = refl
    plus_zero (some n) = ground arith

-- While the store can be written, `UsageTracker.record` counts a use of a caller that has a record exactly
-- once, flush or no flush, and leaves the counts of all others: the total is over the record and the
-- pending delta, and stays none for a caller without a record.
pub record_use_counts_once :
    (now id other : String) (ip : Option String) (t : UsageTracker) (g : ℕ) (q : Payload)
    → t.store.file ≡ holds g q
    → total now other (record_use now true id ip t)
      ≡ plus (if id == other then 1 else 0) (total now other t)
unfolding record_use
record_use_counts_once now id other ip t g q f =
    elim (Bool-cases
      (leb t.persist_interval (add_usage (used now ip) (entry_of id t.pending)).requests)) [
        | inl b ↦ rw b (
            flush-total now other
              (record t {
                pending = insert id (add_usage (used now ip) (entry_of id t.pending)) t.pending;
              })
              g q f
            ∙ counted)
        | inr b ↦ rw b counted
      ]
  where
    counted :
        total now other (record t {
          pending = insert id (add_usage (used now ip) (entry_of id t.pending)) t.pending;
        })
        ≡ plus (if id == other then 1 else 0) (total now other t)
    counted = ground (
      arith,
      insert_lem other id (used now ip) t.pending,
      Option-cases (lookup other (seen now t.store).keys),
    )

file_kept :
    (now : String) (change : Payload → Change) (s : KeyStore) (g : ℕ) (q : Payload)
    → s.file ≡ holds g q
    → (commit now false change s).1.file ≡ holds g q
unfolding commit
file_kept now change s g q f =
    go (change (seen now s)) (load_raw now s).1 (
      subst (λ r. r.1.file ≡ holds g q) (sym (seen_lem now s g q f)) (cached (is_cached g s.cache)))
  where
    go :
        (c : Change) (r : KeyStore)
        → r.file ≡ holds g q
        → (commit_change false c r).1.file ≡ holds g q
    go refuse r e = unfold commit_change in e
    go leave r e = unfold commit_change in e
    go (write p) r e = unfold commit_change save_raw in e

    cached : (o : Option Payload) → (cached_or o g q s).1.file ≡ holds g q
    cached none = f
    cached (some v) = f

kept_lem :
    (now id : String) (deltas : Dict UsageEntry) (s : KeyStore)
    → any_known deltas (seen now s).keys ≡ true
    → sum_of id (kept_back (commit now false (merge_usage deltas) s).0 deltas) ≡ sum_of id deltas
unfolding commit commit_change save_raw merge_usage
kept_lem now id deltas s h = rw h (ground (arith, restore_lem id deltas []))

failed_flush_lem :
    (now id : String) (t : UsageTracker) (g : ℕ) (q : Payload)
    → t.store.file ≡ holds g q
    → any_known t.pending (seen now t.store).keys ≡ true
    → ((flush now false t).store.file ≡ holds g q)
      × (sum_of id (flush now false t).pending ≡ sum_of id t.pending)
unfolding flush flush_deltas
failed_flush_lem now id t g q f h = go t.pending h
  where
    after_flush : Dict UsageEntry → UsageTracker
    after_flush deltas = elim deltas as (λ _. UsageTracker) [
      | [] ↦ t
      | d ∷ rest ↦ flush_deltas now false (d ∷ rest) t
    ]

    go :
        (deltas : Dict UsageEntry)
        → any_known deltas (seen now t.store).keys ≡ true
        → ((after_flush deltas).store.file ≡ holds g q)
          × (sum_of id (after_flush deltas).pending ≡ sum_of id deltas)
    go [] k = ground (arith, k)
    go (d ∷ rest) k =
        (file_kept now (merge_usage (d ∷ rest)) t.store g q f, kept_lem now id (d ∷ rest) t.store k)

-- A flush that cannot write the store, followed by one that can, counts what waited twice: the
-- failed one has changed the cached payload in place, and the same deltas are merged into it again. The store's
-- file holds a payload, and some caller with a pending delta has a record.
pub failed_flush_counts_twice :
    (now id : String) (t : UsageTracker) (g : ℕ) (q : Payload)
    → t.store.file ≡ holds g q
    → any_known t.pending (seen now t.store).keys ≡ true
    → recorded id (seen now (flush now true (flush now false t)).store).keys
      ≡ plus
          (sum_of id t.pending)
          (plus (sum_of id t.pending) (recorded id (seen now t.store).keys))
failed_flush_counts_twice now id t g q f h =
    let (e, k) = failed_flush_lem now id t g q f h in
    flush-seen now id true (flush now false t) g q e
    ∙ ap (λ n. plus n (recorded id (seen now (flush now false t).store).keys)) k
    ∙ ap (plus (sum_of id t.pending)) (flush-seen now id false t g q f)
