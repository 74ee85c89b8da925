-- ===== src/Registry/Commit.antt =====
-- `_commit_changed`, which writes the rows that differ.
use rag_pipeline_windows.Base.{
  String, Bool, true, Option, none, some, contains, distinct, is_some, if◌then◌else◌, ◌≡◌, ◌∙◌, inl,
  inr, arith, Bool-cases, ap,
}
use rag_pipeline_windows.Base.Dict.{Dict, lookup, has, keys, has-lookup}
use rag_pipeline_windows.Base.Updates.{
  first_of, when, differs, changed_entries, missing_keys, update_all, lookup-update_all,
  lookup-remove_all, contains-missing_keys, distinct-changed_entries, lookup-changed_entries,
}
use rag_pipeline_windows.Registry.{commit_changed}

-- The payload of a row: the new one, unless the old one is the same by Python's `==`.
abbrev pub refreshed {ℓ} : {V : Type ℓ} → (V → V → Bool) → Option V → Option V → Option V
refreshed same old none = none
refreshed same none (some new) = some new
refreshed same (some old) (some new) = if same old new then some old else some new

module _ {V : Type 0} (same : V → V → Bool) where
  -- After `_commit_changed` the table has a row under every key of `state`, and no other row. The row holds what
  -- `state` holds there, but for a payload that was there before and is `same`, as Python's `==` says, as the
  -- one of `state`: that row is as it was. No key stands twice in `state`.
  pub commit_changed_writes_all :
      (before state : Dict V) (key : String)
      → distinct (keys state) ≡ true
      → lookup key (commit_changed same before state)
        ≡ refreshed same (lookup key before) (lookup key state)
  unfolding commit_changed
  commit_changed_writes_all before state key d =
      lookup-remove_all key (missing_keys before state)
        (update_all (changed_entries same before state) before)
      ∙ written (lookup key before) (lookup key state) (has-lookup key before)
          (has-lookup key state)
          (lookup-update_all key (changed_entries same before state) before
              (distinct-changed_entries same before state d)
            ∙ ap (λ o. first_of o (lookup key before))
                (lookup-changed_entries same key before state d))
    where
      written :
          (old new : Option V)
          → has key before ≡ is_some old
          → has key state ≡ is_some new
          → lookup key (update_all (changed_entries same before state) before)
            ≡ first_of (when (differs same old) new) old
          → (if contains key (missing_keys before state)
              then none
              else lookup key (update_all (changed_entries same before state) before))
            ≡ refreshed same old new
      written none none h k e = ground (arith, h, k, e, contains-missing_keys key before state)
      written none (some v) h k e = ground (arith, h, k, e, contains-missing_keys key before state)
      written (some w) none h k e = ground (arith, h, k, e, contains-missing_keys key before state)
      written (some w) (some v) h k e = elim (Bool-cases (same w v)) [
        | inl t ↦ ground (arith, t, h, k, e, contains-missing_keys key before state)
        | inr t ↦ ground (arith, t, h, k, e, contains-missing_keys key before state)
      ]
