-- ===== src/ApiKeys/Usage.antt =====
-- `UsageTracker` (src/api_key_auth.py): the counts that wait in memory for the store.
use rag_pipeline_windows.Base.{
  ℕ, leb, String, Bool, Option, some, [], ◌∷◌, if◌then◌else◌, get_or_else,
}
use rag_pipeline_windows.Base.Dict.{Dict, lookup, insert}
use rag_pipeline_windows.ApiKeys.{UsageEntry, no_usage}
use rag_pipeline_windows.ApiKeys.Store.{
  KeyStore, Reply, write_failed, commit, merge_usage, add_usage,
}

pub record UsageTracker : Type 0 where
  pub store : KeyStore
  pub persist_interval : ℕ
  pub pending : Dict UsageEntry

abbrev pub entry_of : String → Dict UsageEntry → UsageEntry
entry_of id pending = get_or_else (lookup id pending) no_usage

-- The loop that puts the deltas back when the store could not be written.
unfoldable pub restore : Dict UsageEntry → Dict UsageEntry → Dict UsageEntry
restore [] pending = pending
restore ((id, delta) ∷ rest) pending =
    restore rest (insert id (add_usage delta (entry_of id pending)) pending)

abbrev pub kept_back : Reply → Dict UsageEntry → Dict UsageEntry
kept_back write_failed deltas = restore deltas []
kept_back _ deltas = []

unfoldable pub flush_deltas : String → Bool → Dict UsageEntry → UsageTracker → UsageTracker
unfolding commit restore
flush_deltas now ok deltas t =
    let r = commit now ok (merge_usage deltas) t.store in
    record t { store = r.1; pending = kept_back r.0 deltas }

-- `flush`; `ok` says whether the store's file can be written.
unfoldable pub flush : String → Bool → UsageTracker → UsageTracker
unfolding flush_deltas
flush now ok t = elim t.pending [ [] ↦ t | d ∷ rest ↦ flush_deltas now ok (d ∷ rest) t ]

abbrev pub used : String → Option String → UsageEntry
used at ip = record { requests = 1; last_used_at = some at; last_used_ip = ip }

-- `record`, called at the time `now`
unfoldable pub record_use : String → Bool → String → Option String → UsageTracker → UsageTracker
unfolding flush
record_use now ok id ip t =
    let entry = add_usage (used now ip) (entry_of id t.pending) in
    let t₁ = record t { pending = insert id entry t.pending } in
    if leb t.persist_interval entry.requests then flush now ok t₁ else t₁
