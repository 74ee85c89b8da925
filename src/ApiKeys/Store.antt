-- ===== src/ApiKeys/Store.antt =====
-- `KeyStore` (src/api_key_auth.py). A method is a change of the payload, made in place on the object
-- that `_load_raw` returns, and `commit`, which loads, changes and saves under the store's lock. The
-- file's payload is as `_normalize` leaves it, and its signature is a number that a write raises.
use rag_pipeline_windows.Base.{
  ℕ, suc, ◌+◌, nat_eq, String, Bool, true, false, ◌||◌, Option, none, some, [], ◌∷◌, if◌then◌else◌,
}
use rag_pipeline_windows.Base.Dict.{Dict, lookup, insert, remove, has}
use rag_pipeline_windows.ApiKeys.{
  UsageEntry, KeyRecord, PermissionSet, Payload, permset_admin, permset_user,
}

pub data File : Type 0 where
  missing : File
  unreadable : File
  holds : ℕ → Payload → File

pub record KeyStore : Type 0 where
  pub file : File
  pub cache : Option (ℕ × Payload)
  pub is_unreadable : Bool

-- `_default_permission_sets` at the time `now`
abbrev pub default_permission_sets : String → Dict PermissionSet
default_permission_sets now =
    (
      permset_admin,
      record {
        name = permset_admin;
        label = "Administrator";
        categories = "*" ∷ [];
        can_write = true;
        is_admin = true;
        builtin = true;
        created_at = now;
        updated_at = now;
      },
    )
    ∷ (
      permset_user,
      record {
        name = permset_user;
        label = "Standard user";
        categories = "*" ∷ [];
        can_write = true;
        is_admin = false;
        builtin = true;
        created_at = now;
        updated_at = now;
      },
    )
    ∷ []

abbrev pub empty : String → Payload
empty now = record { permission_sets = default_permission_sets now; keys = [] }

abbrev pub is_cached : ℕ → Option (ℕ × Payload) → Option Payload
is_cached g none = none
is_cached g (some (h, p)) = if nat_eq g h then some p else none

-- The cached payload where its signature is the file's, the file's otherwise.
abbrev pub cached_or : Option Payload → ℕ → Payload → KeyStore → Payload × KeyStore
cached_or (some p) g q s = (p, s)
cached_or none g q s = (q, record s { cache = some (g, q); is_unreadable = false })

unfoldable pub load_raw_file : String → File → KeyStore → Payload × KeyStore
load_raw_file now missing s = (empty now, record s { cache = none; is_unreadable = false })
load_raw_file now unreadable s = (empty now, record s { cache = none; is_unreadable = true })
load_raw_file now (holds g q) s = cached_or (is_cached g s.cache) g q s

-- `_load_raw`
unfoldable pub load_raw : String → KeyStore → Payload × KeyStore
unfolding load_raw_file
load_raw now s = load_raw_file now s.file s

abbrev pub next_signature : File → ℕ
next_signature missing = 0
next_signature unreadable = 0
next_signature (holds g _) = suc g

abbrev pub changed_in_place : Payload → Option (ℕ × Payload) → Option (ℕ × Payload)
changed_in_place p none = none
changed_in_place p (some (g, _)) = some (g, p)

-- `_save_raw` of the loaded object after its change. When the write fails, the file keeps what it held
-- and the cache, which is the same object, has the change.
unfoldable pub save_raw : Bool → Payload → KeyStore → Bool × KeyStore
save_raw true p s = (true, record s { file = holds (next_signature s.file) p; cache = none })
save_raw false p s = (false, record s { cache = changed_in_place p s.cache })

-- What a method decides on the loaded payload.
pub data Change : Type 0 where
  -- it raises ValueError
  refuse : Change
  -- it returns None or False and saves nothing
  leave : Change
  -- it changes the payload and saves it
  write : Payload → Change

pub data Reply : Type 0 where
  value_error : Reply
  not_found : Reply
  saved : Reply
  write_failed : Reply

abbrev pub reply_of : Bool → Reply
reply_of true = saved
reply_of false = write_failed

unfoldable pub commit_change : Bool → Change → KeyStore → Reply × KeyStore
unfolding save_raw
commit_change ok refuse s = (value_error, s)
commit_change ok leave s = (not_found, s)
commit_change ok (write p) s = let r = save_raw ok p s in (reply_of r.0, r.1)

-- `ok` says whether the write of the file succeeds.
unfoldable pub commit : String → Bool → (Payload → Change) → KeyStore → Reply × KeyStore
unfolding load_raw commit_change
commit now ok change s = let r = load_raw now s in commit_change ok (change r.0) r.1

-- `add`
unfoldable pub add : String → KeyRecord → Payload → Change
add key_hash stored p = write (record p { keys = insert key_hash stored p.keys })

-- `update`, with `mutate` as the function that merges it into the record
unfoldable pub update : String → (KeyRecord → KeyRecord) → Payload → Change
update key_hash mutate p = elim (lookup key_hash p.keys) [
  | none ↦ leave
  | some r ↦ write (record p { keys = insert key_hash (mutate r) p.keys })
]

-- `delete`
unfoldable pub delete : String → Payload → Change
delete key_hash p =
    if has key_hash p.keys then write (record p { keys = remove key_hash p.keys }) else leave

-- `replace_key`
unfoldable pub replace_key : String → String → KeyRecord → Payload → Change
replace_key old_hash new_hash stored p =
    if has old_hash p.keys
    then write (record p { keys = insert new_hash stored (remove old_hash p.keys) })
    else leave

-- `rotate_stored`
unfoldable pub rotate_stored : String → (KeyRecord → String × KeyRecord) → Payload → Change
rotate_stored key_hash build_stored p = elim (lookup key_hash p.keys) [
  | none ↦ leave
  | some r ↦
      write
        (record p { keys = insert (build_stored r).0 (build_stored r).1 (remove key_hash p.keys) })
]

-- One delta of `merge_usage` on a record's usage, and one entry of a tracker's pending deltas.
abbrev pub or_newer : Option String → Option String → Option String
or_newer none old = old
or_newer (some t) old = some t

abbrev pub add_usage : UsageEntry → UsageEntry → UsageEntry
add_usage delta u = record {
  requests = u.requests + delta.requests;
  last_used_at = or_newer delta.last_used_at u.last_used_at;
  last_used_ip = or_newer delta.last_used_ip u.last_used_ip;
}

abbrev pub with_usage : UsageEntry → KeyRecord → KeyRecord
with_usage delta r = record r { usage = add_usage delta r.usage }

-- The loop of `merge_usage`: an identity that has no record is passed over.
unfoldable pub merge_deltas : Dict UsageEntry → Dict KeyRecord → Dict KeyRecord
merge_deltas [] m = m
merge_deltas ((k, delta) ∷ rest) m = elim (lookup k m) [
  | none ↦ merge_deltas rest m
  | some r ↦ merge_deltas rest (insert k (with_usage delta r) m)
]

abbrev pub any_known : Dict UsageEntry → Dict KeyRecord → Bool
any_known [] m = false
any_known ((k, _) ∷ rest) m = has k m || any_known rest m

-- `merge_usage`
unfoldable pub merge_usage : Dict UsageEntry → Payload → Change
unfolding merge_deltas
merge_usage deltas p =
    if any_known deltas p.keys
    then write (record p { keys = merge_deltas deltas p.keys })
    else leave
