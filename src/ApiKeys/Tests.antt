-- ===== src/ApiKeys/Tests.antt =====
-- The theorems on the API keys at concrete stores and limiters.
use rag_pipeline_windows.Base.{
  ℕ, ◌≤◌, ◌==◌, String, true, false, Option, none, List, [], ◌∷◌, ◌≡◌, refl, arith, keep, length,
  ◌⊎◌, inl, inr, subst, Bool-cases,
}
use rag_pipeline_windows.Base.Dict.{lookup, insert}
use rag_pipeline_windows.ApiKeys.{KeyRecord, no_usage, Payload, PermissionSet, user, admin, active}
use rag_pipeline_windows.ApiKeys.Sets.{update_permission_set, sync_key_roles, structural}
use rag_pipeline_windows.ApiKeys.Store.{KeyStore, holds, empty, load_raw}
use rag_pipeline_windows.ApiKeys.Roles.{
  Consistent, Backed, updates_set, change_of, change_of-Backed,
}
use rag_pipeline_windows.ApiKeys.Limits.{RateLimiter, check, drop_expired}
use rag_pipeline_windows.ApiKeys.Times.{counts}
use rag_pipeline_windows.ApiKeys.Requests.{Request, granted}
use rag_pipeline_windows.ApiKeys.Window.{window_bound}
use rag_pipeline_windows.ApiKeys.Retry.{retry_after_suffices}
use rag_pipeline_windows.ApiKeys.Usage.{UsageTracker, flush, record_use}
use rag_pipeline_windows.ApiKeys.Counting.{recorded, plus, seen}
use rag_pipeline_windows.ApiKeys.Authenticator.{
  Authenticator, AuthResult, Moment, result_of, master_result, authenticate,
}
use rag_pipeline_windows.ApiKeys.Access.{Entitled, authenticate-Entitled}
use rag_pipeline_windows.ApiKeys.Retries.{total, record_use_counts_once, failed_flush_counts_twice}

abbrev limiter : RateLimiter
limiter = record { window = 60; buckets = [] }

abbrev three_calls : List Request
three_calls =
    record { identity = "k"; limit = 2; now = 5 }
    ∷ record { identity = "k"; limit = 2; now = 6 }
    ∷ record { identity = "k"; limit = 2; now = 7 }
    ∷ []

window_bound_example : length (keep (counts 60 10) (granted 1 "k" three_calls limiter [])) ≤ 2
unfolding lookup
window_bound_example =
    window_bound 1 "k" 1 10 three_calls limiter (omega arith) refl refl (omega arith)

-- The caller has used its two requests.
abbrev full_limiter : RateLimiter
full_limiter = record { window = 60; buckets = ("k", 5 ∷ 6 ∷ []) ∷ [] }

retry_after_suffices_example : (check 1 "k" 2 66 (check 1 "k" 2 7 full_limiter).1).0.0 ≡ true
unfolding check drop_expired lookup
retry_after_suffices_example =
    retry_after_suffices 1 "k" 1 7 66 full_limiter (omega arith) (omega arith) refl (omega arith)

abbrev laptop : KeyRecord
laptop = record {
  label = "laptop";
  prefix = "rag_";
  status = active;
  role = user;
  permission_set = "user";
  created_at = "t0";
  expires_at = none;
  rate_limit_per_minute = none;
  usage = no_usage;
}

abbrev payload : Payload
payload = record (empty "t0") { keys = ("k", laptop) ∷ [] }

abbrev store : KeyStore
store = record { file = holds 1 payload; cache = none; is_unreadable = false }

abbrev tracker : UsageTracker
tracker = record {
  store = store;
  persist_interval = 5;
  pending = ("k", record { requests = 3; last_used_at = none; last_used_ip = none }) ∷ [];
}

record_use_counts_once_example :
    total "t1" "k" (record_use "t1" true "k" none tracker) ≡ plus 1 (total "t1" "k" tracker)
record_use_counts_once_example = record_use_counts_once "t1" "k" "k" none tracker 1 payload refl

failed_flush_counts_twice_example :
    recorded "k" (seen "t1" (flush "t1" true (flush "t1" false tracker)).store).keys
    ≡ plus 3 (plus 3 (recorded "k" (seen "t1" tracker.store).keys))
unfolding load_raw
failed_flush_counts_twice_example = failed_flush_counts_twice "t1" "k" tracker 1 payload refl refl

abbrev user_set : PermissionSet
user_set = record {
  name = "user";
  label = "Standard user";
  categories = "*" ∷ [];
  can_write = true;
  is_admin = false;
  builtin = true;
  created_at = "t0";
  updated_at = "t0";
}

payload-Consistent : Consistent payload
unfolding lookup
payload-Consistent k r e =
    subst (λ (q : KeyRecord). Backed payload.permission_sets q) (only (Bool-cases ("k" == k)))
      (user_set, refl, refl)
  where
    only : (("k" == k) ≡ true) ⊎ (("k" == k) ≡ false) → laptop ≡ r
    only (inl t) = ground (arith, t, e)
    only (inr t) = ground (arith, t, e)

-- The standard users become administrators, and so does the key.
abbrev promote : PermissionSet → PermissionSet
promote p = record p { is_admin = true }

abbrev promoted : Payload
promoted = record {
  permission_sets =
      insert "user" (structural "user" "t1" user_set (promote user_set)) payload.permission_sets;
  keys = ("k", record laptop { role = admin }) ∷ [];
}

abbrev promoted_laptop : KeyRecord
promoted_laptop = record laptop { role = admin }

change_of-Backed_example : Backed promoted.permission_sets promoted_laptop
unfolding change_of update_permission_set sync_key_roles lookup structural
change_of-Backed_example =
    change_of-Backed (updates_set "user" "t1" promote) payload promoted "k" promoted_laptop
      payload-Consistent refl refl

-- A digest that is the text itself, and no dates.
abbrev same_text : String → String
same_text text = text

abbrev no_date : String → Option ℕ
no_date text = none

abbrev moment : Moment
moment = record {
  ticks_per_second = 1;
  monotonic = 100;
  utc = 1000;
  iso = "t1";
  client_ip = none;
  track = true;
  disk_ok = true;
}

abbrev authenticator : Authenticator
authenticator = record { default_rate_limit = 60; rate_limiter = limiter; usage = tracker }

abbrev credential : String
credential = "k"

abbrev root : String
root = "root"

abbrev laptop_result : AuthResult
laptop_result = result_of "k" laptop user_set 60

authenticate-Entitled_example :
    ((credential == "") ≡ false)
    × (((root ≡ credential) × (master_result 60 ≡ laptop_result))
        ⊎ Entitled same_text no_date moment credential authenticator laptop_result)
unfolding authenticate lookup load_raw check
authenticate-Entitled_example =
    authenticate-Entitled same_text no_date moment credential root authenticator laptop_result refl
