-- ===== src/ApiKeys/Authenticator.antt =====
-- `ApiKeyAuthenticator` (src/api_key_auth.py). The store is the one that the usage tracker holds.
-- `supplied` is the credential as `strip()` leaves it. `sha256` is the hex digest of `hashlib`, and
-- `parse` is `datetime.fromisoformat`, as a number of seconds.
use rag_pipeline_windows.Base.{
  ℕ, zero, suc, leb, max, ◌==◌, not, ◌&&◌, String, Bool, true, false, Option, none, some,
  if◌then◌else◌,
}
use rag_pipeline_windows.Base.Dict.{lookup}
use rag_pipeline_windows.ApiKeys.{
  Role, admin, user, KeyStatus, active, disabled, other_status, KeyRecord, PermissionSet, Payload,
  no_usage, permset_admin, permset_user, role_of,
}
use rag_pipeline_windows.ApiKeys.Store.{
  add, KeyStore, Reply, value_error, load_raw, commit, update, delete,
}
use rag_pipeline_windows.ApiKeys.Limits.{RateLimiter, check}
use rag_pipeline_windows.ApiKeys.Usage.{UsageTracker, record_use}

pub record Authenticator : Type 0 where
  pub default_rate_limit : ℕ
  pub rate_limiter : RateLimiter
  pub usage : UsageTracker

pub record AuthResult : Type 0 where
  pub key_id : String
  pub role : Role
  pub label : String
  pub rate_limit_per_minute : ℕ
  pub is_master : Bool
  pub permission_set : String

pub data AuthReply : Type 0 where
  -- status 401 and the detail
  rejection : String → AuthReply
  -- `RateLimitExceeded`
  limited : ℕ → AuthReply
  accepted : AuthResult → AuthReply

-- The clocks and the surroundings of one request.
pub record Moment : Type 0 where
  pub ticks_per_second : ℕ
  pub monotonic : ℕ
  pub utc : ℕ
  pub iso : String
  pub client_ip : Option String
  pub track : Bool
  pub disk_ok : Bool

-- `_enforce_limit_and_track`
unfoldable pub enforce : Moment → AuthResult → Authenticator → AuthReply × Authenticator
enforce t r a =
    let c = check t.ticks_per_second r.key_id r.rate_limit_per_minute t.monotonic a.rate_limiter in
    let counted = record_use t.iso t.disk_ok r.key_id t.client_ip a.usage in
    if c.0.0
    then (accepted r, record a { rate_limiter = c.1; usage = if t.track then counted else a.usage })
    else (limited (max 1 c.0.1), record a { rate_limiter = c.1 })

abbrev pub master_result : ℕ → AuthResult
master_result limit = record {
  key_id = "__master__";
  role = admin;
  label = "master";
  rate_limit_per_minute = limit;
  is_master = true;
  permission_set = permset_admin;
}

-- `int(per_key_limit) if per_key_limit else self.default_rate_limit`
abbrev pub limit_of : Option ℕ → ℕ → ℕ
limit_of none d = d
limit_of (some zero) d = d
limit_of (some (suc n)) d = suc n

abbrev pub is_disabled : KeyStatus → Bool
is_disabled disabled = true
is_disabled active = false
is_disabled (other_status text) = false

abbrev pub result_of : String → KeyRecord → PermissionSet → ℕ → AuthResult
result_of key_hash r set d = record {
  key_id = key_hash;
  role = role_of set;
  label = r.label;
  rate_limit_per_minute = limit_of r.rate_limit_per_minute d;
  is_master = false;
  permission_set = set.name;
}

-- `load`, which leaves the payload in the cache
abbrev pub reload : String → Authenticator → Payload × Authenticator
reload now a =
    let l = load_raw now a.usage.store in
    (l.0, record a { usage = record (a.usage) { store = l.1 } })

module _ (sha256 : String → String) (parse : String → Option ℕ) where
  -- `_is_expired`
  unfoldable pub is_expired : ℕ → Option String → Bool
  is_expired now none = false
  is_expired now (some text) = elim (parse text) [ none ↦ false | some at ↦ leb at now ]

  -- The part of `authenticate` that has found the record under the credential's hash.
  unfoldable pub authenticate_record :
      Moment → String → KeyRecord → Authenticator → AuthReply × Authenticator
  unfolding is_expired enforce
  authenticate_record t key_hash r a =
      if is_disabled r.status
      then (rejection "This API key has been disabled.", a)
      else if is_expired t.utc r.expires_at
      then (rejection "This API key has expired.", a)
      else let l = reload t.iso a in
        elim (lookup r.permission_set l.0.permission_sets) [
          | none ↦ (rejection "This API key's permission set no longer exists.", l.1)
          | some set ↦ enforce t (result_of key_hash r set a.default_rate_limit) l.1
        ]

  unfoldable pub authenticate_key : Moment → String → Authenticator → AuthReply × Authenticator
  unfolding authenticate_record
  authenticate_key t supplied a =
      let l = reload t.iso a in
      elim (lookup (sha256 supplied) l.0.keys) [
        | none ↦ (rejection "Invalid or missing API key.", l.1)
        | some r ↦ authenticate_record t (sha256 supplied) r l.1
      ]

  -- `authenticate`
  unfoldable pub authenticate : Moment → String → String → Authenticator → AuthReply × Authenticator
  unfolding enforce authenticate_key
  authenticate t supplied master_token a =
      if supplied == ""
      then (rejection "An API key is required. Provide it via the X-API-Token header.", a)
      else if not (master_token == "") && supplied == master_token
      then enforce t (master_result a.default_rate_limit) a
      else authenticate_key t supplied a

-- The record that `create_key` stores, for a set that exists. `prefix` and `expires_at` are as
-- `make_prefix` and `_parse_expires` return them, `limit` as `_coerce_optional_int` does.
unfoldable pub new_key_record :
    String → String → String → Option String → Option ℕ → PermissionSet → KeyRecord
new_key_record now label prefix expires_at limit set = record {
  label = label;
  prefix = prefix;
  status = active;
  role = role_of set;
  permission_set = set.name;
  created_at = now;
  expires_at = expires_at;
  rate_limit_per_minute = limit;
  usage = no_usage;
}

-- The builtin set of a role
abbrev pub set_of_role : Role → String
set_of_role admin = permset_admin
set_of_role user = permset_user

-- `create_key` of the key whose digest is `key_hash`. A name that is empty leaves it to the role.
unfoldable pub create_key :
    String
    → Bool
    → String
    → String
    → String
    → Option String
    → Option ℕ
    → String
    → Role
    → KeyStore
    → Reply × KeyStore
unfolding commit new_key_record
create_key now ok key_hash label prefix expires_at limit permission_set role s =
    let l = load_raw now s in
    let name = if permission_set == "" then set_of_role role else permission_set in
    elim (lookup name l.0.permission_sets) [
      | none ↦ (value_error, l.1)
      | some set ↦
          commit now ok (add key_hash (new_key_record now label prefix expires_at limit set)) l.1
    ]

-- `set_status`
unfoldable pub set_status : String → Bool → String → KeyStatus → KeyStore → Reply × KeyStore
unfolding commit
set_status now ok key_hash (other_status text) s = (value_error, s)
set_status now ok key_hash active s =
    commit now ok (update key_hash (λ r. record r { status = active })) s
set_status now ok key_hash disabled s =
    commit now ok (update key_hash (λ r. record r { status = disabled })) s

-- `set_permission_set`: the set is read before the store is locked for the update.
unfoldable pub set_permission_set : String → Bool → String → String → KeyStore → Reply × KeyStore
unfolding commit
set_permission_set now ok key_hash name s =
    let l = load_raw now s in
    elim (lookup name l.0.permission_sets) [
      | none ↦ (value_error, l.1)
      | some set ↦
          commit now ok
            (update key_hash (λ r. record r { permission_set = set.name; role = role_of set })) l.1
    ]

-- `set_role`
unfoldable pub set_role : String → Bool → String → Role → KeyStore → Reply × KeyStore
unfolding set_permission_set
set_role now ok key_hash admin s = set_permission_set now ok key_hash permset_admin s
set_role now ok key_hash user s = set_permission_set now ok key_hash permset_user s

-- `reset_usage`
unfoldable pub reset_usage : String → Bool → String → KeyStore → Reply × KeyStore
unfolding commit
reset_usage now ok key_hash s =
    commit now ok (update key_hash (λ r. record r { usage = no_usage })) s

-- `delete_key`
unfoldable pub delete_key : String → Bool → String → KeyStore → Reply × KeyStore
unfolding commit
delete_key now ok key_hash s = commit now ok (delete key_hash) s
