-- ===== src/ApiKeys.antt =====
-- The API keys of `src/api_key_auth.py`: the records of the store and of an authenticated caller.
-- A permission set's name is the one `normalize_permission_set_name` returns. The children: `Store`
-- and `Sets` are `KeyStore`, `Limits` is `RateLimiter`, `Usage` is `UsageTracker`, `Authenticator` is
-- `ApiKeyAuthenticator`; the others hold the theorems.
use rag_pipeline_windows.Base.{
  ℕ, String, Bool, true, false, Option, none, some, List, [], ◌∷◌, if◌then◌else◌,
}
use rag_pipeline_windows.Base.Dict.{Dict}
pub mod Store
pub mod Sets
pub mod Roles
pub mod Limits
pub mod Times
pub mod Requests
pub mod Window
pub mod Retry
pub mod Usage
pub mod Counting
pub mod Retries
pub mod Authenticator
pub mod Access
mod Tests

pub data Role : Type 0 where
  user : Role
  admin : Role

-- `status` of a key record. `_normalize` keeps whatever text the file has.
pub data KeyStatus : Type 0 where
  active : KeyStatus
  disabled : KeyStatus
  -- any other text
  other_status : String → KeyStatus

-- `usage` of a key record, and one entry of a tracker's pending deltas.
pub record UsageEntry : Type 0 where
  pub requests : ℕ
  pub last_used_at : Option String
  pub last_used_ip : Option String

abbrev pub no_usage : UsageEntry
no_usage = record { requests = 0; last_used_at = none; last_used_ip = none }

pub record PermissionSet : Type 0 where
  pub name : String
  pub label : String
  pub categories : List String
  pub can_write : Bool
  pub is_admin : Bool
  pub builtin : Bool
  pub created_at : String
  pub updated_at : String

pub record KeyRecord : Type 0 where
  pub label : String
  pub prefix : String
  pub status : KeyStatus
  pub role : Role
  pub permission_set : String
  pub created_at : String
  pub expires_at : Option String
  pub rate_limit_per_minute : Option ℕ
  pub usage : UsageEntry

pub record Payload : Type 0 where
  pub permission_sets : Dict PermissionSet
  pub keys : Dict KeyRecord

abbrev pub permset_admin : String
permset_admin = "admin"

abbrev pub permset_user : String
permset_user = "user"

-- The role that mirrors a set's admin flag.
abbrev pub role_of : PermissionSet → Role
role_of p = if p.is_admin then admin else user
