-- ===== src/ApiKeys/Sets.antt =====
-- The permission sets of `KeyStore` (src/api_key_auth.py). A label is as `strip()` leaves it.
use rag_pipeline_windows.Base.{
  ◌==◌, String, Bool, true, false, ◌||◌, none, some, [], ◌∷◌, if◌then◌else◌,
}
use rag_pipeline_windows.Base.Dict.{Dict, lookup, insert, remove, has}
use rag_pipeline_windows.ApiKeys.{
  KeyRecord, PermissionSet, Payload, permset_admin, permset_user, role_of,
}
use rag_pipeline_windows.ApiKeys.Store.{Change, refuse, leave, write}

abbrev pub is_builtin : String → Bool
is_builtin name = (permset_admin == name) || (permset_user == name)

-- `add_permission_set`: `set` is the record built from the arguments, whose `builtin` is False
unfoldable pub add_permission_set : String → PermissionSet → Payload → Change
add_permission_set name set p =
    if is_builtin name
    then refuse
    else if has name p.permission_sets
    then refuse
    else write (record p { permission_sets = insert name set p.permission_sets })

-- One row of `_sync_key_roles`.
abbrev pub sync_role : String → PermissionSet → KeyRecord → KeyRecord
sync_role name set r = if r.permission_set == name then record r { role = role_of set } else r

unfoldable pub sync_key_roles : String → PermissionSet → Dict KeyRecord → Dict KeyRecord
sync_key_roles name set [] = []
sync_key_roles name set ((k, r) ∷ m) = (k, sync_role name set r) ∷ sync_key_roles name set m

-- The flags that `update_permission_set` puts back whatever was merged in.
unfoldable pub structural : String → String → PermissionSet → PermissionSet → PermissionSet
structural name now old merged =
    let kept = record merged {
      name = name;
      label = if "" == merged.label then name else merged.label;
      builtin = merged.builtin || is_builtin name;
      created_at = old.created_at;
      updated_at = now;
    } in
    if permset_admin == name
    then record kept { is_admin = true; can_write = true; categories = "*" ∷ [] }
    else kept

-- `update_permission_set`, with `mutate` as the function that merges it into the record
unfoldable pub update_permission_set :
    String → String → (PermissionSet → PermissionSet) → Payload → Change
unfolding structural
update_permission_set name now mutate p = elim (lookup name p.permission_sets) [
  | none ↦ leave
  | some old ↦ write (record p {
    permission_sets = insert name (structural name now old (mutate old)) p.permission_sets;
    keys = sync_key_roles name (structural name now old (mutate old)) p.keys;
  })
]

abbrev pub in_use : String → Dict KeyRecord → Bool
in_use name [] = false
in_use name ((k, r) ∷ m) = (r.permission_set == name) || in_use name m

-- `delete_permission_set`
unfoldable pub delete_permission_set : String → Payload → Change
delete_permission_set name p =
    if is_builtin name
    then refuse
    else if has name p.permission_sets
    then (if in_use name p.keys
        then refuse
        else write (record p { permission_sets = remove name p.permission_sets }))
    else leave
