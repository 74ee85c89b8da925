-- ===== src/ApiKeys/Roles.antt =====
-- The permission sets and the keys that name them, under the methods of `KeyStore`.
use rag_pipeline_windows.Base.{
  ◌==◌, String, Bool, true, false, some, [], ◌∷◌, ◌≡◌, refl, sym, inl, inr, arith, eq_iff,
  Bool-cases, Option-cases, subst,
}
use rag_pipeline_windows.Base.Dict.{
  Dict, lookup, insert, has, has-lookup, lookup-insert, lookup-remove,
}
use rag_pipeline_windows.ApiKeys.{KeyRecord, PermissionSet, Payload, role_of}
use rag_pipeline_windows.ApiKeys.Sets.{
  add_permission_set, update_permission_set, delete_permission_set, is_builtin, sync_role,
  sync_key_roles, structural, in_use,
}
use rag_pipeline_windows.ApiKeys.Store.{Change, refuse, leave, write}

-- A key's set exists and its role is the one the set's admin flag gives.
abbrev pub Backed : Dict PermissionSet → KeyRecord → Type 0
Backed sets r =
    (set : PermissionSet) × (lookup r.permission_set sets ≡ some set) × (r.role ≡ role_of set)

-- No key of the payload is orphaned, and the roles mirror the sets.
abbrev pub Consistent : Payload → Type 0
Consistent p = (k : String) (r : KeyRecord) → lookup k p.keys ≡ some r → Backed p.permission_sets r

-- What holds of the payload a change writes.
abbrev pub Writes : (Payload → Type 0) → Change → Type 0
Writes P refuse = Bool
Writes P leave = Bool
Writes P (write p) = P p

in_use-lookup :
    (name k : String) (r : KeyRecord) (m : Dict KeyRecord)
    → in_use name m ≡ false
    → lookup k m ≡ some r
    → (r.permission_set == name) ≡ false
unfolding lookup
in_use-lookup name k r [] h e = ground (arith, e)
in_use-lookup name k r ((j, q) ∷ m) h e = elim (Bool-cases (j == k)) [
  | inl t ↦ ground (arith, t, e, h)
  | inr t ↦ ground (arith, t, e, h, in_use-lookup name k r m)
]

-- A set that no key uses may go.
delete_permission_set-Consistent :
    (name : String) (p : Payload) → Consistent p → Writes Consistent (delete_permission_set name p)
unfolding delete_permission_set
delete_permission_set-Consistent name p c = elim (Bool-cases (is_builtin name)) [
  | inl b ↦ rw b true
  | inr b ↦ elim (Bool-cases (has name p.permission_sets)) [
    | inr h ↦ rw (b, h) true
    | inl h ↦ elim (Bool-cases (in_use name p.keys)) [
      | inl u ↦ rw (b, h, u) true
      | inr u ↦
          rw (b, h, u)
            (λ k r e.
              let (set, l, o) = c k r e in
              (
                set,
                ground (
                  arith,
                  lookup-remove name r.permission_set p.permission_sets,
                  in_use-lookup name k r p.keys u e,
                  l,
                  eq_iff name r.permission_set,
                  eq_iff r.permission_set name,
                ),
                o,
              ))
    ]
  ]
]

-- A new set has a name that no set had.
add_permission_set-Consistent :
    (name : String) (set : PermissionSet) (p : Payload)
    → Consistent p
    → Writes Consistent (add_permission_set name set p)
unfolding add_permission_set
add_permission_set-Consistent name set p c = elim (Bool-cases (is_builtin name)) [
  | inl b ↦ rw b true
  | inr b ↦ elim (Bool-cases (has name p.permission_sets)) [
    | inl h ↦ rw (b, h) true
    | inr h ↦
        rw (b, h)
          (λ k r e.
            let (old, l, o) = c k r e in
            (
              old,
              ground (
                arith,
                lookup-insert name r.permission_set set p.permission_sets,
                has-lookup name p.permission_sets,
                l,
                eq_iff name r.permission_set,
              ),
              o,
            ))
  ]
]

lookup-sync_key_roles :
    (name k : String) (set : PermissionSet) (m : Dict KeyRecord) (r : KeyRecord)
    → lookup k (sync_key_roles name set m) ≡ some r
    → (q : KeyRecord) × (lookup k m ≡ some q) × (r ≡ sync_role name set q)
unfolding lookup sync_key_roles
lookup-sync_key_roles name k set [] r e = ground (arith, e)
lookup-sync_key_roles name k set ((j, q) ∷ m) r e = elim (Bool-cases (j == k)) [
  | inl t ↦ rw t (q, refl, ground (arith, t, e))
  | inr t ↦ rw t (lookup-sync_key_roles name k set m r (ground (arith, t, e)))
]

-- A synchronised key mirrors the set that is written.
sync_role-Backed :
    (name : String) (set : PermissionSet) (sets : Dict PermissionSet) (q : KeyRecord)
    → Backed sets q
    → Backed (insert name set sets) (sync_role name set q)
sync_role-Backed name set sets q (old, l, o) = elim (Bool-cases (q.permission_set == name)) [
  | inl t ↦ rw t (
    set,
    ground (
      arith,
      lookup-insert name q.permission_set set sets,
      t,
      eq_iff name q.permission_set,
      eq_iff q.permission_set name,
    ),
    refl,
  )
  | inr t ↦ rw t (
    old,
    ground (
      arith,
      lookup-insert name q.permission_set set sets,
      t,
      l,
      eq_iff name q.permission_set,
      eq_iff q.permission_set name,
    ),
    o,
  )
]

update_permission_set-Consistent :
    (name now : String) (mutate : PermissionSet → PermissionSet) (p : Payload)
    → Consistent p
    → Writes Consistent (update_permission_set name now mutate p)
unfolding update_permission_set
update_permission_set-Consistent name now mutate p c =
    elim (Option-cases (lookup name p.permission_sets)) [
      | inl n ↦ rw (n, update_permission_set) true
      | inr (old, n) ↦
          rw (n, update_permission_set)
            (λ k r e.
              let (q, m, t) =
                lookup-sync_key_roles name k (structural name now old (mutate old)) p.keys r e in
              subst (Backed (insert name (structural name now old (mutate old)) p.permission_sets))
                (sym t)
                (sync_role-Backed name (structural name now old (mutate old)) p.permission_sets q
                  (c k q m)))
    ]

-- The methods that change the permission sets.
pub data SetMethod : Type 0 where
  adds_set : String → PermissionSet → SetMethod
  updates_set : String → String → (PermissionSet → PermissionSet) → SetMethod
  deletes_set : String → SetMethod

unfoldable pub change_of : SetMethod → Payload → Change
change_of (adds_set name set) p = add_permission_set name set p
change_of (updates_set name now mutate) p = update_permission_set name now mutate p
change_of (deletes_set name) p = delete_permission_set name p

written-Consistent :
    (m : SetMethod) (p q : Payload) → Consistent p → change_of m p ≡ write q → Consistent q
unfolding change_of
written-Consistent (adds_set name set) p q c e =
    subst (Writes Consistent) e (add_permission_set-Consistent name set p c)
written-Consistent (updates_set name now mutate) p q c e =
    subst (Writes Consistent) e (update_permission_set-Consistent name now mutate p c)
written-Consistent (deletes_set name) p q c e =
    subst (Writes Consistent) e (delete_permission_set-Consistent name p c)

-- No change of the permission sets orphans a key or leaves its role behind: if in a payload the set of
-- every key exists, and the key's role is the one the set's admin flag gives, then so it is for each
-- key in the payload that `add_permission_set`, `update_permission_set` or `delete_permission_set` writes.
pub change_of-Backed :
    (m : SetMethod) (p q : Payload) (k : String) (r : KeyRecord)
    → Consistent p
    → change_of m p ≡ write q
    → lookup k q.keys ≡ some r
    → Backed q.permission_sets r
change_of-Backed m p q k r c e = written-Consistent m p q c e k r
