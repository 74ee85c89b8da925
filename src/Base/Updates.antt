-- ===== src/Base/Updates.antt =====
-- Writing, removing and comparing many entries of dictionaries at once.
use Prim.Native.String.{String}
use mathlib.Core.Path.{◌≡◌, refl}
use mathlib.Core.Logic.{inl, inr}
use mathlib.Core.Bool.{Bool, true, false}
use mathlib.Core.Option.{Option, none, some}
use mathlib.Core.List.{List, [], ◌∷◌}
use native.Mathlib.Omega.{arith}
use text.Mathlib.TextEquality.{eq_iff}
use rag_pipeline_windows.Base.Tests.{if◌then◌else◌, Bool-cases, Option-cases}
use rag_pipeline_windows.Base.Lists.{contains, distinct}
use rag_pipeline_windows.Base.Dict.{
  Dict, lookup, insert, remove, keys, has, has-lookup, lookup-insert, lookup-remove,
  distinct-insert,
}

-- `a or b` between optional values
abbrev pub first_of {ℓ} : {V : Type ℓ} → Option V → Option V → Option V
first_of none o = o
first_of (some v) o = some v

-- d.update(changes)
unfoldable pub update_all {ℓ} : {V : Type ℓ} → Dict V → Dict V → Dict V
update_all [] d = d
update_all ((name, value) ∷ changes) d = update_all changes (insert name value d)

-- `for name in names: d.pop(name, None)`
unfoldable pub remove_all {ℓ} : {V : Type ℓ} → List String → Dict V → Dict V
remove_all [] d = d
remove_all (name ∷ names) d = remove_all names (remove name d)

-- `{name: value for name, value in d.items() if test(name, value)}`
unfoldable pub select {ℓ} : {V : Type ℓ} → (String → V → Bool) → Dict V → Dict V
select test [] = []
select test ((name, value) ∷ d) =
    let rest = select test d in if test name value then (name, value) ∷ rest else rest

-- The keys of `before` that `after` does not have.
unfoldable pub missing_keys {ℓ} : {V : Type ℓ} → Dict V → Dict V → List String
missing_keys [] after = []
missing_keys ((name, _) ∷ before) after =
    let rest = missing_keys before after in if has name after then rest else name ∷ rest

-- Whether a value is new over the old one; `same` is Python's `==`.
abbrev pub differs {ℓ} : {V : Type ℓ} → (V → V → Bool) → Option V → V → Bool
differs same none value = true
differs same (some old) value = if same old value then false else true

-- The entries of `after` that differ from those of `before`.
unfoldable pub changed_entries {ℓ} : {V : Type ℓ} → (V → V → Bool) → Dict V → Dict V → Dict V
changed_entries same before [] = []
changed_entries same before ((name, value) ∷ after) =
    let rest = changed_entries same before after in
    if differs same (lookup name before) value then (name, value) ∷ rest else rest

abbrev pub when {ℓ} : {V : Type ℓ} → (V → Bool) → Option V → Option V
when test none = none
when test (some value) = if test value then some value else none

pub lookup-update_all :
    {V : Type 0} (name : String) (changes d : Dict V)
    → distinct (keys changes) ≡ true
    → lookup name (update_all changes d) ≡ first_of (lookup name changes) (lookup name d)
unfolding update_all lookup
lookup-update_all name [] d u = refl
lookup-update_all name ((key, value) ∷ changes) d u = ground (
  arith,
  lookup-update_all name changes (insert key value d),
  lookup-insert key name value d,
  eq_iff key name,
  has-lookup key changes,
  Option-cases (lookup name changes),
)

pub lookup-remove_all :
    {V : Type 0} (name : String) (names : List String) (d : Dict V)
    → lookup name (remove_all names d) ≡ (if contains name names then none else lookup name d)
unfolding remove_all
lookup-remove_all name [] d = refl
lookup-remove_all name (key ∷ names) d =
    ground (
      arith,
      lookup-remove_all name names (remove key d),
      lookup-remove key name d,
      eq_iff key name,
    )

pub has-select :
    {V : Type 0} (name : String) (test : String → V → Bool) (d : Dict V)
    → has name d ≡ false
    → has name (select test d) ≡ false
unfolding select
has-select name test [] h = refl
has-select name test ((key, value) ∷ d) h = ground (arith, has-select name test d)

pub distinct-select :
    {V : Type 0} (test : String → V → Bool) (d : Dict V)
    → distinct (keys d) ≡ true
    → distinct (keys (select test d)) ≡ true
unfolding select
distinct-select test [] u = refl
distinct-select test ((key, value) ∷ d) u =
    ground (arith, distinct-select test d, has-select key test d)

absent : {V : Type 0} (name : String) (d : Dict V) → has name d ≡ false → lookup name d ≡ none
absent name d h = ground (arith, h, has-lookup name d, Option-cases (lookup name d))

pub lookup-select :
    {V : Type 0} (name : String) (test : String → V → Bool) (d : Dict V)
    → distinct (keys d) ≡ true
    → lookup name (select test d) ≡ when (test name) (lookup name d)
unfolding select lookup
lookup-select name test [] u = refl
lookup-select name test ((key, value) ∷ d) u = ground (
  arith,
  lookup-select name test d,
  eq_iff key name,
  has-select key test d,
  absent key (select test d),
  absent key d,
  Bool-cases (test key value),
)

pub contains-missing_keys :
    {V : Type 0} (name : String) (before after : Dict V)
    → contains name (missing_keys before after)
      ≡ (if has name after then false else has name before)
unfolding missing_keys
contains-missing_keys name [] after = ground arith
contains-missing_keys name ((key, value) ∷ before) after =
    ground (arith, contains-missing_keys name before after, eq_iff key name)

module _ {V : Type 0} (same : V → V → Bool) where
  pub has-changed_entries :
      (name : String) (before after : Dict V)
      → has name after ≡ false
      → has name (changed_entries same before after) ≡ false
  unfolding changed_entries
  has-changed_entries name before [] h = refl
  has-changed_entries name before ((key, value) ∷ after) h =
      ground (arith, has-changed_entries name before after)

  pub distinct-changed_entries :
      (before after : Dict V)
      → distinct (keys after) ≡ true
      → distinct (keys (changed_entries same before after)) ≡ true
  unfolding changed_entries
  distinct-changed_entries before [] u = refl
  distinct-changed_entries before ((key, value) ∷ after) u =
      ground (arith, distinct-changed_entries before after, has-changed_entries key before after)

  pub lookup-changed_entries :
      (name : String) (before after : Dict V)
      → distinct (keys after) ≡ true
      → lookup name (changed_entries same before after)
        ≡ when (differs same (lookup name before)) (lookup name after)
  unfolding changed_entries lookup
  lookup-changed_entries name before [] u = refl
  lookup-changed_entries name before ((key, value) ∷ after) u =
      elim (Bool-cases (differs same (lookup key before) value)) [
        | inl t ↦
            rw t (ground (arith, t, u, lookup-changed_entries name before after, eq_iff key name))
        | inr t ↦ rw t (
            ground (
              arith,
              t,
              u,
              lookup-changed_entries name before after,
              eq_iff key name,
              absent key after,
              has-changed_entries key before after,
              absent key (changed_entries same before after),
            ))
      ]

pub distinct-update_all :
    {V : Type 0} (changes d : Dict V)
    → distinct (keys d) ≡ true
    → distinct (keys (update_all changes d)) ≡ true
unfolding update_all
distinct-update_all [] d u = u
distinct-update_all ((name, value) ∷ changes) d u =
    distinct-update_all changes (insert name value d) (distinct-insert name value d u)
