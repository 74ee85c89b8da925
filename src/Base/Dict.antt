-- ===== src/Base/Dict.antt =====
-- Python's `dict` with text keys, in insertion order: a write to a key that is there keeps its place,
-- any other goes to the end.
use Prim.Native.Nat.{◌+◌}
use Prim.Native.String.{String}
use mathlib.Core.Path.{◌≡◌, refl}
use mathlib.Core.Bool.{Bool, true, false}
use mathlib.Core.Option.{Option, none, some}
use mathlib.Core.List.{List, [], ◌∷◌, ◌++◌}
use native.Mathlib.Omega.{arith}
use text.Mathlib.TextEquality.{eq_iff}
use rag_pipeline_windows.Base.Tests.{◌==◌, if◌then◌else◌, is_some}
use rag_pipeline_windows.Base.Lists.{
  length, length-append, contains, without, distinct, contains-without, distinct-without,
  distinct-snoc,
}

abbrev pub Dict {ℓ} : Type ℓ → Type ℓ
Dict V = List (String × V)

module _ {ℓ} {V : Type ℓ} where
  -- d.get(k)
  unfoldable pub lookup : String → Dict V → Option V
  lookup name [] = none
  lookup name ((key, value) ∷ entries) = if key == name then some value else lookup name entries

  -- d[k] = v
  unfoldable pub insert : String → V → Dict V → Dict V
  insert name value [] = (name, value) ∷ []
  insert name value ((key, old) ∷ entries) =
      if key == name then (key, value) ∷ entries else (key, old) ∷ insert name value entries

  -- d.pop(k, None)
  unfoldable pub remove : String → Dict V → Dict V
  remove name [] = []
  remove name ((key, old) ∷ entries) =
      let rest = remove name entries in if key == name then rest else (key, old) ∷ rest

  -- list(d)
  abbrev pub keys : Dict V → List String
  keys [] = []
  keys ((key, _) ∷ entries) = key ∷ keys entries

  -- k in d
  abbrev pub has : String → Dict V → Bool
  has name entries = contains name (keys entries)

module _ {ℓ} {V : Type ℓ} where
  pub lookup-insert :
      (name key : String) (value : V) (entries : Dict V)
      → lookup key (insert name value entries)
        ≡ (if name == key then some value else lookup key entries)
  unfolding lookup insert
  lookup-insert name key value [] = refl
  lookup-insert name key value ((first, old) ∷ entries) = ground (
    arith,
    eq_iff name key,
    eq_iff first name,
    eq_iff first key,
    lookup-insert name key value entries,
  )

  pub lookup-remove :
      (name key : String) (entries : Dict V)
      → lookup key (remove name entries) ≡ (if name == key then none else lookup key entries)
  unfolding lookup remove
  lookup-remove name key [] = ground arith
  lookup-remove name key ((first, old) ∷ entries) =
      ground (
        arith,
        eq_iff name key,
        eq_iff first name,
        eq_iff first key,
        lookup-remove name key entries,
      )

  pub has-lookup :
      (name : String) (entries : Dict V) → has name entries ≡ is_some (lookup name entries)
  unfolding lookup
  has-lookup name [] = refl
  has-lookup name ((key, old) ∷ entries) = ground (arith, has-lookup name entries)

  pub lookup-append_fresh :
      (name key : String) (value : V) (entries : Dict V)
      → has name entries ≡ false
      → lookup key (entries ++ (name, value) ∷ [])
        ≡ (if name == key then some value else lookup key entries)
  unfolding lookup
  lookup-append_fresh name key value [] h = refl
  lookup-append_fresh name key value ((first, old) ∷ entries) h = ground (
    arith,
    eq_iff name key,
    eq_iff first name,
    eq_iff first key,
    lookup-append_fresh name key value entries,
  )

  pub keys-append : (entries more : Dict V) → keys (entries ++ more) ≡ keys entries ++ keys more
  keys-append [] more = refl
  keys-append ((key, old) ∷ entries) more = ground (arith, keys-append entries more)

  pub keys-remove :
      (name : String) (entries : Dict V) → keys (remove name entries) ≡ without name (keys entries)
  unfolding remove
  keys-remove name [] = refl
  keys-remove name ((key, old) ∷ entries) = ground (arith, keys-remove name entries)

  -- A write to a key that is there keeps the keys and their order.
  pub keys-insert :
      (name : String) (value : V) (entries : Dict V)
      → keys (insert name value entries)
        ≡ (if has name entries then keys entries else keys entries ++ name ∷ [])
  unfolding insert
  keys-insert name value [] = refl
  keys-insert name value ((key, old) ∷ entries) =
      ground (arith, keys-insert name value entries, eq_iff key name)

  pub length-keys : (entries : Dict V) → length (keys entries) ≡ length entries
  length-keys [] = refl
  length-keys ((key, old) ∷ entries) = ground (arith, length-keys entries)

module _ {ℓ} {V : Type ℓ} where
  pub distinct-insert :
      (name : String) (value : V) (entries : Dict V)
      → distinct (keys entries) ≡ true
      → distinct (keys (insert name value entries)) ≡ true
  distinct-insert name value entries h =
      ground (arith, keys-insert name value entries, distinct-snoc name (keys entries))

  pub distinct-remove :
      (name : String) (entries : Dict V)
      → distinct (keys entries) ≡ true
      → distinct (keys (remove name entries)) ≡ true
  distinct-remove name entries h =
      ground (arith, keys-remove name entries, distinct-without name (keys entries))

  pub length-insert :
      (name : String) (value : V) (entries : Dict V)
      → length (insert name value entries)
        ≡ (if has name entries then length entries else length entries + 1)
  length-insert name value entries = ground (
    arith,
    length-keys (insert name value entries),
    length-keys entries,
    keys-insert name value entries,
    length-append (keys entries) (name ∷ []),
  )

  pub has-remove :
      (name key : String) (entries : Dict V)
      → has key (remove name entries) ≡ (if name == key then false else has key entries)
  has-remove name key entries =
      ground (arith, keys-remove name entries, contains-without name key (keys entries))

module _ {ℓ} {V : Type ℓ} where
  pub insert-insert_self :
      (name : String) (value old : V) (entries : Dict V)
      → insert name old (insert name value entries) ≡ insert name old entries
  unfolding insert
  insert-insert_self name value old [] = ground (arith, eq_iff name name)
  insert-insert_self name value old ((key, earlier) ∷ entries) =
      ground (arith, insert-insert_self name value old entries)

pub ruleset dict_laws = (lookup-insert, lookup-remove)
