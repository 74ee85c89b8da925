-- ===== src/Caches.antt =====
-- src/caches.py: `BoundedLRU`. The `OrderedDict` is the list of entries, the least recently used
-- first. Every method runs under the cache's own lock, so a method is one step. The keys are texts,
-- as all the callers' keys (file paths) are.
pub mod Entries
pub mod Recency
pub mod Bounds
mod Tests
use rag_pipeline_windows.Base.{
  ℕ, suc, ltb, ◌==◌, String, Bool, true, false, Option, none, some, List, [], ◌∷◌, ◌++◌, length,
  if◌then◌else◌,
}
use rag_pipeline_windows.Base.Dict.{Dict, lookup, insert, remove, has}

pub record BoundedLru {ℓ} (V : Type ℓ) : Type ℓ where
  pub entries : Dict V
  pub maxsize : ℕ

module _ {ℓ} {V : Type ℓ} where
  -- `none` is the `ValueError` of a `maxsize` below 1.
  unfoldable pub init : ℕ → Option (BoundedLru V)
  init maxsize = if ltb maxsize 1 then none else some (record { entries = []; maxsize = maxsize })

  -- `move_to_end`: the key is there
  unfoldable pub bump : String → Dict V → Dict V
  bump k m = elim (lookup k m) [ none ↦ m | some v ↦ remove k m ++ (k, v) ∷ [] ]

  -- `popitem(last=False)` while there are more than `maxsize` entries. `n` counts the entries.
  unfoldable pub evict_if_needed : ℕ → Dict V → Dict V
  evict_if_needed maxsize [] = []
  evict_if_needed maxsize (e ∷ m) =
      let rest = evict_if_needed maxsize m in if ltb maxsize (length (e ∷ m)) then rest else e ∷ m

  -- `__getitem__` and `get`: the value if the key is there, which becomes the most recent.
  unfoldable pub get : String → BoundedLru V → Option V × BoundedLru V
  unfolding bump
  get k c = (lookup k c.entries, record c { entries = bump k c.entries })

  -- `__setitem__`
  unfoldable pub set_item : String → V → BoundedLru V → BoundedLru V
  unfolding bump evict_if_needed
  set_item k v c =
      if has k c.entries
      then record c { entries = bump k (insert k v c.entries) }
      else record c { entries = evict_if_needed c.maxsize (insert k v c.entries) }

  -- `pop`
  unfoldable pub pop : String → BoundedLru V → Option V × BoundedLru V
  pop k c = (lookup k c.entries, record c { entries = remove k c.entries })

  -- `setdefault`
  unfoldable pub setdefault : String → V → BoundedLru V → V × BoundedLru V
  unfolding bump evict_if_needed
  setdefault k d c = elim (lookup k c.entries) [
    | some v ↦ (v, record c { entries = bump k c.entries })
    | none ↦ (d, record c { entries = evict_if_needed c.maxsize (insert k d c.entries) })
  ]

  unfoldable pub clear : BoundedLru V → BoundedLru V
  clear c = record c { entries = [] }
