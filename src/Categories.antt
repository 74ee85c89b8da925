-- ===== src/Categories.antt =====
-- src/categories.py: `CategoryStore`, the tables of the categories and of the memberships of the sources.
-- A key is as `normalize_category_key` returns it, a label as `normalize_category_label` does, a
-- hash as `strip()` leaves it; a weight is in millionths. Every method is one transaction, but
-- `set_memberships`, whose test of the category is a transaction of its own; the time between the two is
-- not modelled.
pub mod Members
mod Tests
use rag_pipeline_windows.Base.{
  ℕ, suc, ◌+◌, ◌==◌, ltb, not, String, Bool, true, false, ◌||◌, Option, none, some, List, [], ◌∷◌,
  length, if◌then◌else◌, get_or_else,
}
use rag_pipeline_windows.Base.Dict.{Dict, lookup, insert, remove, has}
use rag_pipeline_windows.JobQueue.Enqueue.{sorted_set}

abbrev pub general : String
general = "general"

pub record Category : Type 0 where
  pub label : String
  pub weight : ℕ
  pub created_at : String
  pub updated_at : String

pub record CategoryStore : Type 0 where
  pub categories : Dict Category
  pub memberships : Dict String
  pub data_version : ℕ

-- What a method returns: it raises `ValueError`, or returns with this number of sources.
pub data Outcome : Type 0 where
  value_error : Outcome
  returned : ℕ → Outcome

abbrev pub bump_version : CategoryStore → CategoryStore
bump_version s = record s { data_version = suc s.data_version }

-- `create_category`; `weight` is what `_default_weight` gives
unfoldable pub create_category :
    String → String → ℕ → String → CategoryStore → Outcome × CategoryStore
create_category key label weight now s =
    if key == general
    then (value_error, s)
    else if has key s.categories
    then (value_error, s)
    else let category : Category = record {
      label = label;
      weight = weight;
      created_at = now;
      updated_at = now;
    } in
      (returned 0, bump_version (record s { categories = insert key category s.categories }))

-- A change of one row, as `update_weight` and `rename_category` make it.
unfoldable pub change_category :
    String → (Category → Category) → CategoryStore → Outcome × CategoryStore
change_category key change s =
    if key == general then (value_error, s) else elim (lookup key s.categories) [
      | none ↦ (value_error, s)
      | some c ↦
          (returned 0, bump_version (record s { categories = insert key (change c) s.categories }))
    ]

-- `MIN_CATEGORY_WEIGHT <= weight <= MAX_CATEGORY_WEIGHT`
abbrev pub weight_fits : ℕ → Bool
weight_fits weight = if ltb weight 10000 then false else not (ltb 100000000 weight)

-- `update_weight`
unfoldable pub update_weight : String → ℕ → String → CategoryStore → Outcome × CategoryStore
unfolding change_category
update_weight key weight now s =
    if weight_fits weight
    then change_category key (λ c. record c { weight = weight; updated_at = now }) s
    else (value_error, s)

-- `rename_category`
unfoldable pub rename_category : String → String → String → CategoryStore → Outcome × CategoryStore
unfolding change_category
rename_category key label now s =
    if label == ""
    then (value_error, s)
    else change_category key (λ c. record c { label = label; updated_at = now }) s

-- `SELECT COUNT(*) FROM memberships WHERE category_key = ?`
unfoldable pub count_members : String → Dict String → ℕ
count_members key [] = 0
count_members key ((h, k) ∷ m) =
    let rest = count_members key m in if k == key then suc rest else rest

-- `delete_category`
unfoldable pub delete_category : String → CategoryStore → Outcome × CategoryStore
unfolding count_members
delete_category key s =
    if key == general
    then (value_error, s)
    else if has key s.categories
    then (if ltb 0 (count_members key s.memberships)
        then (value_error, s)
        else (returned 0, bump_version (record s { categories = remove key s.categories })))
    else (value_error, s)

unfoldable pub remove_all : List String → Dict String → Dict String
remove_all [] m = m
remove_all (h ∷ hs) m = remove_all hs (remove h m)

unfoldable pub assign_all : String → List String → Dict String → Dict String
assign_all key [] m = m
assign_all key (h ∷ hs) m = assign_all key hs (insert h key m)

-- The writes of `set_memberships` for the sorted hashes
unfoldable pub assign_hashes : List String → String → CategoryStore → Outcome × CategoryStore
unfolding remove_all assign_all
assign_hashes hashes key s =
    if key == general
    then (
      returned (length hashes),
      bump_version (record s { memberships = remove_all hashes s.memberships }),
    )
    else if has key s.categories
    then (
      returned (length hashes),
      bump_version (record s { memberships = assign_all key hashes s.memberships }),
    )
    else (value_error, s)

-- `set_memberships`
unfoldable pub set_memberships : List String → String → CategoryStore → Outcome × CategoryStore
unfolding assign_hashes sorted_set
set_memberships source_hashes key s = elim (sorted_set source_hashes) [
  | [] ↦ (returned 0, s)
  | h ∷ hs ↦ assign_hashes (h ∷ hs) key s
]

-- `memberships_for` of one hash, with General for the hash that has no row
abbrev pub category_of : String → CategoryStore → String
category_of hash s = get_or_else (lookup hash s.memberships) general
