-- ===== src/Categories/Members.antt =====
-- The category of each source, under every method of `CategoryStore`.
use rag_pipeline_windows.Base.{
  ℕ, ◌==◌, ltb, String, true, false, none, some, List, [], ◌∷◌, if◌then◌else◌, contains, ◌≡◌, refl,
  inl, inr, arith, eq_iff, Bool-cases, Option-cases,
}
use rag_pipeline_windows.Base.Dict.{
  Dict, lookup, insert, remove, has, has-lookup, has-remove, lookup-insert, lookup-remove,
}
use rag_pipeline_windows.JobQueue.Enqueue.{sorted_set}
use rag_pipeline_windows.Categories.{
  general, Category, CategoryStore, Outcome, returned, create_category, change_category,
  update_weight, rename_category, weight_fits, count_members, delete_category, remove_all,
  assign_all, assign_hashes, set_memberships, category_of,
}

-- Every row of the memberships names a category that exists.
abbrev pub Placed : CategoryStore → Type 0
Placed s = (h k : String) → lookup h s.memberships ≡ some k → has k s.categories ≡ true

has-insert :
    (k j : String) (c : Category) (m : Dict Category) → has j m ≡ true → has j (insert k c m) ≡ true
has-insert k j c m h =
    ground (arith, has-lookup j m, has-lookup j (insert k c m), lookup-insert k j c m)

no_members :
    (key h k : String) (m : Dict String)
    → ltb 0 (count_members key m) ≡ false
    → lookup h m ≡ some k
    → (k == key) ≡ false
unfolding count_members lookup
no_members key h k [] z e = ground (arith, e)
no_members key h k ((i, q) ∷ m) z e = ground (arith, z, e, no_members key h k m)

lookup-remove_all :
    (h : String) (hs : List String) (m : Dict String)
    → lookup h (remove_all hs m) ≡ (if contains h hs then none else lookup h m)
unfolding remove_all
lookup-remove_all h [] m = refl
lookup-remove_all h (i ∷ hs) m =
    ground (arith, lookup-remove_all h hs (remove i m), lookup-remove i h m, eq_iff i h)

lookup-assign_all :
    (key h : String) (hs : List String) (m : Dict String)
    → lookup h (assign_all key hs m) ≡ (if contains h hs then some key else lookup h m)
unfolding assign_all
lookup-assign_all key h [] m = refl
lookup-assign_all key h (i ∷ hs) m =
    ground (arith, lookup-assign_all key h hs (insert i key m), lookup-insert i h key m, eq_iff i h)

create-Placed :
    (key label now : String) (w : ℕ) (s : CategoryStore)
    → Placed s
    → Placed (create_category key label w now s).1
unfolding create_category
create-Placed key label now w s p = elim (Bool-cases (key == general)) [
  | inl g ↦ rw g p
  | inr g ↦ elim (Bool-cases (has key s.categories)) [
    | inl e ↦ rw (g, e) p
    | inr e ↦
        rw (g, e)
          (λ h k l.
            has-insert key k
              (record { label = label; weight = w; created_at = now; updated_at = now })
              s.categories (p h k l))
  ]
]

change-Placed :
    (key : String) (f : Category → Category) (s : CategoryStore)
    → Placed s
    → Placed (change_category key f s).1
unfolding change_category
change-Placed key f s p = elim (Bool-cases (key == general)) [
  | inl g ↦ rw g p
  | inr g ↦ elim (Option-cases (lookup key s.categories)) [
    | inl n ↦ rw (g, n) p
    | inr (c, n) ↦ rw (g, n) (λ h k l. has-insert key k (f c) s.categories (p h k l))
  ]
]

delete-Placed : (key : String) (s : CategoryStore) → Placed s → Placed (delete_category key s).1
unfolding delete_category
delete-Placed key s p = elim (Bool-cases (key == general)) [
  | inl g ↦ rw g p
  | inr g ↦ elim (Bool-cases (has key s.categories)) [
    | inr e ↦ rw (g, e) p
    | inl e ↦ elim (Bool-cases (ltb 0 (count_members key s.memberships))) [
      | inl c ↦ rw (g, e, c) p
      | inr c ↦
          rw (g, e, c)
            (λ h k l. ground (
              arith,
              has-remove key k s.categories,
              no_members key h k s.memberships c l,
              p h k l,
              eq_iff key k,
              eq_iff k key,
            ))
    ]
  ]
]

assign-Placed :
    (hs : List String) (key : String) (s : CategoryStore)
    → Placed s
    → Placed (assign_hashes hs key s).1
unfolding assign_hashes
assign-Placed hs key s p = elim (Bool-cases (key == general)) [
  | inl g ↦ rw g (λ h k l. p h k (ground (arith, lookup-remove_all h hs s.memberships, l)))
  | inr g ↦ elim (Bool-cases (has key s.categories)) [
    | inr e ↦ rw (g, e) p
    | inl e ↦
        rw (g, e) (λ h k l. ground (arith, lookup-assign_all key h hs s.memberships, l, p h k, e))
  ]
]

set-Placed :
    (hashes : List String) (key : String) (s : CategoryStore)
    → Placed s
    → Placed (set_memberships hashes key s).1
unfolding set_memberships
set-Placed hashes key s p = go (sorted_set hashes)
  where
    go :
        (hs : List String)
        → Placed
            (elim hs as (λ _. Outcome × CategoryStore) [
              | [] ↦ (returned 0, s)
              | h ∷ rest ↦ assign_hashes (h ∷ rest) key s
            ]).1
    go [] = p
    go (h ∷ rest) = assign-Placed (h ∷ rest) key s p

-- The calls of the methods that write.
pub data StoreCall : Type 0 where
  creates : String → String → ℕ → String → StoreCall
  weighs : String → ℕ → String → StoreCall
  renames : String → String → String → StoreCall
  deletes : String → StoreCall
  moves : List String → String → StoreCall

unfoldable pub perform : StoreCall → CategoryStore → CategoryStore
perform (creates key label weight now) s = (create_category key label weight now s).1
perform (weighs key weight now) s = (update_weight key weight now s).1
perform (renames key label now) s = (rename_category key label now s).1
perform (deletes key) s = (delete_category key s).1
perform (moves hashes key) s = (set_memberships hashes key s).1

unfoldable pub perform_all : List StoreCall → CategoryStore → CategoryStore
unfolding perform
perform_all [] s = s
perform_all (c ∷ calls) s = perform_all calls (perform c s)

perform-Placed : (c : StoreCall) (s : CategoryStore) → Placed s → Placed (perform c s)
unfolding perform update_weight rename_category
perform-Placed (creates key label weight now) s p = create-Placed key label now weight s p
perform-Placed (weighs key weight now) s p = elim (Bool-cases (weight_fits weight)) [
  | inl w ↦
      rw (w, perform, update_weight, rename_category)
        (change-Placed key (λ c. record c { weight = weight; updated_at = now }) s p)
  | inr w ↦ rw (w, perform, update_weight, rename_category) p
]
perform-Placed (renames key label now) s p = elim (Bool-cases (label == "")) [
  | inl w ↦ rw (w, perform, update_weight, rename_category) p
  | inr w ↦
      rw (w, perform, update_weight, rename_category)
        (change-Placed key (λ c. record c { label = label; updated_at = now }) s p)
]
perform-Placed (deletes key) s p = delete-Placed key s p
perform-Placed (moves hashes key) s p = set-Placed hashes key s p

perform_all-Placed :
    (calls : List StoreCall) (s : CategoryStore) → Placed s → Placed (perform_all calls s)
unfolding perform_all
perform_all-Placed [] s p = p
perform_all-Placed (c ∷ calls) s p = perform_all-Placed calls (perform c s) (perform-Placed c s p)

-- Whatever sequence of the writing methods is called, no source is left in a category that is gone: if every
-- row of the memberships names a category of the store, then each row after the calls names a
-- category of the store after them.
pub memberships_name_categories :
    (calls : List StoreCall) (s : CategoryStore) (h k : String)
    → Placed s
    → lookup h (perform_all calls s).memberships ≡ some k
    → has k (perform_all calls s).categories ≡ true
memberships_name_categories calls s h k p = perform_all-Placed calls s p h k

assigned_lem :
    (hs : List String) (key h : String) (n : ℕ) (s : CategoryStore)
    → (assign_hashes hs key s).0 ≡ returned n
    → category_of h (assign_hashes hs key s).1 ≡ (if contains h hs then key else category_of h s)
unfolding assign_hashes
assigned_lem hs key h n s e = elim (Bool-cases (key == general)) [
  | inl g ↦ ground (arith, g, eq_iff key general, lookup-remove_all h hs s.memberships)
  | inr g ↦ elim (Bool-cases (has key s.categories)) [
    | inl c ↦ ground (arith, g, c, lookup-assign_all key h hs s.memberships)
    | inr c ↦ ground (arith, g, c, e)
  ]
]

-- When `set_memberships` returns, the sources it was given, but for empty hashes, are in the category it was
-- given, General included, and every other source is where it was.
pub set_memberships_moves :
    (hashes : List String) (key h : String) (n : ℕ) (s : CategoryStore)
    → (set_memberships hashes key s).0 ≡ returned n
    → category_of h (set_memberships hashes key s).1
      ≡ (if contains h (sorted_set hashes) then key else category_of h s)
unfolding set_memberships
set_memberships_moves hashes key h n s = go (sorted_set hashes)
  where
    result : List String → Outcome × CategoryStore
    result hs = elim hs as (λ _. Outcome × CategoryStore) [
      | [] ↦ (returned 0, s)
      | i ∷ rest ↦ assign_hashes (i ∷ rest) key s
    ]

    go :
        (hs : List String)
        → (result hs).0 ≡ returned n
        → category_of h (result hs).1 ≡ (if contains h hs then key else category_of h s)
    go [] e = refl
    go (i ∷ rest) e = assigned_lem (i ∷ rest) key h n s e
