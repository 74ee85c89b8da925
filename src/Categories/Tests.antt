-- ===== src/Categories/Tests.antt =====
-- The theorems on the categories at a concrete store.
use rag_pipeline_windows.Base.{true, List, [], ◌∷◌, ◌≡◌, refl, arith, contains, if◌then◌else◌}
use rag_pipeline_windows.Base.Dict.{lookup, has, insert}
use rag_pipeline_windows.Categories.{
  Category, CategoryStore, set_memberships, delete_category, assign_hashes, category_of,
}
use rag_pipeline_windows.Categories.Members.{
  Placed, StoreCall, moves, deletes, perform_all, memberships_name_categories,
  set_memberships_moves,
}
use rag_pipeline_windows.JobQueue.Enqueue.{sorted_set}

abbrev design : Category
design = record { label = "Design"; weight = 1000000; created_at = "t0"; updated_at = "t0" }

abbrev store : CategoryStore
store = record { categories = ("design", design) ∷ []; memberships = []; data_version = 1 }

store-Placed : Placed store
unfolding lookup
store-Placed h k e = ground (arith, e)

abbrev calls : List StoreCall
calls = moves ("s1" ∷ "s2" ∷ []) "design" ∷ deletes "design" ∷ []

memberships_name_categories_example : has "design" (perform_all calls store).categories ≡ true
unfolding perform_all set_memberships assign_hashes sorted_set delete_category lookup insert
memberships_name_categories_example =
    memberships_name_categories calls store "s1" "design" store-Placed refl

set_memberships_moves_example :
    category_of "s1" (set_memberships ("s1" ∷ "s2" ∷ []) "design" store).1
    ≡ (if contains "s1" (sorted_set ("s1" ∷ "s2" ∷ [])) then "design" else category_of "s1" store)
unfolding set_memberships assign_hashes sorted_set
set_memberships_moves_example = set_memberships_moves ("s1" ∷ "s2" ∷ []) "design" "s1" 2 store refl
