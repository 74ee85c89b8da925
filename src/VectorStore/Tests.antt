-- ===== src/VectorStore/Tests.antt =====
-- The theorem on the union at concrete stores.
use rag_pipeline_windows.Base.{ℕ, String, true, List, [], ◌∷◌, ◌≡◌, refl, distinct}
use rag_pipeline_windows.VectorStore.{Row, Store, search_stores}
use rag_pipeline_windows.VectorStore.Ranking.{best_of, ids, is_descending}
use rag_pipeline_windows.VectorStore.Best.{best_score, search_gives_best}

abbrev found : String → ℕ → Row
found id score = record { id = id; score = score; category = ""; category_weight = ""; fields = [] }

-- The record "a" is in both stores.
abbrev stores : List Store
stores =
    record { label = "general"; weight = "1"; rows = found "a" 3 ∷ found "b" 5 ∷ [] }
    ∷ record { label = "rules"; weight = "1"; rows = found "a" 7 ∷ [] }
    ∷ []

abbrev id_a : String
id_a = "a"

search_gives_best_example :
    (is_descending (search_stores stores) ≡ true)
    × (distinct (ids (search_stores stores)) ≡ true)
    × (best_of id_a (search_stores stores) ≡ best_score id_a stores)
search_gives_best_example = search_gives_best stores id_a refl
