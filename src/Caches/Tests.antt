-- ===== src/Caches/Tests.antt =====
-- The theorems on the cache at concrete caches.
use rag_pipeline_windows.Base.{◌≤◌, String, true, List, [], ◌∷◌, length, ◌≡◌, refl, arith, distinct}
use rag_pipeline_windows.Base.Dict.{keys, has}
use rag_pipeline_windows.Caches.{BoundedLru, init}
use rag_pipeline_windows.Caches.Bounds.{Call, set_call, perform_all, IsValid, within_maxsize}
use rag_pipeline_windows.Caches.Recency.{age, none_removes, recent_survives}

abbrev empty_cache : BoundedLru String
empty_cache = record { entries = []; maxsize = 2 }

abbrev three_writes : List (Call String)
three_writes = set_call "a" "1" ∷ set_call "b" "2" ∷ set_call "c" "3" ∷ []

within_maxsize_example :
    (length (perform_all three_writes empty_cache).entries ≤ 2)
    × (distinct (keys (perform_all three_writes empty_cache).entries) ≡ true)
unfolding init
within_maxsize_example = within_maxsize 2 empty_cache three_writes refl

abbrev full_cache : BoundedLru String
full_cache = record { entries = ("a", "1") ∷ ("b", "2") ∷ []; maxsize = 2 }

full_cache-IsValid : IsValid full_cache
full_cache-IsValid = record { positive = omega arith; within = omega arith; unique = refl }

recent_survives_example : has "b" (perform_all (set_call "c" "3" ∷ []) full_cache).entries ≡ true
unfolding age none_removes
recent_survives_example =
    recent_survives "b" (set_call "c" "3" ∷ []) full_cache full_cache-IsValid refl refl
      (omega arith)
