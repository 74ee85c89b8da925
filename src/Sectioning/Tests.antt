-- ===== src/Sectioning/Tests.antt =====
-- The theorems on the chunks at concrete texts, whose characters are numbers: 0 is a space, 9 ends a line.
use rag_pipeline_windows.Base.{ℕ, nat_eq, Bool, true, List, [], ◌∷◌, ◌≡◌, arith}
use rag_pipeline_windows.Sectioning.{windows, split_text}
use rag_pipeline_windows.Sectioning.Windows.{covered, bounded, paragraph_covered}
use rag_pipeline_windows.Sectioning.Chunks.{fits, split_text-fits}

abbrev is_zero : ℕ → Bool
is_zero n = nat_eq n 0

abbrev paragraphs : List ℕ → List (List ℕ)
paragraphs text = (1 ∷ 2 ∷ []) ∷ (0 ∷ []) ∷ (3 ∷ 4 ∷ 0 ∷ []) ∷ text ∷ []

abbrev sample : List ℕ
sample = 5 ∷ []

paragraph_covered_example :
    (windows 3 1 7 9 0 ≡ windows 3 1 7 7 0)
    × (covered 5 (windows 3 1 7 7 0) ≡ true)
    × (bounded 3 7 (windows 3 1 7 7 0) ≡ true)
paragraph_covered_example = paragraph_covered 3 1 7 9 5 (omega arith) (omega arith) (omega arith)

split_text-fits_example : fits 6 (split_text is_zero 9 6 1 paragraphs sample) ≡ true
split_text-fits_example = split_text-fits is_zero 9 6 1 paragraphs sample
