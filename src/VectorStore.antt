-- ===== src/VectorStore.antt =====
-- src/vector_store.py: `MultiVectorStore`, the union of the stores of several categories. A store is what its `search`
-- returns, best first or not. A score is a float that is only compared: it is given by its rank among the floats. A weight
-- is only passed on: it is given as a text.
pub mod Ranking
pub mod Best
mod Tests
use rag_pipeline_windows.Base.{
  ℕ, leb, ltb, ◌==◌, String, Bool, true, Option, none, some, List, [], ◌∷◌, if◌then◌else◌,
}
use rag_pipeline_windows.Base.Dict.{Dict, lookup, insert}
use rag_pipeline_windows.Jobs.{Json}

pub record Row : Type 0 where
  pub id : String
  pub score : ℕ
  pub category : String
  pub category_weight : String
  pub fields : Dict Json

-- One store, with its label, its weight, and the rows of its search
pub record Store : Type 0 where
  pub label : String
  pub weight : String
  pub rows : List Row

-- The copy of the row that names its store.
abbrev pub annotated : Store → Row → Row
annotated store row = record row { category = store.label; category_weight = store.weight }

-- The body of the inner loop of `search`: the copy with the higher score stays, the earlier one among equals.
unfoldable pub merge_row : Store → Row → Dict Row → Dict Row
merge_row store row merged = if row.id == "" then merged else elim (lookup row.id merged) [
  | none ↦ insert row.id (annotated store row) merged
  | some old ↦
      if leb row.score old.score then merged else insert row.id (annotated store row) merged
]

unfoldable pub merge_rows : Store → List Row → Dict Row → Dict Row
unfolding merge_row
merge_rows store [] merged = merged
merge_rows store (row ∷ rows) merged = merge_rows store rows (merge_row store row merged)

unfoldable pub merge_stores : List Store → Dict Row → Dict Row
unfolding merge_rows
merge_stores [] merged = merged
merge_stores (store ∷ stores) merged = merge_stores stores (merge_rows store store.rows merged)

abbrev pub rows_of : Dict Row → List Row
rows_of [] = []
rows_of ((_, row) ∷ merged) = row ∷ rows_of merged

-- `sorted(…, reverse=True)` by the score, which keeps the order of equal scores.
unfoldable pub insert_best : Row → List Row → List Row
insert_best row [] = row ∷ []
insert_best row (x ∷ xs) =
    let rest = insert_best row xs in if ltb row.score x.score then x ∷ rest else row ∷ x ∷ xs

unfoldable pub sort_best : List Row → List Row
unfolding insert_best
sort_best [] = []
sort_best (row ∷ rows) = insert_best row (sort_best rows)

-- `MultiVectorStore.search`
unfoldable pub search_stores : List Store → List Row
unfolding merge_stores sort_best
search_stores stores = sort_best (rows_of (merge_stores stores []))
