-- ===== src/VectorStore/Ranking.antt =====
-- The sort by score loses no row and orders them.
use rag_pipeline_windows.Base.{
  ℕ, max, leb, ltb, ◌==◌, String, Bool, true, ◌&&◌, Option, none, some, List, [], ◌∷◌,
  if◌then◌else◌, ◌≡◌, refl, ◌∙◌, arith, eq_iff, inl, inr, Bool-cases, Option-cases, contains,
  distinct,
}
use rag_pipeline_windows.VectorStore.{Row, insert_best, sort_best}

abbrev pub better : Option ℕ → Option ℕ → Option ℕ
better none b = b
better (some a) none = some a
better (some a) (some b) = some (max a b)

-- The highest score of the id in a list of rows.
unfoldable pub best_of : String → List Row → Option ℕ
best_of id [] = none
best_of id (row ∷ rows) =
    let rest = best_of id rows in if row.id == id then better (some row.score) rest else rest

abbrev pub ids : List Row → List String
ids [] = []
ids (row ∷ rows) = row.id ∷ ids rows

abbrev pub is_descending : List Row → Bool
is_descending [] = true
is_descending (row ∷ []) = true
is_descending (row ∷ x ∷ xs) = leb x.score row.score && is_descending (x ∷ xs)

best-insert_best :
    (id : String) (row : Row) (rows : List Row)
    → best_of id (insert_best row rows) ≡ best_of id (row ∷ rows)
unfolding best_of insert_best
best-insert_best id row [] = refl
best-insert_best id row (x ∷ rows) = elim (Bool-cases (ltb row.score x.score)) [
  | inr l ↦ rw l refl
  | inl l ↦ rw l (ground (arith, best-insert_best id row rows, Option-cases (best_of id rows)))
]

pub best-sort_best : (id : String) (rows : List Row) → best_of id (sort_best rows) ≡ best_of id rows
unfolding sort_best best_of
best-sort_best id [] = refl
best-sort_best id (row ∷ rows) =
    best-insert_best id row (sort_best rows) ∙ (unfold best_of in rw (best-sort_best id rows) refl)

contains-insert_best :
    (id : String) (row : Row) (rows : List Row)
    → contains id (ids (insert_best row rows)) ≡ contains id (ids (row ∷ rows))
unfolding insert_best
contains-insert_best id row [] = refl
contains-insert_best id row (x ∷ rows) = ground (arith, contains-insert_best id row rows)

contains-sort_best :
    (id : String) (rows : List Row) → contains id (ids (sort_best rows)) ≡ contains id (ids rows)
unfolding sort_best
contains-sort_best id [] = refl
contains-sort_best id (row ∷ rows) =
    ground (arith, contains-insert_best id row (sort_best rows), contains-sort_best id rows)

distinct-insert_best :
    (row : Row) (rows : List Row)
    → distinct (ids (row ∷ rows)) ≡ true
    → distinct (ids (insert_best row rows)) ≡ true
unfolding insert_best
distinct-insert_best row [] d = d
distinct-insert_best row (x ∷ rows) d = ground (
  arith,
  d,
  distinct-insert_best row rows,
  contains-insert_best x.id row rows,
  eq_iff row.id x.id,
  eq_iff x.id row.id,
)

pub distinct-sort_best :
    (rows : List Row) → distinct (ids rows) ≡ true → distinct (ids (sort_best rows)) ≡ true
unfolding sort_best
distinct-sort_best [] d = d
distinct-sort_best (row ∷ rows) d =
    distinct-insert_best row (sort_best rows)
      (ground (arith, d, contains-sort_best row.id rows, distinct-sort_best rows))

insert_best_descends :
    (row : Row) (rows : List Row)
    → is_descending rows ≡ true
    → is_descending (insert_best row rows) ≡ true
unfolding insert_best
insert_best_descends row [] h = refl
insert_best_descends row (x ∷ []) h = ground (arith, h)
insert_best_descends row (x ∷ y ∷ rows) h = ground (arith, h, insert_best_descends row (y ∷ rows))

pub sort_best_descends : (rows : List Row) → is_descending (sort_best rows) ≡ true
unfolding sort_best
sort_best_descends [] = refl
sort_best_descends (row ∷ rows) =
    insert_best_descends row (sort_best rows) (sort_best_descends rows)
