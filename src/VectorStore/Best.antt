-- ===== src/VectorStore/Best.antt =====
-- The union of the stores gives each record once, with its best score.
use rag_pipeline_windows.Base.{
  ℕ, leb, ◌==◌, String, Bool, true, false, ◌&&◌, Option, none, some, List, [], ◌∷◌, if◌then◌else◌,
  ◌≡◌, refl, ap, sym, ◌∙◌, arith, eq_iff, inl, inr, Bool-cases, Option-cases, distinct,
}
use rag_pipeline_windows.Base.Dict.{
  Dict, lookup, insert, keys, has-lookup, lookup-insert, distinct-insert,
}
use rag_pipeline_windows.VectorStore.{
  Row, Store, annotated, merge_row, merge_rows, merge_stores, rows_of, search_stores,
}
use rag_pipeline_windows.VectorStore.Ranking.{
  better, best_of, ids, is_descending, best-sort_best, distinct-sort_best, sort_best_descends,
}

-- The highest score of the id in all the stores.
unfoldable pub best_score : String → List Store → Option ℕ
unfolding best_of
best_score id [] = none
best_score id (store ∷ stores) = better (best_of id store.rows) (best_score id stores)

abbrev score_at : Option Row → Option ℕ
score_at none = none
score_at (some row) = some row.score

better_assoc : (a b c : Option ℕ) → better (better a b) c ≡ better a (better b c)
better_assoc none b c = refl
better_assoc (some a) none c = refl
better_assoc (some a) (some b) none = refl
better_assoc (some a) (some b) (some c) = ap (λ n. some n) (omega arith)

better-none : (a : Option ℕ) → better a none ≡ a
better-none none = refl
better-none (some a) = refl

merged_row :
    (id : String) (store : Store) (row : Row) (merged : Dict Row)
    → (id == "") ≡ false
    → score_at (lookup id (merge_row store row merged))
      ≡ better (score_at (lookup id merged)) (if row.id == id then some row.score else none)
unfolding merge_row
merged_row id store row merged n = elim (Bool-cases (row.id == "")) [
  | inl e ↦ rw (e, merge_row) (rw (foreign e) (sym (better-none (score_at (lookup id merged)))))
  | inr e ↦ elim (Option-cases (lookup row.id merged)) [
    | inl o ↦
        rw (stays_none e o)
          (rw (lookup-insert row.id id (annotated store row) merged) (new (row.id == id) refl o))
    | inr (x, o) ↦ elim (Bool-cases (leb row.score x.score)) [
      | inl l ↦ rw (stays_some e x o l) (kept (row.id == id) refl x o l)
      | inr l ↦ rw (becomes e x o l) (
          rw (lookup-insert row.id id (annotated store row) merged)
            (replaced (row.id == id) refl x o l))
    ]
  ]
]
  where
    foreign : (row.id == "") ≡ true → (row.id == id) ≡ false
    foreign e = ground (arith, e, n, eq_iff row.id "", eq_iff row.id id, eq_iff id "")

    stays_none :
        (row.id == "") ≡ false
        → lookup row.id merged ≡ none
        → merge_row store row merged ≡ insert row.id (annotated store row) merged
    stays_none e o = rw (e, o, merge_row) refl

    stays_some :
        (row.id == "") ≡ false
        → (x : Row) → lookup row.id merged ≡ some x
        → leb row.score x.score ≡ true
        → merge_row store row merged ≡ merged
    stays_some e x o l = rw (merge_row, e, o, l) refl

    becomes :
        (row.id == "") ≡ false
        → (x : Row) → lookup row.id merged ≡ some x
        → leb row.score x.score ≡ false
        → merge_row store row merged ≡ insert row.id (annotated store row) merged
    becomes e x o l = rw (merge_row, e, o, l) refl

    there : (row.id == id) ≡ true → lookup id merged ≡ lookup row.id merged
    there s = ap (λ i. lookup i merged) (ground (arith, s, eq_iff row.id id))

    new :
        (b : Bool)
        → (row.id == id) ≡ b
        → lookup row.id merged ≡ none
        → score_at (if b then some (annotated store row) else lookup id merged)
          ≡ better (score_at (lookup id merged)) (if b then some row.score else none)
    new true s o = rw (there s, o) refl
    new false s o = sym (better-none (score_at (lookup id merged)))

    kept :
        (b : Bool)
        → (row.id == id) ≡ b
        → (x : Row) → lookup row.id merged ≡ some x
        → leb row.score x.score ≡ true
        → score_at (lookup id merged)
          ≡ better (score_at (lookup id merged)) (if b then some row.score else none)
    kept true s x o l = rw (there s, o) (ap (λ m. some m) (ground (arith, l)))
    kept false s x o l = sym (better-none (score_at (lookup id merged)))

    replaced :
        (b : Bool)
        → (row.id == id) ≡ b
        → (x : Row) → lookup row.id merged ≡ some x
        → leb row.score x.score ≡ false
        → score_at (if b then some (annotated store row) else lookup id merged)
          ≡ better (score_at (lookup id merged)) (if b then some row.score else none)
    replaced true s x o l = rw (there s, o) (ap (λ m. some m) (ground (arith, l)))
    replaced false s x o l = sym (better-none (score_at (lookup id merged)))

merged_rows :
    (id : String) (store : Store) (rows : List Row) (merged : Dict Row)
    → (id == "") ≡ false
    → score_at (lookup id (merge_rows store rows merged))
      ≡ better (score_at (lookup id merged)) (best_of id rows)
unfolding merge_rows best_of
merged_rows id store [] merged n = elim (Option-cases (lookup id merged)) [
  | inl o ↦ rw o refl
  | inr (x, o) ↦ rw o refl
]
merged_rows id store (row ∷ rows) merged n =
    merged_rows id store rows (merge_row store row merged) n
    ∙ ap (λ b. better b (best_of id rows)) (merged_row id store row merged n)
    ∙ better_assoc (score_at (lookup id merged)) (if row.id == id then some row.score else none)
        (best_of id rows)
    ∙ ap (better (score_at (lookup id merged))) (joined (row.id == id))
  where
    joined :
        (b : Bool)
        → better (if b then some row.score else none) (best_of id rows)
          ≡ (if b then better (some row.score) (best_of id rows) else best_of id rows)
    joined true = refl
    joined false = refl

merged_stores :
    (id : String) (stores : List Store) (merged : Dict Row)
    → (id == "") ≡ false
    → score_at (lookup id (merge_stores stores merged))
      ≡ better (score_at (lookup id merged)) (best_score id stores)
unfolding merge_stores best_score
merged_stores id [] merged n = elim (Option-cases (lookup id merged)) [
  | inl o ↦ rw o refl
  | inr (x, o) ↦ rw o refl
]
merged_stores id (store ∷ stores) merged n =
    merged_stores id stores (merge_rows store store.rows merged) n
    ∙ ap (λ b. better b (best_score id stores)) (merged_rows id store store.rows merged n)
    ∙ better_assoc (score_at (lookup id merged)) (best_of id store.rows) (best_score id stores)

-- Every row stands under its own id, once.
abbrev keyed : Dict Row → Bool
keyed [] = true
keyed ((k, row) ∷ merged) = (row.id == k) && keyed merged

keyed-insert :
    (row : Row) (merged : Dict Row) → keyed merged ≡ true → keyed (insert row.id row merged) ≡ true
unfolding insert
keyed-insert row [] h = ground (arith, eq_iff row.id row.id)
keyed-insert row ((k, x) ∷ merged) h =
    ground (arith, h, keyed-insert row merged, eq_iff k row.id, eq_iff row.id k)

merge_row-keyed :
    (store : Store) (row : Row) (merged : Dict Row)
    → keyed merged ≡ true
    → distinct (keys merged) ≡ true
    → (keyed (merge_row store row merged) ≡ true)
      × (distinct (keys (merge_row store row merged)) ≡ true)
unfolding merge_row
merge_row-keyed store row merged h d =
    let k = keyed-insert (annotated store row) merged h in
    let u = distinct-insert row.id (annotated store row) merged d in
    elim (Bool-cases (row.id == "")) [
      | inl e ↦ rw e (h, d)
      | inr e ↦ elim (Option-cases (lookup row.id merged)) [
        | inl o ↦ rw (e, o, merge_row) (k, u)
        | inr (x, o) ↦ elim (Bool-cases (leb row.score x.score)) [
          | inl l ↦ rw (merge_row, e, o, l) (h, d)
          | inr l ↦ rw (merge_row, e, o, l) (k, u)
        ]
      ]
    ]

abbrev Keyed : Dict Row → Type 0
Keyed merged = (keyed merged ≡ true) × (distinct (keys merged) ≡ true)

merge_rows-Keyed :
    (store : Store) (rows : List Row) (merged : Dict Row)
    → Keyed merged
    → Keyed (merge_rows store rows merged)
unfolding merge_rows
merge_rows-Keyed store [] merged h = h
merge_rows-Keyed store (row ∷ rows) merged h =
    merge_rows-Keyed store rows (merge_row store row merged)
      (merge_row-keyed store row merged h.0 h.1)

merge_stores-Keyed :
    (stores : List Store) (merged : Dict Row) → Keyed merged → Keyed (merge_stores stores merged)
unfolding merge_stores
merge_stores-Keyed [] merged h = h
merge_stores-Keyed (store ∷ stores) merged h =
    merge_stores-Keyed stores _ (merge_rows-Keyed store store.rows merged h)

best-rows_of :
    (id : String) (merged : Dict Row)
    → keyed merged ≡ true
    → distinct (keys merged) ≡ true
    → best_of id (rows_of merged) ≡ score_at (lookup id merged)
unfolding best_of lookup
best-rows_of id [] h d = refl
best-rows_of id ((k, x) ∷ merged) h d =
    let rest = best-rows_of id merged (ground (arith, h)) (ground (arith, d)) in
    elim (Bool-cases (k == id)) [
      | inl s ↦ rw (own s, s) (ap (better (some x.score)) (rest ∙ ap score_at (gone s)))
      | inr s ↦ rw (other s, s) rest
    ]
  where
    own : (k == id) ≡ true → (x.id == id) ≡ true
    own s = ground (arith, s, h, eq_iff k id, eq_iff x.id k, eq_iff x.id id)

    other : (k == id) ≡ false → (x.id == id) ≡ false
    other s = ground (arith, s, h, eq_iff k id, eq_iff x.id k, eq_iff x.id id)

    gone : (k == id) ≡ true → lookup id merged ≡ none
    gone s = ground (arith, s, d, has-lookup id merged, eq_iff k id)

ids-rows_of : (merged : Dict Row) → keyed merged ≡ true → ids (rows_of merged) ≡ keys merged
ids-rows_of [] h = refl
ids-rows_of ((k, x) ∷ merged) h = ground (arith, h, ids-rows_of merged, eq_iff x.id k)

-- The search over several stores gives its rows from the highest score down, gives no record twice, and gives a record
-- exactly when one of the stores has it, with the highest of its scores there. Rows without an id are left out
-- of the last statement.
pub search_gives_best :
    (stores : List Store) (id : String)
    → (id == "") ≡ false
    → (is_descending (search_stores stores) ≡ true)
      × (distinct (ids (search_stores stores)) ≡ true)
      × (best_of id (search_stores stores) ≡ best_score id stores)
unfolding search_stores
search_gives_best stores id n =
    let merged = merge_stores stores [] in
    let k : Keyed merged = merge_stores-Keyed stores [] (refl, refl) in
    let h : (keyed merged ≡ true) × (distinct (keys merged) ≡ true) = k in
    (
      sort_best_descends (rows_of merged),
      distinct-sort_best (rows_of merged) (rw (ids-rows_of merged h.0) h.1),
      best-sort_best id (rows_of merged)
          ∙ best-rows_of id merged h.0 h.1
          ∙ (unfold lookup in merged_stores id stores [] n),
    )
