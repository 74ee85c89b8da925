-- ===== src/Sectioning/Groups.antt =====
-- Without long paragraphs, `split_text` is a greedy grouping of the paragraphs in their order.
use rag_pipeline_windows.Base.{ℕ, ltb, Bool, ◌&&◌, not, List, [], ◌∷◌, ◌++◌, length, if◌then◌else◌}
use rag_pipeline_windows.Sectioning.{is_empty, strip, join, Progress, flush, add_paragraphs}

module _ {ℓ} {A : Type ℓ} where
  abbrev pub concat : List (List A) → List A
  concat [] = []
  concat (group ∷ groups) = group ++ concat groups

module _ {ℓ} {A : Type ℓ} (is_space : A → Bool) (newline : A) (max_chars overlap_chars : ℕ) where
  abbrev lines : List (List A) → List A
  lines parts = join (newline ∷ newline ∷ []) parts

  -- The next paragraph joins the group where the text of both has at most `max_chars` characters.
  unfoldable pub group_from : List (List A) → List (List A) → List (List (List A))
  group_from current [] = if is_empty current then [] else current ∷ []
  group_from current (part ∷ parts) =
      let joined = group_from (current ++ part ∷ []) parts in
      let fresh = group_from (part ∷ []) parts in
      if not (is_empty current)
        && ltb max_chars (length (join (newline ∷ newline ∷ []) (current ++ part ∷ [])))
      then current ∷ fresh
      else joined

  unfoldable pub texts_of : List (List (List A)) → List (List A)
  unfolding strip
  texts_of [] = []
  texts_of (group ∷ groups) = strip is_space (join (newline ∷ newline ∷ []) group) ∷ texts_of groups

  abbrev rest_of : List (List A) → Progress A → List (List A)
  rest_of parts p =
      (flush is_space newline max_chars overlap_chars
        (add_paragraphs is_space newline max_chars overlap_chars parts p)).chunks
