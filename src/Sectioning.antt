-- ===== src/Sectioning.antt =====
-- src/sectioning.py, `split_text`: a text is cut at its paragraphs into chunks of at most `max_chars`
-- characters; a longer paragraph is cut into windows that overlap. A text is the list of its
-- characters. What `str.strip` takes for white space and where the regular expression
-- `\n\s*\n` splits a text are parameters.
pub mod Chunks
pub mod Windows
pub mod Groups
mod Tests
use rag_pipeline_windows.Base.{
  ℕ, zero, suc, ◌+◌, ◌-◌, min, max, nat_eq, ltb, Bool, true, false, ◌&&◌, not, List, [], ◌∷◌, ◌++◌,
  length, take, drop, if◌then◌else◌,
}

abbrev pub is_empty {ℓ} : {A : Type ℓ} → List A → Bool
is_empty [] = true
is_empty (x ∷ xs) = false

-- One round of the loop over a long paragraph: from `start` to `end`
unfoldable pub window_end : ℕ → ℕ → ℕ → ℕ
window_end max_chars size start = min size (start + max_chars)

-- `max(start + 1, end - overlap_chars)`
unfoldable pub next_start : ℕ → ℕ → ℕ → ℕ
next_start overlap_chars start end = max (start + 1) (end - overlap_chars)

-- The slices `paragraph[start:end]` that the loop takes, as bounds. The fuel is for the rounds.
unfoldable pub windows : ℕ → ℕ → ℕ → ℕ → ℕ → List (ℕ × ℕ)
unfolding window_end next_start
windows max_chars overlap_chars size zero start = []
windows max_chars overlap_chars size (suc fuel) start =
    let end = window_end max_chars size start in
    let rest = windows max_chars overlap_chars size fuel (next_start overlap_chars start end) in
    if ltb start size
    then (if nat_eq end size then (start, end) ∷ [] else (start, end) ∷ rest)
    else []

module _ {ℓ} {A : Type ℓ} (is_space : A → Bool) where
  unfoldable pub lstrip : List A → List A
  lstrip [] = []
  lstrip (x ∷ xs) = let rest = lstrip xs in if is_space x then rest else x ∷ xs

  unfoldable pub rstrip : List A → List A
  rstrip [] = []
  rstrip (x ∷ xs) = let rest = rstrip xs in if is_empty rest && is_space x then [] else x ∷ rest

  -- `str.strip`
  unfoldable pub strip : List A → List A
  unfolding lstrip rstrip
  strip text = rstrip (lstrip text)

  -- `text[start:end]`
  abbrev pub slice : List A → ℕ × ℕ → List A
  slice text bounds = take (bounds.1 - bounds.0) (drop bounds.0 text)

  unfoldable pub slices : List A → List (ℕ × ℕ) → List (List A)
  unfolding strip
  slices text [] = []
  slices text (w ∷ ws) = strip (slice text w) ∷ slices text ws

  -- `[part.strip() for part in parts if part.strip()]`
  unfoldable pub strip_all : List (List A) → List (List A)
  unfolding strip
  strip_all [] = []
  strip_all (part ∷ parts) =
      let rest = strip_all parts in if is_empty (strip part) then rest else strip part ∷ rest

  -- `[chunk for chunk in chunks if chunk.strip()]`
  unfoldable pub with_text : List (List A) → List (List A)
  unfolding strip
  with_text [] = []
  with_text (chunk ∷ chunks) =
      let rest = with_text chunks in if is_empty (strip chunk) then rest else chunk ∷ rest

module _ {ℓ} {A : Type ℓ} where
  -- `"\n\n".join(parts)`
  unfoldable pub join : List A → List (List A) → List A
  join separator [] = []
  join separator (part ∷ []) = part
  join separator (part ∷ next ∷ parts) = part ++ separator ++ join separator (next ∷ parts)

-- The variables of the loop: the chunks so far, `current` and `current_len`.
pub record Progress {ℓ} (A : Type ℓ) : Type ℓ where
  pub chunks : List (List A)
  pub current : List (List A)
  pub current_len : ℕ

module _ {ℓ} {A : Type ℓ} (is_space : A → Bool) (newline : A) (max_chars overlap_chars : ℕ) where
  -- `flush`
  unfoldable pub flush : Progress A → Progress A
  unfolding strip join
  flush p = if is_empty p.current then p else record {
    chunks = p.chunks ++ strip is_space (join (newline ∷ newline ∷ []) p.current) ∷ [];
    current = [];
    current_len = 0;
  }

  -- A paragraph of more than `max_chars` characters
  unfoldable pub add_long : List A → Progress A → Progress A
  unfolding flush windows slices
  add_long paragraph p =
      let q = flush p in
      record q {
        chunks =
            q.chunks
            ++ slices is_space paragraph
                (windows max_chars overlap_chars (length paragraph) (length paragraph) 0);
      }

  abbrev pub gap : List (List A) → ℕ
  gap current = if is_empty current then 0 else 2

  -- Any other paragraph
  unfoldable pub add_short : List A → Progress A → Progress A
  unfolding flush
  add_short paragraph p =
      let q =
        if not (is_empty p.current)
          && ltb max_chars (p.current_len + length paragraph + gap p.current)
        then flush p
        else p in
      record q {
        current = q.current ++ paragraph ∷ [];
        current_len =
            q.current_len + (length paragraph + (if nat_eq q.current_len 0 then 0 else 2));
      }

  -- The loop over the paragraphs
  unfoldable pub add_paragraphs : List (List A) → Progress A → Progress A
  unfolding add_long add_short
  add_paragraphs [] p = p
  add_paragraphs (paragraph ∷ paragraphs) p =
      add_paragraphs paragraphs
        (if ltb max_chars (length paragraph) then add_long paragraph p else add_short paragraph p)

  -- `split_text`
  unfoldable pub split_text : (List A → List (List A)) → List A → List (List A)
  unfolding strip_all add_paragraphs flush with_text
  split_text split_paragraphs text =
      let start : Progress A = record { chunks = []; current = []; current_len = 0 } in
      with_text is_space
        (flush (add_paragraphs (strip_all is_space (split_paragraphs text)) start)).chunks
