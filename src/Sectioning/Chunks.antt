-- ===== src/Sectioning/Chunks.antt =====
-- The chunks of `split_text` are at most `max_chars` characters long.
use rag_pipeline_windows.Base.{
  ℕ, zero, suc, ◌+◌, ◌-◌, ◌≤◌, nat_eq, ltb, leb, Bool, true, false, ◌&&◌, not, List, [], ◌∷◌, ◌++◌,
  length, take, drop, if◌then◌else◌, ◌≡◌, refl, arith, inl, inr, Bool-cases, length-append,
}
use rag_pipeline_windows.Sectioning.{
  is_empty, lstrip, rstrip, strip, slice, slices, strip_all, with_text, join, Progress, flush,
  add_long, add_short, add_paragraphs, split_text, windows, gap,
}
use rag_pipeline_windows.Sectioning.Windows.{bounded, windows-bounded}

module _ {ℓ} {A : Type ℓ} where
  -- Every chunk has at most so many characters.
  unfoldable pub fits : ℕ → List (List A) → Bool
  fits n [] = true
  fits n (chunk ∷ chunks) = leb (length chunk) n && fits n chunks

  length-take : (n : ℕ) (xs : List A) → length (take n xs) ≤ n
  length-take zero xs = omega arith
  length-take (suc n) [] = omega arith
  length-take (suc n) (x ∷ xs) = omega (arith, length-take n xs)

  fits-append : (n : ℕ) (xs ys : List (List A)) → fits n (xs ++ ys) ≡ (fits n xs && fits n ys)
  unfolding fits
  fits-append n [] ys = refl
  fits-append n (x ∷ xs) ys = ground (arith, fits-append n xs ys)

module _ {ℓ} {A : Type ℓ} (is_space : A → Bool) where
  length-lstrip : (xs : List A) → length (lstrip is_space xs) ≤ length xs
  unfolding lstrip
  length-lstrip [] = omega arith
  length-lstrip (x ∷ xs) = ground (arith, length-lstrip xs)

  length-rstrip : (xs : List A) → length (rstrip is_space xs) ≤ length xs
  unfolding rstrip
  length-rstrip [] = omega arith
  length-rstrip (x ∷ xs) = ground (arith, length-rstrip xs)

  length-strip : (xs : List A) → length (strip is_space xs) ≤ length xs
  unfolding strip
  length-strip xs = omega (arith, length-lstrip xs, length-rstrip (lstrip is_space xs))

  slices-fits :
      (n size : ℕ) (text : List A) (ws : List (ℕ × ℕ))
      → bounded n size ws ≡ true
      → fits n (slices is_space text ws) ≡ true
  unfolding slices fits bounded
  slices-fits n size text [] h = refl
  slices-fits n size text (w ∷ ws) h = ground (
    arith,
    h,
    length-strip (slice is_space text w),
    length-take (w.1 - w.0) (drop w.0 text),
    slices-fits n size text ws,
  )

  with_text-fits :
      (n : ℕ) (chunks : List (List A))
      → fits n chunks ≡ true
      → fits n (with_text is_space chunks) ≡ true
  unfolding with_text fits
  with_text-fits n [] h = refl
  with_text-fits n (chunk ∷ chunks) h = ground (arith, h, with_text-fits n chunks)

  -- Every paragraph has a character.
  unfoldable pub no_empty : List (List A) → Bool
  no_empty [] = true
  no_empty (part ∷ parts) = not (is_empty part) && no_empty parts

  pub strip_all-no_empty : (parts : List (List A)) → no_empty (strip_all is_space parts) ≡ true
  unfolding no_empty strip_all
  strip_all-no_empty [] = refl
  strip_all-no_empty (part ∷ parts) = ground (arith, strip_all-no_empty parts)

  pub length-join_snoc :
      (separator part : List A) (parts : List (List A))
      → length (join separator (parts ++ part ∷ []))
        ≡ length (join separator parts)
          + (if is_empty parts then length part else length separator + length part)
  unfolding join
  length-join_snoc separator part [] = omega arith
  length-join_snoc separator part (first ∷ []) =
      ground (arith, length-append (first ++ separator) part, length-append first separator)
  length-join_snoc separator part (first ∷ next ∷ parts) = ground (
    arith,
    length-append first separator,
    length-append (first ++ separator) (join separator (next ∷ (parts ++ part ∷ []))),
    length-append (first ++ separator) (join separator (next ∷ parts)),
    length-join_snoc separator part (next ∷ parts),
  )

  module _ (newline : A) (max_chars overlap_chars : ℕ) where
    -- `current_len` is the length of the text that `flush` would cut, 0 only when there is none, and
    -- everything is within the bound.
    pub record Sound (p : Progress A) : Type ℓ where
      pub counts : p.current_len ≡ length (join (newline ∷ newline ∷ []) p.current)
      pub is_zero : nat_eq p.current_len 0 ≡ is_empty p.current
      pub current_fits : p.current_len ≤ max_chars
      pub chunks_fit : fits max_chars p.chunks ≡ true

    pub flush-Sound :
        (p : Progress A) → Sound p → Sound (flush is_space newline max_chars overlap_chars p)
    unfolding flush
    flush-Sound p s = elim (Bool-cases (is_empty p.current)) [
      | inl e ↦ rw e s
      | inr e ↦ rw e (record {
        counts = unfold join in refl;
        is_zero = refl;
        current_fits = omega arith;
        chunks_fit =
            unfold fits in
            ground (
              arith,
              s.chunks_fit,
              s.counts,
              s.current_fits,
              fits-append max_chars p.chunks
                  (strip is_space (join (newline ∷ newline ∷ []) p.current) ∷ []),
              length-strip (join (newline ∷ newline ∷ []) p.current),
            );
      })
    ]

    flush_ends :
        (p : Progress A)
        → is_empty (flush is_space newline max_chars overlap_chars p).current ≡ true
    unfolding flush
    flush_ends p = ground (arith, Bool-cases (is_empty p.current))

    add_long-Sound :
        (paragraph : List A) (p : Progress A)
        → Sound p
        → Sound (add_long is_space newline max_chars overlap_chars paragraph p)
    unfolding add_long
    add_long-Sound paragraph p s =
        let q = flush is_space newline max_chars overlap_chars p in
        let t = flush-Sound p s in
        let ws = windows max_chars overlap_chars (length paragraph) (length paragraph) 0 in
        record {
          counts = t.counts;
          is_zero = t.is_zero;
          current_fits = t.current_fits;
          chunks_fit = ground (
            arith,
            t.chunks_fit,
            fits-append max_chars q.chunks (slices is_space paragraph ws),
            slices-fits max_chars (length paragraph) paragraph ws
                (windows-bounded max_chars overlap_chars (length paragraph) (length paragraph) 0),
          );
        }

    has_text : (part : List A) → is_empty part ≡ false → 1 ≤ length part
    has_text [] n = ground (arith, n)
    has_text (x ∷ part) n = omega arith

    not_empty :
        (paragraph : List A) (parts : List (List A)) → is_empty (parts ++ paragraph ∷ []) ≡ false
    not_empty paragraph [] = refl
    not_empty paragraph (part ∷ parts) = refl

    -- A paragraph goes to the end of `current` where it fits.
    placed_lem :
        (paragraph : List A) (q : Progress A)
        → Sound q
        → is_empty paragraph ≡ false
        → q.current_len + length paragraph + gap is_space newline max_chars overlap_chars q.current
          ≤ max_chars
        → Sound (record q {
          current = q.current ++ paragraph ∷ [];
          current_len =
              q.current_len + (length paragraph + (if nat_eq q.current_len 0 then 0 else 2));
        })
    placed_lem paragraph q s n f = record {
      counts = ground (
        arith,
        s.counts,
        s.is_zero,
        length-join_snoc (newline ∷ newline ∷ []) paragraph q.current,
      );
      is_zero = ground (arith, has_text paragraph n, not_empty paragraph q.current);
      current_fits = ground (arith, f, s.is_zero);
      chunks_fit = s.chunks_fit;
    }

    pub add_short-Sound :
        (paragraph : List A) (p : Progress A)
        → Sound p
        → is_empty paragraph ≡ false
        → length paragraph ≤ max_chars
        → Sound (add_short is_space newline max_chars overlap_chars paragraph p)
    unfolding add_short
    add_short-Sound paragraph p s n f =
        elim (Bool-cases (
          not (is_empty p.current)
          && ltb max_chars (
              p.current_len
              + length paragraph
              + gap is_space newline max_chars overlap_chars p.current))) [
                | inl e ↦
                    (let t = flush-Sound p s in
                      rw e
                        (placed_lem paragraph _ t n (ground (arith, f, t.is_zero, flush_ends p))))
                | inr e ↦ rw e (placed_lem paragraph p s n (ground (arith, e, f, s.is_zero)))
              ]

    add_paragraphs-Sound :
        (paragraphs : List (List A)) (p : Progress A)
        → Sound p
        → no_empty paragraphs ≡ true
        → Sound (add_paragraphs is_space newline max_chars overlap_chars paragraphs p)
    unfolding add_paragraphs no_empty
    add_paragraphs-Sound [] p s n = s
    add_paragraphs-Sound (paragraph ∷ paragraphs) p s n =
        elim (Bool-cases (ltb max_chars (length paragraph))) [
          | inl e ↦
              rw e (
                add_paragraphs-Sound paragraphs _ (add_long-Sound paragraph p s)
                  (ground (arith, n)))
          | inr e ↦ rw e (
              add_paragraphs-Sound paragraphs _
                (add_short-Sound paragraph p s (ground (arith, n)) (ground (arith, e)))
                (ground (arith, n)))
        ]

    pub begins-Sound : Sound (record { chunks = []; current = []; current_len = 0 })
    unfolding join fits
    begins-Sound = record {
      counts = refl;
      is_zero = refl;
      current_fits = omega arith;
      chunks_fit = refl;
    }

    -- No chunk of `split_text` is longer than `max_chars`, however the text is split into paragraphs and whatever
    -- counts as white space.
    pub split_text-fits :
        (split_paragraphs : List A → List (List A)) (text : List A)
        → fits max_chars (split_text is_space newline max_chars overlap_chars split_paragraphs text)
          ≡ true
    unfolding split_text
    split_text-fits split_paragraphs text =
        let parts = strip_all is_space (split_paragraphs text) in
        let start : Progress A = record { chunks = []; current = []; current_len = 0 } in
        with_text-fits max_chars _
          (flush-Sound _ (
            add_paragraphs-Sound parts start begins-Sound
              (strip_all-no_empty (split_paragraphs text)))).chunks_fit
