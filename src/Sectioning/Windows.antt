-- ===== src/Sectioning/Windows.antt =====
-- The loop over a long paragraph: it ends, its windows are bounded and leave nothing out.
use rag_pipeline_windows.Base.{
  ℕ, zero, suc, ◌+◌, ◌-◌, ◌≤◌, ◌<◌, min, max, nat_eq, ltb, leb, Bool, true, false, ◌&&◌, ◌||◌, List,
  [], ◌∷◌, ◌≡◌, refl, arith, inl, inr, Bool-cases,
}
use rag_pipeline_windows.Sectioning.{windows, window_end, next_start}

-- One of the windows has the position.
unfoldable pub covered : ℕ → List (ℕ × ℕ) → Bool
covered p [] = false
covered p (w ∷ ws) = (leb w.0 p && ltb p w.1) || covered p ws

-- Every window lies within the text and has at most so many characters.
unfoldable pub bounded : ℕ → ℕ → List (ℕ × ℕ) → Bool
bounded max_chars size [] = true
bounded max_chars size (w ∷ ws) =
    (leb w.1 size && leb w.1 (w.0 + max_chars)) && bounded max_chars size ws

-- Every position from `start` on is in a window, when a window holds at least one character and the fuel is at
-- least the characters that are left.
pub windows-covered :
    (max_chars overlap_chars size fuel start p : ℕ)
    → 1 ≤ max_chars
    → size ≤ fuel + start
    → start ≤ p
    → p < size
    → covered p (windows max_chars overlap_chars size fuel start) ≡ true
unfolding windows window_end next_start covered
windows-covered max_chars overlap_chars size zero start p h f a b = ground (arith, f, a, b)
windows-covered max_chars overlap_chars size (suc fuel) start p h f a b =
    elim (Bool-cases (nat_eq (min size (start + max_chars)) size)) [
      | inl e ↦ ground (arith, f, a, b, h, e)
      | inr e ↦ elim (Bool-cases (ltb p (min size (start + max_chars)))) [
        | inl i ↦ ground (arith, f, a, b, h, e, i)
        | inr i ↦ ground (
          arith,
          f,
          a,
          b,
          h,
          e,
          i,
          windows-covered max_chars overlap_chars size fuel
              (max (start + 1) (min size (start + max_chars) - overlap_chars)) p,
        )
      ]
    ]

pub windows-bounded :
    (max_chars overlap_chars size fuel start : ℕ)
    → bounded max_chars size (windows max_chars overlap_chars size fuel start) ≡ true
unfolding windows window_end bounded
windows-bounded max_chars overlap_chars size zero start = refl
windows-bounded max_chars overlap_chars size (suc fuel) start = ground (
  arith,
  windows-bounded max_chars overlap_chars size fuel
      (next_start overlap_chars start (min size (start + max_chars))),
)

-- Any two amounts of fuel that are enough for the characters that are left give the same windows.
pub windows_enough_fuel :
    (max_chars overlap_chars size fuel more start : ℕ)
    → size ≤ fuel + start
    → size ≤ more + start
    → windows max_chars overlap_chars size fuel start
      ≡ windows max_chars overlap_chars size more start
unfolding windows window_end next_start
windows_enough_fuel max_chars overlap_chars size zero zero start f g = refl
windows_enough_fuel max_chars overlap_chars size zero (suc more) start f g = ground (arith, f)
windows_enough_fuel max_chars overlap_chars size (suc fuel) zero start f g = ground (arith, g)
windows_enough_fuel max_chars overlap_chars size (suc fuel) (suc more) start f g =
    let next = max (start + 1) (min size (start + max_chars) - overlap_chars) in
    rw
      (windows_enough_fuel max_chars overlap_chars size fuel more next (omega (arith, f))
        (omega (arith, g)))
      refl

-- The loop over a paragraph ends and leaves nothing out: when a window holds at least one character, as many rounds
-- as the paragraph has characters are enough, more change nothing, and every position is in
-- one of the windows, each of which lies within the paragraph and has at most `max_chars` characters.
pub paragraph_covered :
    (max_chars overlap_chars size more p : ℕ)
    → 1 ≤ max_chars
    → size ≤ more
    → p < size
    → (windows max_chars overlap_chars size more 0 ≡ windows max_chars overlap_chars size size 0)
      × (covered p (windows max_chars overlap_chars size size 0) ≡ true)
      × (bounded max_chars size (windows max_chars overlap_chars size size 0) ≡ true)
paragraph_covered max_chars overlap_chars size more p h f b = (
  windows_enough_fuel max_chars overlap_chars size more size 0 (omega (arith, f)) (omega arith),
  windows-covered max_chars overlap_chars size size 0 p h (omega arith) (omega arith) b,
  windows-bounded max_chars overlap_chars size size 0,
)
