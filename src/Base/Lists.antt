-- ===== src/Base/Lists.antt =====
-- Lists measured by native numbers, and membership of texts as a Boolean test.
use Prim.Native.Nat.{ℕ, zero, suc, ◌+◌, ◌-◌}
use Prim.Native.String.{String}
use mathlib.Core.Path.{◌≡◌, refl}
use mathlib.Core.Bool.{Bool, true, false, ◌||◌}
use mathlib.Core.List.{List, [], ◌∷◌, ◌++◌}
use native.Mathlib.Omega.{arith}
use text.Mathlib.TextEquality.{eq_iff}
use rag_pipeline_windows.Base.Tests.{◌==◌, if◌then◌else◌}

module _ {ℓ} {A : Type ℓ} where
  abbrev pub length : List A → ℕ
  length [] = 0
  length (x ∷ xs) = suc (length xs)

  abbrev pub take : ℕ → List A → List A
  take zero xs = []
  take (suc n) [] = []
  take (suc n) (x ∷ xs) = x ∷ take n xs

  abbrev pub drop : ℕ → List A → List A
  drop zero xs = xs
  drop (suc n) [] = []
  drop (suc n) (x ∷ xs) = drop n xs

  abbrev pub keep : (A → Bool) → List A → List A
  keep p [] = []
  keep p (x ∷ xs) = let rest = keep p xs in if p x then x ∷ rest else rest

  abbrev pub any : (A → Bool) → List A → Bool
  any p [] = false
  any p (x ∷ xs) = p x || any p xs

module _ {ℓ} {A : Type ℓ} where
  pub length-append : (xs ys : List A) → length (xs ++ ys) ≡ length xs + length ys
  length-append [] ys = omega arith
  length-append (x ∷ xs) ys = omega (arith, length-append xs ys)

  pub length-drop : (n : ℕ) (xs : List A) → length (drop n xs) ≡ length xs - n
  length-drop zero xs = omega arith
  length-drop (suc n) [] = omega arith
  length-drop (suc n) (x ∷ xs) = omega (arith, length-drop n xs)

-- `k in xs` for a list of texts.
abbrev pub contains : String → List String → Bool
contains k [] = false
contains k (x ∷ xs) = x == k || contains k xs

-- No text stands twice.
abbrev pub distinct : List String → Bool
distinct [] = true
distinct (x ∷ xs) = if contains x xs then false else distinct xs

pub contains-append :
    (k : String) (xs ys : List String) → contains k (xs ++ ys) ≡ (contains k xs || contains k ys)
contains-append k [] ys = refl
contains-append k (x ∷ xs) ys = ground (arith, contains-append k xs ys)

-- `[x for x in xs if x != k]`
abbrev pub without : String → List String → List String
without k [] = []
without k (x ∷ xs) = let rest = without k xs in if x == k then rest else x ∷ rest

pub contains-without :
    (k j : String) (xs : List String)
    → contains j (without k xs) ≡ (if k == j then false else contains j xs)
contains-without k j [] = ground arith
contains-without k j (x ∷ xs) =
    ground (arith, contains-without k j xs, eq_iff x k, eq_iff x j, eq_iff k j)

pub distinct-without :
    (k : String) (xs : List String) → distinct xs ≡ true → distinct (without k xs) ≡ true
distinct-without k [] h = refl
distinct-without k (x ∷ xs) h =
    ground (arith, distinct-without k xs, contains-without k x xs, eq_iff x k, eq_iff k x)

pub distinct-snoc :
    (k : String) (xs : List String)
    → distinct xs ≡ true
    → contains k xs ≡ false
    → distinct (xs ++ k ∷ []) ≡ true
distinct-snoc k [] h n = refl
distinct-snoc k (x ∷ xs) h n =
    ground (arith, distinct-snoc k xs, contains-append x xs (k ∷ []), eq_iff x k, eq_iff k x)
