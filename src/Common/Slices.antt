-- ===== src/Common/Slices.antt =====
-- Slices of lists, reversed lists, and sums over lists.
use Prim.Native.Nat.{ℕ, zero, suc, ◌+◌, ◌≤◌}
use mathlib.Core.Path.{◌≡◌, refl, ap, ◌∙◌}
use mathlib.Core.Bool.{Bool, not}
use mathlib.Core.List.{List, [], ◌∷◌, ◌++◌}
use native.Mathlib.Omega.{arith}
use forgeharness.Common.Lists.{length, select, insert_by, sort_by}

module _ {ℓ} {A : Type ℓ} where
  -- `xs[:n]`
  abbrev pub take : ℕ → List A → List A
  take zero xs = []
  take (suc n) [] = []
  take (suc n) (x ∷ xs) = x ∷ take n xs

  -- `xs[n:]`
  abbrev pub drop : ℕ → List A → List A
  drop zero xs = xs
  drop (suc n) [] = []
  drop (suc n) (x ∷ xs) = drop n xs

  abbrev pub reverse : List A → List A
  reverse [] = []
  reverse (x ∷ xs) = reverse xs ++ x ∷ []

  -- `sum(weight(x) for x in xs)`
  abbrev pub total : (A → ℕ) → List A → ℕ
  total weight [] = 0
  total weight (x ∷ xs) = weight x + total weight xs

  pub take-append : (n : ℕ) (xs ys : List A) → n ≤ length xs → take n (xs ++ ys) ≡ take n xs
  take-append zero xs ys h = refl
  take-append (suc n) [] ys h = absurd (omega arith)
  take-append (suc n) (x ∷ xs) ys h = ap (λ l. x ∷ l) (take-append n xs ys (omega arith))

  pub take_all : (n : ℕ) (xs : List A) → length xs ≤ n → take n xs ≡ xs
  take_all zero [] h = refl
  take_all zero (x ∷ xs) h = absurd (omega arith)
  take_all (suc n) [] h = refl
  take_all (suc n) (x ∷ xs) h = ap (λ l. x ∷ l) (take_all n xs (omega arith))

  pub length-reverse : (xs : List A) → length (reverse xs) ≡ length xs
  length-reverse [] = refl
  length-reverse (x ∷ xs) =
      omega
        (arith, length-reverse xs, forgeharness.Common.Lists.length-append (reverse xs) (x ∷ []))

  reverse-append : (xs : List A) (y : A) → reverse (xs ++ y ∷ []) ≡ y ∷ reverse xs
  reverse-append [] y = refl
  reverse-append (x ∷ xs) y = ap (λ l. l ++ x ∷ []) (reverse-append xs y)

  pub reverse-reverse : (xs : List A) → reverse (reverse xs) ≡ xs
  reverse-reverse [] = refl
  reverse-reverse (x ∷ xs) = reverse-append (reverse xs) x ∙ ap (λ l. x ∷ l) (reverse-reverse xs)

module _ {ℓ} {A : Type ℓ} (w : A → ℕ) where
  pub total-append : (xs ys : List A) → total w (xs ++ ys) ≡ total w xs + total w ys
  total-append [] ys = omega arith
  total-append (x ∷ xs) ys = omega (arith, total-append xs ys)

  pub total-reverse : (xs : List A) → total w (reverse xs) ≡ total w xs
  total-reverse [] = refl
  total-reverse (x ∷ xs) = omega (arith, total-reverse xs, total-append (reverse xs) (x ∷ []))

  pub total-slices : (n : ℕ) (xs : List A) → total w (take n xs) + total w (drop n xs) ≡ total w xs
  total-slices zero xs = omega arith
  total-slices (suc n) [] = omega arith
  total-slices (suc n) (x ∷ xs) = omega (arith, total-slices n xs)

  -- A condition splits the sum.
  pub total-select :
      (p : A → Bool) (xs : List A)
      → total w (select p xs) + total w (select (λ x. not (p x)) xs) ≡ total w xs
  total-select p [] = refl
  total-select p (x ∷ xs) = let ih = total-select p xs in ground arith

  total-insert_by :
      (key : A → ℕ) (a : A) (xs : List A) → total w (insert_by key a xs) ≡ w a + total w xs
  total-insert_by key a [] = refl
  total-insert_by key a (x ∷ xs) = let ih = total-insert_by key a xs in ground arith

  pub total-sort_by : (key : A → ℕ) (xs : List A) → total w (sort_by key xs) ≡ total w xs
  total-sort_by key [] = refl
  total-sort_by key (x ∷ xs) =
      omega (arith, total-sort_by key xs, total-insert_by key x (sort_by key xs))
