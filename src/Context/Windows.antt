-- ===== src/Context/Windows.antt =====
-- `_newest_units_within` keeps the longest run of newest turns that fits.
use Prim.Native.Nat.{◌/◌}
use forgeharness.Common.{
  ℕ, zero, suc, ◌+◌, ◌≤◌, ◌<◌, ◌≡◌, refl, ap, ◌∙◌, List, [], ◌∷◌, ◌++◌, map, length, ltb, leb,
  if◌then◌else◌, take, reverse, total, take-append, take_all, length-reverse, reverse-reverse,
  arith, total-reverse, Bool-cases, inl, inr,
}
use forgeharness.Context.Units.{
  TurnUnit, accumulate, at, bisect_between, bisect_right, newest_units_within, tokens_of,
}

-- how many of the counts fit, one after the other
abbrev fit : ℕ → ℕ → List ℕ → ℕ
fit x sum [] = 0
fit x sum (n ∷ counts) =
    let more = fit x (sum + n) counts in if leb (sum + n) x then suc more else 0

at-accumulate-ge :
    (sum : ℕ) (counts : List ℕ) (i : ℕ) → i ≤ length counts → sum ≤ at (accumulate sum counts) i
at-accumulate-ge sum [] zero h = omega arith
at-accumulate-ge sum [] (suc i) h = absurd (omega arith)
at-accumulate-ge sum (n ∷ counts) zero h = omega arith
at-accumulate-ge sum (n ∷ counts) (suc i) h =
    omega (arith, at-accumulate-ge (sum + n) counts i (omega arith))

fit-ge :
    (x sum : ℕ) (counts : List ℕ) (i : ℕ)
    → i ≤ length counts
    → at (accumulate sum counts) i ≤ x
    → i ≤ fit x sum counts
fit-ge x sum counts zero h le = omega arith
fit-ge x sum [] (suc i) h le = absurd (omega arith)
fit-ge x sum (n ∷ counts) (suc i) h le =
    let ih = fit-ge x (sum + n) counts i (omega arith) le in
    let ge = at-accumulate-ge (sum + n) counts i (omega arith) in ground arith

fit-lt :
    (x sum : ℕ) (counts : List ℕ) (i : ℕ)
    → sum ≤ x
    → i ≤ length counts
    → x < at (accumulate sum counts) i
    → fit x sum counts < i
fit-lt x sum [] zero s h lt = absurd (omega arith)
fit-lt x sum [] (suc i) s h lt = absurd (omega arith)
fit-lt x sum (n ∷ counts) zero s h lt = absurd (omega arith)
fit-lt x sum (n ∷ counts) (suc i) s h lt =
    let ih = λ (p : sum + n ≤ x). fit-lt x (sum + n) counts i p (omega arith) lt in ground arith

fit-le : (x sum : ℕ) (counts : List ℕ) → fit x sum counts ≤ length counts
fit-le x sum [] = omega arith
fit-le x sum (n ∷ counts) = let ih = fit-le x (sum + n) counts in ground arith

length-accumulate :
    (sum : ℕ) (counts : List ℕ) → length (accumulate sum counts) ≡ suc (length counts)
length-accumulate sum [] = refl
length-accumulate sum (n ∷ counts) = ap suc (length-accumulate (sum + n) counts)

-- The search ends on the number of sums that are at most `x`.
bisect_between-fit :
    (x sum : ℕ) (counts : List ℕ) (fuel low high : ℕ)
    → sum ≤ x
    → low ≤ suc (fit x sum counts)
    → suc (fit x sum counts) ≤ high
    → high ≤ suc (length counts)
    → high ≤ low + fuel
    → bisect_between fuel (accumulate sum counts) x low high ≡ suc (fit x sum counts)
unfolding bisect_between
bisect_between-fit x sum counts zero low high s l h b f = omega arith
bisect_between-fit x sum counts (suc fuel) low high s l h b f =
    let middle = (low + high) / 2 in
    let is_left = ltb x (at (accumulate sum counts) middle) in
    elim (Bool-cases (ltb low high)) [
      | inr e ↦ ground arith
      | inl e ↦
          let in_range : low < high = ground arith in
          let inside : middle ≤ length counts = omega arith in
          elim (Bool-cases is_left) [
            | inl e' ↦
                let smaller : fit x sum counts < middle =
                  fit-lt x sum counts middle s inside (ground arith) in
                let ih =
                  bisect_between-fit x sum counts fuel low middle s l (omega arith) (omega arith)
                    (omega arith) in
                ground arith
            | inr e' ↦
                let larger : middle ≤ fit x sum counts =
                  fit-ge x sum counts middle inside (ground arith) in
                let ih =
                  bisect_between-fit x sum counts fuel (middle + 1) high s (omega arith) h b
                    (omega arith) in
                ground arith
          ]
    ]

bisect_right-fit :
    (x : ℕ) (counts : List ℕ) → bisect_right (accumulate 0 counts) x ≡ suc (fit x 0 counts)
unfolding bisect_right
bisect_right-fit x counts =
    let size = length-accumulate 0 counts in
    let least = fit-le x 0 counts in
    bisect_between-fit x 0 counts (length (accumulate 0 counts)) 0 (length (accumulate 0 counts))
      (omega arith) (omega arith) (omega arith) (omega arith) (omega arith)

-- the longest run of the newest turns whose tokens are within the budget
unfoldable pub longest_fitting : List TurnUnit → ℕ → List TurnUnit
longest_fitting [] budget = []
longest_fitting (u ∷ units) budget =
    if leb (total tokens_of (u ∷ units)) budget then u ∷ units else longest_fitting units budget

fit-snoc :
    (x sum : ℕ) (units : List TurnUnit) (u : TurnUnit)
    → fit x sum (map tokens_of (units ++ u ∷ [])) ≡ (
        if leb (sum + total tokens_of units + u.tokens) x
        then suc (length units)
        else fit x sum (map tokens_of units))
fit-snoc x sum [] u = ground arith
fit-snoc x sum (v ∷ units) u = let ih = fit-snoc x (sum + v.tokens) units u in ground arith

length-map : (units : List TurnUnit) → length (map tokens_of units) ≡ length units
length-map [] = refl
length-map (u ∷ units) = ap suc (length-map units)

abbrev fit_of : List TurnUnit → ℕ → ℕ
fit_of units budget = fit budget 0 (map tokens_of (reverse units))

abbrev newest : ℕ → List TurnUnit → List TurnUnit
newest n units = reverse (take n (reverse units))

newest_units_within-newest :
    (units : List TurnUnit) (budget : ℕ)
    → newest_units_within units budget ≡ newest (fit_of units budget) units
unfolding newest_units_within
newest_units_within-newest units budget =
    let e = bisect_right-fit budget (map tokens_of (reverse units)) in
    ap (λ n. newest n units) (omega (arith, e))

fit_of-cons :
    (u : TurnUnit) (units : List TurnUnit) (budget : ℕ)
    → fit_of (u ∷ units) budget ≡ (
        if leb (total tokens_of (u ∷ units)) budget
        then suc (length units)
        else fit_of units budget)
fit_of-cons u units budget =
    let e = fit-snoc budget 0 (reverse units) u in
    let t = total-reverse tokens_of units in let n = length-reverse units in ground arith

newest_all :
    (u : TurnUnit) (units : List TurnUnit) → newest (suc (length units)) (u ∷ units) ≡ u ∷ units
newest_all u units =
    let n = length-reverse (u ∷ units) in
    ap reverse (take_all (suc (length units)) (reverse (u ∷ units)) (omega arith))
    ∙ reverse-reverse (u ∷ units)

newest-cons :
    (n : ℕ) (u : TurnUnit) (units : List TurnUnit)
    → n ≤ length units
    → newest n (u ∷ units) ≡ newest n units
newest-cons n u units h =
    let e = length-reverse units in
    ap reverse (take-append n (reverse units) (u ∷ []) (omega arith))

fit_of-le : (units : List TurnUnit) (budget : ℕ) → fit_of units budget ≤ length units
fit_of-le units budget =
    let least = fit-le budget 0 (map tokens_of (reverse units)) in
    omega (arith, least, length-map (reverse units), length-reverse units)

newest-longest_fitting :
    (units : List TurnUnit) (budget : ℕ)
    → newest (fit_of units budget) units ≡ longest_fitting units budget
unfolding longest_fitting
newest-longest_fitting [] budget = refl
newest-longest_fitting (u ∷ units) budget =
    let ih = newest-longest_fitting units budget in
    let e = fit_of-cons u units budget in
    elim (Bool-cases (leb (total tokens_of (u ∷ units)) budget)) [
      | inl fits ↦
          let all : fit_of (u ∷ units) budget ≡ suc (length units) = ground arith in
          ap (λ n. newest n (u ∷ units)) all ∙ newest_all u units ∙ ground arith
      | inr over ↦
          let fewer : fit_of (u ∷ units) budget ≡ fit_of units budget = ground arith in
          ap (λ n. newest n (u ∷ units)) fewer
          ∙ newest-cons (fit_of units budget) u units (fit_of-le units budget)
          ∙ ih
          ∙ ground arith
    ]

-- `_newest_units_within` returns the longest run of the newest turns whose tokens sum to at most
-- the budget.
pub newest_units_within-longest_fitting :
    (units : List TurnUnit) (budget : ℕ)
    → newest_units_within units budget ≡ longest_fitting units budget
newest_units_within-longest_fitting units budget =
    newest_units_within-newest units budget ∙ newest-longest_fitting units budget
