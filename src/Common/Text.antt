-- ===== src/Common/Text.antt =====
-- Joined and cut texts, as the program's f-strings and slices write them. A text's length counts
-- characters, as Python does.
use Prim.Native.Nat.{ℕ, zero, suc, ◌+◌, ◌≤◌}
use Prim.Native.String.{String, count}
use Prim.Native.String
use Prim.Native.String.append
use Prim.Native.String.count.{nil, cons}
use mathlib.Core.Path.{◌≡◌, refl, sym, ap, ◌∙◌}
use mathlib.Core.List.{List, [], ◌∷◌, ◌++◌}
pub use text.Mathlib.TextLemmas.{append-nil, append_assoc}
use forgeharness.Common.Slices.{total}
use native.Mathlib.Omega.{arith}

-- `f"{a}{separator}{b}"`
abbrev pub join : String → String → String → String
join separator a b = String.◌++◌ a (String.◌++◌ separator b)

abbrev pub concat : List String → String
concat [] = ""
concat (s ∷ l) = String.◌++◌ s (concat l)

-- `separator.join(l)`
abbrev pub join_all : String → List String → String
join_all separator [] = ""
join_all separator (s ∷ []) = s
join_all separator (s ∷ t ∷ l) = join separator s (join_all separator (t ∷ l))

pub join_all-last :
    (separator : String) (s : String) (l : List String) (t : String)
    → join_all separator (s ∷ l ++ t ∷ [])
      ≡ String.◌++◌ (join_all separator (s ∷ l)) (String.◌++◌ separator t)
join_all-last separator s [] t = refl
join_all-last separator s (u ∷ l) t =
    ap (join separator s) (join_all-last separator u l t)
    ∙ ap (String.◌++◌ s)
        (sym (append_assoc separator (join_all separator (u ∷ l)) (String.◌++◌ separator t)))
    ∙ sym (
        append_assoc s (String.◌++◌ separator (join_all separator (u ∷ l)))
          (String.◌++◌ separator t))

-- `text[:n]`
unfoldable pub cut : ℕ → String → String
cut zero s = ""
cut (suc n) String.[] = ""
cut (suc n) (String.◌∷◌ c s) = String.◌∷◌ c (cut n s)

pub count-cut-le : (n : ℕ) (s : String) → count (cut n s) ≤ n
unfolding cut
count-cut-le zero s = omega (arith, nil)
count-cut-le (suc n) String.[] = omega (arith, nil)
count-cut-le (suc n) (String.◌∷◌ c s) = omega (arith, cons c (cut n s), count-cut-le n s)

pub count-append : (s t : String) → count (String.◌++◌ s t) ≡ count s + count t
count-append String.[] t = omega (arith, nil, ap count (append.nil t))
count-append (String.◌∷◌ c s) t =
    omega
      (arith, ap count (append.cons c s t), cons c (String.◌++◌ s t), cons c s, count-append s t)

-- a line of a joined text, with its newline
abbrev pub line_cost : String → ℕ
line_cost line = count line + 1

pub count-join_all :
    (header : String) (lines : List String)
    → count (join_all "\n" (header ∷ lines)) ≡ count header + total line_cost lines
count-join_all header [] = omega arith
count-join_all header (line ∷ lines) =
    let rest = join_all "\n" (line ∷ lines) in
    omega (
      arith,
      count-append header (String.◌++◌ "\n" rest),
      count-append "\n" rest,
      count-join_all line lines,
    )
