-- ===== src/Context/Selection.antt =====
-- How the turns of a conversation are divided, by any weight of a message: `IsBalanced` states that
-- a request neither loses a message nor sends one twice.
use forgeharness.Common.{
  ℕ, zero, suc, ◌+◌, ◌-◌, ◌≤◌, ◌≡◌, refl, ap, Bool, true, false, not, List, [], ◌∷◌, ◌++◌, length,
  All, All-append, leb, if◌then◌else◌, ◌==◌, select, take, drop, total, sort_by, total-append,
  total-slices, total-select, total-sort_by, arith, Option,
}
use forgeharness.Domain.{Message, tool}
use forgeharness.Context.Units.{TurnUnit, turn_units, leading_tools, turn_unit, tokens_of, Role_eq}
use forgeharness.Context.Windows.{longest_fitting}
use forgeharness.Context.Result.{
  ContextAssembler, messages_of, leading_system, after_system, is_at, sent_messages, summary_part,
  from_end,
}
use forgeharness.Context.Assembly.{required_units, optional_units, has_objective}

-- the weight of a unit's messages
abbrev pub unit_weight : (Message → ℕ) → TurnUnit → ℕ
unit_weight w u = total w u.messages

pub total-messages_of :
    (w : Message → ℕ) (units : List TurnUnit)
    → total w (messages_of units) ≡ total (unit_weight w) units
total-messages_of w [] = refl
total-messages_of w (u ∷ units) =
    omega (arith, total-append w u.messages (messages_of units), total-messages_of w units)

total-append_five :
    (w : Message → ℕ) (a b c d e : List Message)
    → total w (a ++ b ++ c ++ d ++ e) ≡ total w a + total w b + total w c + total w d + total w e
total-append_five w a b c d e = omega (
  arith,
  total-append w (a ++ b ++ c ++ d) e,
  total-append w (a ++ b ++ c) d,
  total-append w (a ++ b) c,
  total-append w a b,
)

pub total-sent_messages :
    (w : Message → ℕ) (leading pinned : List Message) (included required : List TurnUnit)
    (c : Option (Message × List TurnUnit)) (objective : Option ℕ)
    → total w (
        sent_messages leading pinned
          (sort_by (λ (u : TurnUnit). u.start) (included ++ required))
          c
          objective)
      ≡ total w leading
        + total w pinned
        + total w (summary_part c)
        + total (unit_weight w) included
        + total (unit_weight w) required
unfolding sent_messages
total-sent_messages w leading pinned included required c objective =
    let kept = sort_by (λ (u : TurnUnit). u.start) (included ++ required) in
    let first = select (is_at objective) kept in
    let rest = select (λ u. not (is_at objective u)) kept in
    let e : total w (sent_messages leading pinned kept c objective)
        ≡ total w leading
          + total w pinned
          + total w (messages_of first)
          + total w (summary_part c)
          + total w (messages_of rest) =
      total-append_five w leading pinned (messages_of first) (summary_part c) (messages_of rest) in
    omega (
      arith,
      e,
      total-messages_of w first,
      total-messages_of w rest,
      total-select (unit_weight w) (is_at objective) kept,
      total-sort_by (unit_weight w) (λ (u : TurnUnit). u.start) (included ++ required),
      total-append (unit_weight w) included required,
    )

abbrev pub BeginsTurn : List Message → Type 0
BeginsTurn [] = Unit
BeginsTurn (m ∷ messages) = (m.role == tool) ≡ false

total-leading_tools :
    (estimate w : Message → ℕ) (offset : ℕ) (messages : List Message)
    → total w (leading_tools messages) + total (unit_weight w) (turn_units estimate offset messages)
      ≡ total w messages
total-leading_tools estimate w offset [] = omega arith
total-leading_tools estimate w offset (m ∷ messages) =
    let ih = total-leading_tools estimate w (offset + 1) messages in ground arith

-- The units hold each message of a conversation that begins with a turn.
pub total-turn_units :
    (estimate w : Message → ℕ) (offset : ℕ) (messages : List Message)
    → BeginsTurn messages
    → total (unit_weight w) (turn_units estimate offset messages) ≡ total w messages
total-turn_units estimate w offset [] h = refl
total-turn_units estimate w offset (m ∷ messages) h =
    let e = total-leading_tools estimate w (offset + 1) messages in ground arith

pub total-system :
    (w : Message → ℕ) (messages : List Message)
    → total w (leading_system messages) + total w (after_system messages) ≡ total w messages
total-system w [] = omega arith
total-system w (m ∷ messages) = let ih = total-system w messages in ground arith

length-longest_fitting-le :
    (units : List TurnUnit) (budget : ℕ) → length (longest_fitting units budget) ≤ length units
unfolding longest_fitting
length-longest_fitting-le [] budget = omega arith
length-longest_fitting-le (u ∷ units) budget =
    let ih = length-longest_fitting-le units budget in ground arith

-- the turns before a suffix and the suffix, in any weight
abbrev Divided : (TurnUnit → ℕ) → List TurnUnit → List TurnUnit → Type 0
Divided w kept units =
    total w (take (length units - length kept) units) + total w kept ≡ total w units

Divided-if :
    (w : TurnUnit → ℕ) (u : TurnUnit) (units kept : List TurnUnit) (b : Bool)
    → length kept ≤ length units
    → Divided w kept units
    → Divided w (if b then u ∷ units else kept) (u ∷ units)
Divided-if w u units kept true h d =
    let none_left = ap (λ n. total w (take n (u ∷ units))) (nat (length units)) in
    omega (arith, none_left)
  where
    nat : (n : ℕ) → suc n - suc n ≡ 0
    nat n = omega arith
Divided-if w u units kept false h d =
    let one_more = ap (λ n. total w (take n (u ∷ units))) (nat (length units) (length kept) h) in
    omega (arith, one_more, d)
  where
    nat : (n k : ℕ) → k ≤ n → suc n - k ≡ suc (n - k)
    nat n k h = omega arith

pub longest_fitting-Divided :
    (w : TurnUnit → ℕ) (units : List TurnUnit) (budget : ℕ)
    → Divided w (longest_fitting units budget) units
unfolding longest_fitting
longest_fitting-Divided w [] budget = omega arith
longest_fitting-Divided w (u ∷ units) budget =
    Divided-if w u units (longest_fitting units budget) (leb (total tokens_of (u ∷ units)) budget)
      (length-longest_fitting-le units budget) (longest_fitting-Divided w units budget)

pub longest_fitting-le :
    (units : List TurnUnit) (budget : ℕ) → total tokens_of (longest_fitting units budget) ≤ budget
unfolding longest_fitting
longest_fitting-le [] budget = omega arith
longest_fitting-le (u ∷ units) budget = let ih = longest_fitting-le units budget in ground arith

total-parts :
    (w : TurnUnit → ℕ) (units : List TurnUnit) (n : ℕ) (b : Bool)
    → (b ≡ true → 1 ≤ n)
    → total w (if b then take 1 units ++ drop n units else drop n units)
        + total w (drop (if b then 1 else 0) (take n units))
      ≡ total w units
total-parts w units n false h = omega (arith, total-slices w n units)
total-parts w units zero true h = absurd (omega (arith, h refl))
total-parts w [] (suc n) true h = omega arith
total-parts w (u ∷ units) (suc n) true h = omega (arith, total-slices w n units)

from_end-pos :
    (a : ContextAssembler) (units : List TurnUnit)
    → has_objective a units ≡ true
    → 1 ≤ from_end (length units) a.min_recent_units
from_end-pos a units h = ground arith

-- Required and optional turns are all turns, each once.
pub total-required-optional :
    (a : ContextAssembler) (w : TurnUnit → ℕ) (units : List TurnUnit)
    → total w (required_units a units) + total w (optional_units a units) ≡ total w units
total-required-optional a w units =
    total-parts w units (from_end (length units) a.min_recent_units) (has_objective a units)
      (from_end-pos a units)

module _ {A : Type 0} (P : A → Type 0) where
  pub All-take : (n : ℕ) (xs : List A) → All P xs → All P (take n xs)
  All-take zero xs h = tt
  All-take (suc n) [] h = tt
  All-take (suc n) (x ∷ xs) h = (h.0, All-take n xs h.1)

  pub All-drop : (n : ℕ) (xs : List A) → All P xs → All P (drop n xs)
  All-drop zero xs h = h
  All-drop (suc n) [] h = tt
  All-drop (suc n) (x ∷ xs) h = All-drop n xs h.1

  pub All-if : (b : Bool) (xs ys : List A) → All P xs → All P ys → All P (if b then xs else ys)
  All-if true xs ys hx hy = hx
  All-if false xs ys hx hy = hy

-- a unit's token count is that of its messages
abbrev pub IsSized : (Message → ℕ) → TurnUnit → Type 0
IsSized estimate u = u.tokens ≡ total estimate u.messages

pub turn_units-IsSized :
    (estimate : Message → ℕ) (offset : ℕ) (messages : List Message)
    → All (IsSized estimate) (turn_units estimate offset messages)
turn_units-IsSized estimate offset [] = tt
turn_units-IsSized estimate offset (m ∷ messages) =
    let ih = turn_units-IsSized estimate (offset + 1) messages in
    All-if (IsSized estimate) (m.role == tool) (turn_units estimate (offset + 1) messages)
      (turn_unit estimate offset (m ∷ leading_tools messages)
        ∷ turn_units estimate (offset + 1) messages)
      ih (refl, ih)

pub total-IsSized :
    (estimate : Message → ℕ) (units : List TurnUnit)
    → All (IsSized estimate) units
    → total tokens_of units ≡ total (unit_weight estimate) units
total-IsSized estimate [] h = refl
total-IsSized estimate (u ∷ units) h = omega (arith, h.0, total-IsSized estimate units h.1)

pub longest_fitting-All :
    (P : TurnUnit → Type 0) (units : List TurnUnit) (budget : ℕ)
    → All P units
    → All P (longest_fitting units budget)
unfolding longest_fitting
longest_fitting-All P [] budget h = tt
longest_fitting-All P (u ∷ units) budget h =
    All-if P (leb (total tokens_of (u ∷ units)) budget) (u ∷ units) (longest_fitting units budget) h
      (longest_fitting-All P units budget h.1)

module _ (a : ContextAssembler) (units : List TurnUnit) (P : TurnUnit → Type 0)
    (h : All P units) where
  pub required_units-All : All P (required_units a units)
  required_units-All =
      let recent = drop (from_end (length units) a.min_recent_units) units in
      let all = All-drop P (from_end (length units) a.min_recent_units) units h in
      All-if P (has_objective a units) (take 1 units ++ recent) recent
        (All-append P (take 1 units) recent (All-take P 1 units h) all) all

  pub optional_units-All : All P (optional_units a units)
  optional_units-All =
      let n = from_end (length units) a.min_recent_units in
      All-drop P (if has_objective a units then 1 else 0) (take n units) (All-take P n units h)
