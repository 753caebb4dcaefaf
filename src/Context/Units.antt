-- ===== src/Context/Units.antt =====
-- Turns as indivisible units: `_turn_units` and `_newest_units_within` of context/assembly.py, with
-- `bisect_right` of the standard library.
use Prim.Native.Nat.{◌/◌}
use forgeharness.Common.{
  ℕ, zero, suc, ◌+◌, ◌-◌, List, [], ◌∷◌, map, length, ltb, if◌then◌else◌, ◌==◌, Eq, take, reverse,
  total,
}
use forgeharness.Domain.{Message, MessageRole, tool}

instance abbrev pub Role_eq : Eq MessageRole
Role_eq = record { discrete = hlevel }

-- `_Unit`
pub record TurnUnit : Type 0 where
  pub start : ℕ
  pub messages : List Message
  pub tokens : ℕ

abbrev pub leading_tools : List Message → List Message
leading_tools [] = []
leading_tools (m ∷ messages) = if m.role == tool then m ∷ leading_tools messages else []

abbrev pub turn_unit : (Message → ℕ) → ℕ → List Message → TurnUnit
turn_unit estimate start messages = record {
  start = start;
  messages = messages;
  tokens = total estimate messages;
}

-- `_turn_units`: a tool result before the first other message is in no unit
abbrev pub turn_units : (Message → ℕ) → ℕ → List Message → List TurnUnit
turn_units estimate offset [] = []
turn_units estimate offset (m ∷ messages) =
    let rest = turn_units estimate (offset + 1) messages in
    if m.role == tool then rest else turn_unit estimate offset (m ∷ leading_tools messages) ∷ rest

-- `accumulate(counts, initial=sum)`
abbrev pub accumulate : ℕ → List ℕ → List ℕ
accumulate sum [] = sum ∷ []
accumulate sum (n ∷ counts) = sum ∷ accumulate (sum + n) counts

-- `a[i]`, for an index in range
abbrev pub at : List ℕ → ℕ → ℕ
at [] i = 0
at (n ∷ a) zero = n
at (n ∷ a) (suc i) = at a i

-- the loop of `bisect_right(a, x)`, on fuel
unfoldable pub bisect_between : ℕ → List ℕ → ℕ → ℕ → ℕ → ℕ
bisect_between zero a x low high = low
bisect_between (suc fuel) a x low high =
    let middle = (low + high) / 2 in
    let is_left = ltb x (at a middle) in
    let next =
      bisect_between fuel a x (if is_left then low else middle + 1)
        (if is_left then middle else high) in
    if ltb low high then next else low

unfoldable pub bisect_right : List ℕ → ℕ → ℕ
unfolding bisect_between
bisect_right a x = bisect_between (length a) a x 0 (length a)

abbrev pub tokens_of : TurnUnit → ℕ
tokens_of u = u.tokens

-- `_newest_units_within`
unfoldable pub newest_units_within : List TurnUnit → ℕ → List TurnUnit
unfolding bisect_right
newest_units_within units budget =
    let newest_first = reverse units in
    let fitting = bisect_right (accumulate 0 (map tokens_of newest_first)) budget - 1 in
    reverse (take fitting newest_first)
