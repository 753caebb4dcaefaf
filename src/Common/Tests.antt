-- ===== src/Common/Tests.antt =====
-- Boolean tests. Equality of values is decided, and `==` forgets the proof, so that tactics see
-- the equation on each branch.
use Prim.Native.Nat.{ℕ, compare, Ordering}
use Prim.Native.String.{String}
use mathlib.Core.Path.{◌≡◌, refl}
use mathlib.Core.Logic.{◌⊎◌, inl, inr}
use mathlib.Core.Bool.{Bool, true, false}
use mathlib.Core.Option.{Option, none, some}
use native.Mathlib.Decide.{ℕ_discrete}
use text.Mathlib.Text.{◌==◌ as text_eq}
use text.Mathlib.TextEquality.{eq_iff}

abbrev pub ltb : ℕ → ℕ → Bool
ltb a b = elim (compare a b) [ Ordering.lt ↦ true | _ ↦ false ]

abbrev pub leb : ℕ → ℕ → Bool
leb a b = elim (compare a b) [ Ordering.gt ↦ false | _ ↦ true ]

infix 1 if◌then◌else◌
abbrev pub if◌then◌else◌ {ℓ} : {A : Type ℓ} → Bool → A → A → A
if true then x else y = x
if false then x else y = y

pub Bool-cases : (b : Bool) → (b ≡ true) ⊎ (b ≡ false)
Bool-cases true = inl refl
Bool-cases false = inr refl

pub Option-cases {ℓ} : {A : Type ℓ} (o : Option A) → (o ≡ none) ⊎ ((a : A) × (o ≡ some a))
Option-cases none = inl refl
Option-cases (some a) = inr (a, refl)

abbrev pub is_some {ℓ} : {A : Type ℓ} → Option A → Bool
is_some none = false
is_some (some a) = true

abbrev pub is_none {ℓ} : {A : Type ℓ} → Option A → Bool
is_none none = true
is_none (some a) = false

-- `x or y` on an optional value that has no falsy content
abbrev pub or_else {ℓ} : {A : Type ℓ} → Option A → A → A
or_else none d = d
or_else (some a) d = a

abbrev pub map_option {ℓ κ} : {A : Type ℓ} {B : Type κ} → (A → B) → Option A → Option B
map_option f none = none
map_option f (some a) = some (f a)

abbrev pub holds {ℓ} : {P : Type ℓ} → Dec P → Bool
holds (yes p) = true
holds (no p) = false

dec_of_test : {P : Type 0} (b : Bool) → (b ≡ true → P) → (P → b ≡ true) → Dec P
dec_of_test true f g = yes (f refl)
dec_of_test false f g = no (λ p. cc (g p))

unfoldable pub String_discrete : Discrete String
unfolding dec_of_test
String_discrete s t = dec_of_test (text_eq s t) (eq_iff s t).0 (eq_iff s t).1

-- Types whose values the program compares with `==` or `is`.
pub record Eq {ℓ} (A : Type ℓ) : Type ℓ where
  pub discrete : Discrete A

infix 50 ◌==◌
abbrev pub ◌==◌ {ℓ} : {A : Type ℓ} ⦃e : Eq A⦄ → A → A → Bool
◌==◌ ⦃e⦄ a b = holds (e.discrete a b)

instance abbrev pub ℕ_eq : Eq ℕ
ℕ_eq = record { discrete = ℕ_discrete }

instance abbrev pub String_eq : Eq String
String_eq = record { discrete = String_discrete }

pub holds_refl {ℓ} : {A : Type ℓ} (d : Discrete A) (a : A) → holds (d a a) ≡ true
holds_refl d a = elim (d a a) as (λ x. holds x ≡ true) [ yes p ↦ refl | no p ↦ absurd (p refl) ]
