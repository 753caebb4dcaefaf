-- ===== src/Common/Rules.antt =====
-- Invariants of actions: one rule for each way to build an action.
use mathlib.Core.Path.{◌≡◌, refl}
use mathlib.Core.Bool.{Bool, true, false}
use mathlib.Core.Option.{Option, none, some}
use forgeharness.Common.Effects.{
  Result, ok, raise, Action, pure, throw, gets, or_raise, guard, modify, continue, ◌>>=◌, ◌>>◌,
}
use forgeharness.Common.Tests.{if◌then◌else◌}

-- `m` keeps `P`, whether it returns or raises.
pub record Keeps {S E A : Type 0} (P : S → Type 0) (m : Action S E A) : Type 0 where
  pub at : (s : S) → P s → P (m s).1

module _ {S E A : Type 0} {P : S → Type 0} where
  pub Keeps-pure : (a : A) → Keeps P (pure {E = E} a)
  Keeps-pure a = record { at = λ s h. h }

  pub Keeps-throw : (e : E) → Keeps P (throw {A = A} e)
  Keeps-throw e = record { at = λ s h. h }

  pub Keeps-gets : (f : S → A) → Keeps P (gets {E = E} f)
  Keeps-gets f = record { at = λ s h. h }

  pub Keeps-or_raise : (e : E) (o : Option A) → Keeps P (or_raise e o)
  Keeps-or_raise e none = record { at = λ s h. h }
  Keeps-or_raise e (some a) = record { at = λ s h. h }

  pub Keeps-if :
      (b : Bool) (m n : Action S E A) → Keeps P m → Keeps P n → Keeps P (if b then m else n)
  Keeps-if true m n km kn = km
  Keeps-if false m n km kn = kn

module _ {S E : Type 0} {P : S → Type 0} where
  pub Keeps-guard : (b : Bool) (e : E) → Keeps P (guard b e)
  Keeps-guard true e = record { at = λ s h. h }
  Keeps-guard false e = record { at = λ s h. h }

  pub Keeps-modify : (f : S → S) → ((s : S) → P s → P (f s)) → Keeps P (modify {E = E} f)
  Keeps-modify f h = record { at = h }

module _ {S E A B : Type 0} {P : S → Type 0} where
  continue-keeps :
      (r : Result E A) (f : A → Action S E B)
      → ((a : A) → Keeps P (f a))
      → (s : S) → P s
      → P (continue r f s).1
  continue-keeps (ok a) f kf s h = (kf a).at s h
  continue-keeps (raise e) f kf s h = h

  pub Keeps-bind :
      (m : Action S E A) (f : A → Action S E B)
      → Keeps P m
      → ((a : A) → Keeps P (f a))
      → Keeps P (m >>= f)
  Keeps-bind m f km kf = record {
    at = λ s h. let (r, s') = m s in continue-keeps r f kf s' (km.at s h);
  }

  pub Keeps-then : (m : Action S E A) (k : Action S E B) → Keeps P m → Keeps P k → Keeps P (m >> k)
  Keeps-then m k km kk = Keeps-bind m (λ _. k) km (λ _. kk)

pub ruleset keeps_rules = (
  Keeps-pure, Keeps-throw, Keeps-gets, Keeps-or_raise, Keeps-if, Keeps-guard, Keeps-bind,
  Keeps-then,
)

module _ {S E A : Type 0} {P : S → Type 0} where
  -- What stands behind a guard may use that the guard has passed.
  pub Keeps-guarded :
      (b : Bool) (e : E) (k : Action S E A) → (b ≡ true → Keeps P k) → Keeps P (guard b e >> k)
  Keeps-guarded true e k h = record { at = λ s p. (h refl).at s p }
  Keeps-guarded false e k h = record { at = λ s p. p }

-- How an action that starts in `P` ends: with a result for which `Q` holds, or by a raise, in `P`.
abbrev pub Outcome : {S E A : Type 0} → (S → Type 0) → (A → S → Type 0) → Result E A × S → Type 0
Outcome P Q (ok a, s) = Q a s
Outcome P Q (raise e, s) = P s

pub record Ends {S E A : Type 0} (P : S → Type 0) (Q : A → S → Type 0) (m : Action S E A)
    : Type 0 where
  pub at : (s : S) → P s → Outcome P Q (m s)

module _ {S E A B : Type 0} {P : S → Type 0} {Q : B → S → Type 0} where
  continue-Ends :
      (r : Result E A) (f : A → Action S E B)
      → ((a : A) → Ends P Q (f a))
      → (s : S) → P s
      → Outcome P Q (continue r f s)
  continue-Ends (ok a) f h s p = (h a).at s p
  continue-Ends (raise e) f h s p = p

  pub Ends-bind :
      (m : Action S E A) (f : A → Action S E B)
      → Keeps P m
      → ((a : A) → Ends P Q (f a))
      → Ends P Q (m >>= f)
  Ends-bind m f km kf = record {
    at = λ s h. let (r, s') = m s in continue-Ends r f kf s' (km.at s h);
  }

module _ {S E A B : Type 0} (P : S → Type 0) (R : A → S → Type 0) (Q : B → S → Type 0) where
  continue-maps :
      (r : Result E A) (f : A → Action S E B)
      → ((a : A) (s : S) → R a s → Outcome P Q (f a s))
      → (s : S) → Outcome P R (r, s)
      → Outcome P Q (continue r f s)
  continue-maps (ok a) f h s p = h a s p
  continue-maps (raise e) f h s p = p

  -- The first action need not keep `P`.
  pub Ends-after :
      (m : Action S E A) (f : A → Action S E B)
      → Ends P R m
      → ((a : A) (s : S) → R a s → Outcome P Q (f a s))
      → Ends P Q (m >>= f)
  Ends-after m f em h = record {
    at = λ s p. let (r, s') = m s in continue-maps r f h s' (em.at s p);
  }

module _ {S E A : Type 0} {P : S → Type 0} {Q : A → S → Type 0} where
  pub Ends-if :
      (b : Bool) (m n : Action S E A)
      → (b ≡ true → Ends P Q m)
      → (b ≡ false → Ends P Q n)
      → Ends P Q (if b then m else n)
  Ends-if true m n km kn = km refl
  Ends-if false m n km kn = kn refl
