-- ===== src/Common/Returns.antt =====
-- What holds of the values that a fallible function returns.
use mathlib.Core.Path.{◌≡◌, refl, subst}
use mathlib.Core.Bool.{Bool, true, false}
use forgeharness.Common.Effects.{Result, ok, raise}
use forgeharness.Common.Tests.{if◌then◌else◌}

-- `P` holds of what a fallible function returns.
abbrev pub Returned : {E A : Type 0} → (A → Type 0) → Result E A → Type 0
Returned P (ok a) = P a
Returned P (raise e) = Unit

module _ {E A : Type 0} (P : A → Type 0) where
  pub Returned-if :
      (b : Bool) (e : E) (r : Result E A)
      → (b ≡ false → Returned P r)
      → Returned P (if b then raise e else r)
  Returned-if true e r h = tt
  Returned-if false e r h = h refl

  pub Returned-choice :
      (b : Bool) (r s : Result E A)
      → (b ≡ true → Returned P r)
      → (b ≡ false → Returned P s)
      → Returned P (if b then r else s)
  Returned-choice true r s hr hs = hr refl
  Returned-choice false r s hr hs = hs refl

  pub Returned-ok : (r : Result E A) {a : A} → Returned P r → r ≡ ok a → P a
  Returned-ok r h e = subst (Returned P) e h
