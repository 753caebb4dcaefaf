-- ===== src/Common/Effects.antt =====
-- A method of a stateful object: what it wrote before a raise stays written, so the state comes
-- back beside the error too. A database transaction that rolls back raises on the state it began
-- with.
use mathlib.Core.Bool.{Bool, true, false}
use mathlib.Core.Option.{Option, none, some}

pub data Result {ℓ} (E A : Type ℓ) : Type ℓ where
  ok : A → Result E A
  raise : E → Result E A

abbrev pub Action {ℓ} : Type ℓ → Type ℓ → Type ℓ → Type ℓ
Action S E A = S → Result E A × S

module _ {ℓ} {S E A : Type ℓ} where
  abbrev pub pure : A → Action S E A
  pure a s = (ok a, s)

  abbrev pub throw : E → Action S E A
  throw e s = (raise e, s)

  abbrev pub gets : (S → A) → Action S E A
  gets f s = (ok (f s), s)

  abbrev pub lift : Result E A → Action S E A
  lift r s = (r, s)

module _ {ℓ} {S E A : Type ℓ} where
  abbrev pub or_raise : E → Option A → Action S E A
  or_raise e none = throw e
  or_raise e (some a) = pure a

abbrev pub modify {ℓ} : {S E : Type ℓ} → (S → S) → Action S E (Unit {ℓ})
modify f s = (ok tt, f s)

abbrev pub guard {ℓ} : {S E : Type ℓ} → Bool → E → Action S E (Unit {ℓ})
guard true e s = (ok tt, s)
guard false e s = (raise e, s)

module _ {ℓ} {S E A B : Type ℓ} where
  abbrev pub continue : Result E A → (A → Action S E B) → Action S E B
  continue (ok a) f s = f a s
  continue (raise e) f s = (raise e, s)

  infixl 5 ◌>>=◌ ◌>>◌
  abbrev pub ◌>>=◌ : Action S E A → (A → Action S E B) → Action S E B
  ◌>>=◌ m f s = let (r, s') = m s in continue r f s'

  abbrev pub ◌>>◌ : Action S E A → Action S E B → Action S E B
  m >> k = m >>= λ _. k
