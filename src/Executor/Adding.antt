-- ===== src/Executor/Adding.antt =====
-- How many dispatches of a tool an action of the executor adds: one rule for each way to build it
-- (runtime/tool_executor.py).
use forgeharness.Common.{
  ℕ, ◌+◌, ◌≤◌, ◌≡◌, Bool, true, false, List, [], ◌∷◌, ◌++◌, arith, Result, ok, raise, continue,
  ◌>>=◌, pure, throw, guard, if◌then◌else◌,
}
use forgeharness.Domain.{Error}
use forgeharness.Journal.{Exec}
use forgeharness.Executor.Setting
use forgeharness.Executor.Setting.{
  Executor, Event, World, Run, on_journal, emit, settling, attempt_ends,
}

-- The dispatches that a trace records: one event stands before each.
unfoldable pub is_dispatch : Event → ℕ
is_dispatch (Setting.attempt_started s n t) = 1
is_dispatch _ = 0

unfoldable pub dispatches : List Event → ℕ
unfolding is_dispatch
dispatches [] = 0
dispatches (e ∷ l) = is_dispatch e + dispatches l

dispatches-append : (l m : List Event) → dispatches (l ++ m) ≡ dispatches l + dispatches m
unfolding dispatches
dispatches-append [] m = omega arith
dispatches-append (e ∷ l) m = omega (arith, dispatches-append l m)

-- An action that adds at most `k` dispatches to the trace, however it ends.
pub record Adds {A : Type 0} (k : ℕ) (m : Run A) : Type 0 where
  pub at : (w : World) → dispatches (m w).1.trace ≤ dispatches w.trace + k

module _ {A B : Type 0} (j k n : ℕ) (fits : j + k ≤ n) where
  continue-Adds :
      (r : Result Error A) (f : A → Run B)
      → ((a : A) → Adds k (f a))
      → (t : ℕ) (w : World) → dispatches w.trace ≤ t + j
      → dispatches (continue r f w).1.trace ≤ t + n
  continue-Adds (ok a) f h t w b = omega (arith, (h a).at w)
  continue-Adds (raise e) f h t w b = omega arith

  pub Adds-bind :
      (m : Run A) (f : A → Run B) → Adds j m → ((a : A) → Adds k (f a)) → Adds n (m >>= f)
  Adds-bind m f km kf = record {
    at = λ w. let (r, w') = m w in continue-Adds r f kf (dispatches w.trace) w' (km.at w);
  }

module _ {A : Type 0} where
  pub Adds-weaken : {j k : ℕ} (m : Run A) → j ≤ k → Adds j m → Adds k m
  Adds-weaken m le a = record { at = λ w. omega (arith, a.at w) }

  pub Adds-pure : (a : A) → Adds 0 (pure a)
  Adds-pure a = record { at = λ w. omega arith }

  pub Adds-throw : (e : Error) → Adds 0 (throw {A = A} e)
  Adds-throw e = record { at = λ w. omega arith }

  pub Adds-on_journal : (m : Exec A) → Adds 0 (on_journal m)
  Adds-on_journal m = record { at = λ w. omega arith }

pub Adds-guard : (b : Bool) (e : Error) → Adds 0 (guard b e)
Adds-guard true e = record { at = λ w. omega arith }
Adds-guard false e = record { at = λ w. omega arith }

pub Adds-if :
    {A : Type 0} {k : ℕ} (b : Bool) (m n : Run A)
    → Adds k m
    → Adds k n
    → Adds k (if b then m else n)
Adds-if true m n a c = a
Adds-if false m n a c = c

pub Adds-emit : (e : Event) → Adds (is_dispatch e) (emit e)
unfolding dispatches
Adds-emit e = record { at = λ w. omega (arith, dispatches-append w.trace (e ∷ [])) }
