-- ===== src/Context/Order.antt =====
-- The order of text ids that context/compiler.py sorts by.
use Prim.Native.Nat.{Ordering}
use Prim.Native.String.{compare}
use Prim.Native.String.compare.{nil-nil, cons-nil, cons-cons}
use forgeharness.Common.{◌≡◌, String, Bool, true, false, arith}

abbrev pub text_precedes : String → String → Bool
text_precedes s t = elim (compare s t) [ Ordering.lt ↦ true | _ ↦ false ]

pub text_precedes-asymmetric : (s t : String) → text_precedes s t ≡ true → text_precedes t s ≡ false
text_precedes-asymmetric String.[] String.[] h = ground (arith, nil-nil)
text_precedes-asymmetric String.[] (String.◌∷◌ d t) h = ground (arith, cons-nil d t)
text_precedes-asymmetric (String.◌∷◌ c s) String.[] h = ground (arith, cons-nil c s)
text_precedes-asymmetric (String.◌∷◌ c s) (String.◌∷◌ d t) h =
    ground (arith, cons-cons c d s t, cons-cons d c t s, text_precedes-asymmetric s t)
