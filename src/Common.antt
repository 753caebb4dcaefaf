-- ===== src/Common.antt =====
-- Names that every module shares: the libraries' names passed on, Boolean tests on decisions,
-- lists over the native numbers, and computations that change a state and may raise.
mod Tests
mod Lists
mod Effects
mod Rules
mod Text
mod Slices
mod Returns
unfoldable pub use Tests.*
unfoldable pub use Lists.*
pub use Effects.*
pub use Rules.*
unfoldable pub use Text.*
unfoldable pub use Slices.*
pub use Returns.*
pub use Prim.Native.Nat.{ℕ, zero, suc, ◌+◌, ◌-◌, ◌*◌, ◌^◌, ◌≤◌, ◌<◌, min, max}
pub use Prim.Native.String.{String}
pub use mathlib.Core.Path.{◌≡◌, refl, sym, ap, subst, ◌∙◌}
pub use mathlib.Core.Logic.{◌≢◌, ◌↔◌, ◌⊎◌, inl, inr}
pub use mathlib.Core.Bool.{Bool, true, false, not, ◌&&◌, ◌||◌}
pub use mathlib.Core.Option.{Option, none, some}
pub use mathlib.Core.List.{List, [], ◌∷◌, ◌++◌, map}
pub use native.Mathlib.Omega.{arith}
