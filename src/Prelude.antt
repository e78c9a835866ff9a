-- ===== src/Prelude.antt =====
-- Names that every module shares: the libraries', passed on, and those of four children: tests on
-- numbers, integers, text with Python's string formatting, and what the code uses of floats.
mod Tests
mod Integers
mod Texts
mod Floats
pub use Tests.*
unfoldable pub use Integers.*
unfoldable pub use Texts.*
pub use Texts.Quoting.*
unfoldable pub use Texts.Decimal.*
unfoldable pub use Texts.Order.*
pub use Floats.*
pub use Prim.Native.Nat.{ℕ, zero, suc, ◌+◌, ◌-◌, ◌*◌, ◌/◌, ◌%◌, ◌≤◌, ◌<◌}
pub use mathlib.Core.Path.{◌≡◌, refl, sym, ap, subst, ◌∙◌}
pub use mathlib.Core.Logic.{◌≢◌, ◌⊎◌, inl, inr}
pub use mathlib.Core.Bool.{Bool, true, false, not, ◌&&◌, ◌||◌}
pub use mathlib.Core.Option.{Option, none, some}
pub use mathlib.Core.List.{List, [], ◌∷◌, ◌++◌, append_assoc, append-nil}
pub use native.Mathlib.Omega.{arith}
