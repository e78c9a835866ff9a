-- ===== src/Prelude/Floats.antt =====
-- What the code uses of Python's `float`, as a parameter of the model: there are no floats here.
use Prim.Native.Nat.{ℕ}
use mathlib.Core.Bool.{Bool}
use mathlib.Core.Option.{Option}
use samsung.Prelude.Integers.{ℤ}
use samsung.Prelude.Texts.{Text}

pub record Float (F : Type 0) : Type 0 where
  -- the value of an int in mixed arithmetic, and of the decimal literal m / 10 ^ k
  pub of_int : ℤ → F
  pub decimal : ℕ → ℕ → F
  pub add : F → F → F
  pub sub : F → F → F
  pub mul : F → F → F
  -- called with a divisor other than 0 only
  pub div : F → F → F
  -- x < y, x <= y, x == y
  pub lt : F → F → Bool
  pub le : F → F → Bool
  pub eq : F → F → Bool
  -- math.sqrt, called on positive values only
  pub sqrt : F → F
  -- math.ceil: `none` where it raises, on an infinity or NaN
  pub ceil : F → Option ℤ
  -- int(x) and round(x): `none` where they raise, on an infinity or NaN
  pub trunc : F → Option ℤ
  pub round : F → Option ℤ
  -- neither an infinity nor NaN
  pub finite : F → Bool
  -- f"{x:.Nf}"
  pub fixed : ℕ → F → Text
