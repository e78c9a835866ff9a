-- ===== src/Metrics/Window.antt =====
-- The two readings of spec.window: metrics/collector.py, `_parse_window`, which the collector uses, and
-- handlers.py, `_parse_window_seconds`, which the status shows.
pub mod Agreement
pub mod Runs
use samsung.Prelude.{
  ℕ, ℤ, pos, max_ℤ, Bool, true, false, not, Option, none, some, [], ◌∷◌, Text, codes, text_eq,
  number, nonempty, if◌then◌else◌, Float, ◌==◌, ◌>>=◌,
}
use samsung.Metrics.Prometheus.{Raw, FloatText}
use samsung.Actuator.Environment.{strip}

-- `s[:-len(suffix)]` where `s.endswith(suffix)`
unfoldable pub strip_suffix : Text → Text → Option Text
unfolding text_eq
strip_suffix suffix [] = if text_eq [] suffix then some [] else none
strip_suffix suffix (c ∷ s) =
    let shorter = strip_suffix suffix s in
    if text_eq (c ∷ s) suffix then some [] else (do r ← shorter; some (c ∷ r))

-- `int(num)` where `num.isdigit()`, of ASCII digits
pub digits_value : Text → Option ℕ
digits_value num = elim (number num) [ some (n, []) ↦ some n | _ ↦ none ]

abbrev pub default_window : Text × ℤ
default_window = (codes "1m", pos 60)

module _ (F : Type 0) ⦃fl : Float F⦄ where
  -- the window of a number before its unit; `none` where the float of the seconds is too large for
  -- `int` or `float`, which raises OverflowError
  pub window_of : Text → F → Text → Option (Text × ℤ)
  unfolding digits_value
  window_of s unit num = elim (digits_value num) [
    | none ↦ some default_window
    | some n ↦ if n == 0 then some default_window else do
      seconds ← fl.round (fl.mul (fl.of_int (pos n)) unit)
      some (s, max_ℤ (pos 1) seconds)
  ]

  -- the loop over the units, which ends at the first one that the text ends with
  pub window_by_unit : Text → Option (Text × ℤ)
  unfolding window_of
  window_by_unit s = elim (strip_suffix (codes "ms") s) [
    | some num ↦ window_of s (fl.decimal 1 3) num
    | none ↦ elim (strip_suffix (codes "s") s) [
      | some num ↦ window_of s (fl.decimal 1 0) num
      | none ↦ elim (strip_suffix (codes "m") s) [
        | some num ↦ window_of s (fl.decimal 60 0) num
        | none ↦ elim (strip_suffix (codes "h") s) [
          | some num ↦ window_of s (fl.decimal 3600 0) num
          | none ↦ some default_window
        ]
      ]
    ]
  ]

  pub parse_window : Option Text → Option (Text × ℤ)
  unfolding window_by_unit
  parse_window none = some default_window
  parse_window (some raw) = if nonempty raw then window_by_unit (strip raw) else some default_window

  -- `int(x)` under the handler of ValueError, which `float` of a text that is no number raises, and
  -- `int` of NaN; `none` where OverflowError gets out, for an infinity
  pub whole_seconds : Option F → Option ℤ
  whole_seconds none = some (pos 60)
  whole_seconds (some x) = if fl.eq x x then fl.trunc x else some (pos 60)

  module _ ⦃ft : FloatText F⦄ where
    -- `float(text)`, times the seconds of a unit
    pub times_unit : Text → ℤ → Option F
    times_unit s unit = do x ← ft.parse (Raw.text s); some (fl.mul x (fl.of_int unit))

    -- the tests of the unit, on the stripped text
    pub seconds_by_unit : Text → Option ℤ
    unfolding whole_seconds times_unit
    seconds_by_unit w = elim (strip_suffix (codes "ms") w) [
      | some num ↦ (do
        n ← whole_seconds (do x ← ft.parse (Raw.text num); some (fl.div x (fl.of_int (pos 1000))))
        some (max_ℤ (pos 1) n))
      | none ↦ elim (strip_suffix (codes "s") w) [
        | some num ↦ whole_seconds (ft.parse (Raw.text num))
        | none ↦ elim (strip_suffix (codes "m") w) [
          | some num ↦ whole_seconds (times_unit num (pos 60))
          | none ↦ elim (strip_suffix (codes "h") w) [
            | some num ↦ whole_seconds (times_unit num (pos 3600))
            | none ↦ whole_seconds (ft.parse (Raw.text w))
          ]
        ]
      ]
    ]

    pub parse_window_seconds : Text → Option ℤ
    unfolding seconds_by_unit
    parse_window_seconds window = seconds_by_unit (strip window)
