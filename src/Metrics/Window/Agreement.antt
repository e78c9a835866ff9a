-- ===== src/Metrics/Window/Agreement.antt =====
-- Both readings of spec.window agree on whole numbers of seconds, minutes and hours, as the pattern
-- of the CRD writes them (metrics/collector.py, `_parse_window`; handlers.py, `_parse_window_seconds`).
use samsung.Prelude.{
  ℕ, ◌*◌, ◌≤◌, ◌<◌, pos, Bool, true, false, not, none, some, [], ◌∷◌, ◌++◌, Text, codes, text_eq,
  str_nat, number-str_nat-end, every, every-str_nat, nonempty, Float, ◌==◌, ◌≡◌, refl, ap, ◌∙◌,
  arith,
}
use samsung.Metrics.Prometheus.{text, FloatText}
use samsung.Actuator.Environment.{strip, strip_none, is_space}
use samsung.Metrics.Window.{
  strip_suffix, digits_value, window_of, window_by_unit, parse_window, whole_seconds, times_unit,
  seconds_by_unit, parse_window_seconds,
}

strip_suffix-last : (x : ℕ) (p : Text) → strip_suffix (x ∷ []) (p ++ x ∷ []) ≡ some p
unfolding strip_suffix text_eq
strip_suffix-last x [] = ground arith
strip_suffix-last x (c ∷ p) = ground (arith, strip_suffix-last x p, never c p)
  where
    never : (c : ℕ) (p : Text) → text_eq (c ∷ (p ++ x ∷ [])) (x ∷ []) ≡ false
    never c [] = unfold text_eq in ground arith
    never c (d ∷ p) = unfold text_eq in ground arith

strip_suffix-other :
    (x y : ℕ) (p : Text) → (y == x) ≡ false → strip_suffix (x ∷ []) (p ++ y ∷ []) ≡ none
unfolding strip_suffix text_eq
strip_suffix-other x y [] h = ground arith
strip_suffix-other x y (c ∷ p) h = ground (arith, strip_suffix-other x y p, never c p)
  where
    never : (c : ℕ) (p : Text) → text_eq (c ∷ (p ++ y ∷ [])) (x ∷ []) ≡ false
    never c [] = unfold text_eq in ground arith
    never c (d ∷ p) = unfold text_eq in ground arith

abbrev not_m : ℕ → Bool
not_m c = not (c == b'm')

strip_suffix-ms :
    (y : ℕ) (p : Text) → every not_m p ≡ true → strip_suffix (codes "ms") (p ++ y ∷ []) ≡ none
unfolding strip_suffix text_eq every
strip_suffix-ms y [] h = ground arith
strip_suffix-ms y (c ∷ p) h = ground (arith, strip_suffix-ms y p)

every-append :
    (p : ℕ → Bool) (s t : Text) → every p s ≡ true → every p t ≡ true → every p (s ++ t) ≡ true
unfolding every
every-append p [] t hs ht = ht
every-append p (c ∷ s) t hs ht = ground (arith, every-append p s t)

nonempty-append : (s : Text) (c : ℕ) → nonempty (s ++ c ∷ []) ≡ true
nonempty-append [] c = refl
nonempty-append (d ∷ s) c = refl

-- the units of whole seconds
pub data WindowUnit : Type 0 where
  second minute hour : WindowUnit

abbrev pub letter : WindowUnit → ℕ
letter second = b's'
letter minute = b'm'
letter hour = b'h'

abbrev pub seconds_of : WindowUnit → ℕ
seconds_of second = 1
seconds_of minute = 60
seconds_of hour = 3600

-- a window as the CRD writes it
abbrev pub window_text : ℕ → WindowUnit → Text
window_text n u = str_nat n ++ letter u ∷ []

-- the whole numbers below this one are floats
abbrev pub exact_limit : ℕ
exact_limit = 9007199254740992

strip-window_text : (n : ℕ) (u : WindowUnit) → strip (window_text n u) ≡ window_text n u
strip-window_text n u = strip_none (window_text n u) (
    every-append (λ c. not (is_space c)) (str_nat n) (letter u ∷ [])
      (every-str_nat (λ c. not (is_space c)) n (λ d. ground arith)) (no_space u))
  where
    no_space : (u : WindowUnit) → every (λ c. not (is_space c)) (letter u ∷ []) ≡ true
    no_space second = unfold every in refl
    no_space minute = unfold every in refl
    no_space hour = unfold every in refl

no_ms : (n : ℕ) (y : ℕ) → strip_suffix (codes "ms") (str_nat n ++ y ∷ []) ≡ none
no_ms n y = strip_suffix-ms y (str_nat n) (every-str_nat not_m n (λ d. ground arith))

module _ (F : Type 0) ⦃fl : Float F⦄ ⦃ft : FloatText F⦄ where
  -- The arithmetic and the conversions of whole numbers below 2 ^ 53 are exact.
  pub record ExactInts : Type 0 where
    pub decimal_exact : (n : ℕ) → n < exact_limit → fl.decimal n 0 ≡ fl.of_int (pos n)
    pub mul_exact :
        (a b : ℕ)
        → a * b < exact_limit
        → fl.mul (fl.of_int (pos a)) (fl.of_int (pos b)) ≡ fl.of_int (pos (a * b))
    pub round_exact : (n : ℕ) → n < exact_limit → fl.round (fl.of_int (pos n)) ≡ some (pos n)
    pub trunc_exact : (n : ℕ) → n < exact_limit → fl.trunc (fl.of_int (pos n)) ≡ some (pos n)
    pub eq_exact : (n : ℕ) → n < exact_limit → fl.eq (fl.of_int (pos n)) (fl.of_int (pos n)) ≡ true
    pub parse_exact :
        (n : ℕ) → n < exact_limit → ft.parse (text (str_nat n)) ≡ some (fl.of_int (pos n))

  module _ (laws : ExactInts) (n k : ℕ) (positive : 1 ≤ n) (counted : 1 ≤ n * k)
      (small : n * k < exact_limit) (k_small : k < exact_limit) where
    window_of_exact :
        (w : Text) → window_of F w (fl.decimal k 0) (str_nat n) ≡ some (w, pos (n * k))
    unfolding window_of digits_value
    window_of_exact w =
        rw
          (
            window_of,
            digits_value,
            number-str_nat-end n,
            laws.decimal_exact k k_small,
            laws.mul_exact n k small,
            laws.round_exact (n * k) small,
          )
          (ground arith)

    whole_exact : whole_seconds F (some (fl.of_int (pos (n * k)))) ≡ some (pos (n * k))
    unfolding whole_seconds
    whole_exact = rw (laws.eq_exact (n * k) small, laws.trunc_exact (n * k) small) refl

    times_unit_exact :
        n < exact_limit → times_unit F (str_nat n) (pos k) ≡ some (fl.of_int (pos (n * k)))
    unfolding times_unit
    times_unit_exact n_small = rw (laws.parse_exact n n_small, laws.mul_exact n k small) refl

  -- the collector's reading of the text that is stripped
  by_unit_exact :
      ExactInts
      → (n : ℕ) (u : WindowUnit) → 1 ≤ n
      → n * seconds_of u < exact_limit
      → window_by_unit F (window_text n u) ≡ some (window_text n u, pos (n * seconds_of u))
  unfolding window_by_unit str_nat
  by_unit_exact laws n second h small =
      rw (window_by_unit, no_ms n b's', strip_suffix-last b's' (str_nat n))
        (window_of_exact laws n 1 h (omega arith) small (ground arith) (window_text n second))
  by_unit_exact laws n minute h small =
      rw
        (
          window_by_unit,
          no_ms n b'm',
          strip_suffix-other b's' b'm' (str_nat n) refl,
          strip_suffix-last b'm' (str_nat n),
        )
        (window_of_exact laws n 60 h (omega arith) small (ground arith) (window_text n minute))
  by_unit_exact laws n hour h small =
      rw
        (
          window_by_unit,
          no_ms n b'h',
          strip_suffix-other b's' b'h' (str_nat n) refl,
          strip_suffix-other b'm' b'h' (str_nat n) refl,
          strip_suffix-last b'h' (str_nat n),
        )
        (window_of_exact laws n 3600 h (omega arith) small (ground arith) (window_text n hour))

  handler_exact :
      ExactInts
      → (n : ℕ) (u : WindowUnit) → 1 ≤ n
      → n * seconds_of u < exact_limit
      → seconds_by_unit F (window_text n u) ≡ some (pos (n * seconds_of u))
  unfolding seconds_by_unit str_nat
  handler_exact laws n second h small =
      rw
        (
          seconds_by_unit,
          no_ms n b's',
          strip_suffix-last b's' (str_nat n),
          laws.parse_exact n (omega arith),
        )
        (ap (λ m. whole_seconds F (some (fl.of_int (pos m)))) (omega arith)
          ∙ whole_exact laws n 1 h (omega arith) small (ground arith))
  handler_exact laws n minute h small =
      rw
        (
          seconds_by_unit,
          no_ms n b'm',
          strip_suffix-other b's' b'm' (str_nat n) refl,
          strip_suffix-last b'm' (str_nat n),
          times_unit_exact laws n 60 h (omega arith) small (ground arith) (omega arith),
        )
        (whole_exact laws n 60 h (omega arith) small (ground arith))
  handler_exact laws n hour h small =
      rw
        (
          seconds_by_unit,
          no_ms n b'h',
          strip_suffix-other b's' b'h' (str_nat n) refl,
          strip_suffix-other b'm' b'h' (str_nat n) refl,
          strip_suffix-last b'h' (str_nat n),
          times_unit_exact laws n 3600 h (omega arith) small (ground arith) (omega arith),
        )
        (whole_exact laws n 3600 h (omega arith) small (ground arith))

  -- A window of n seconds, minutes or hours, n being at least 1, is read by the collector and by the
  -- handlers as the same number of seconds, where its arithmetic is exact: below 2 ^ 53.
  pub windows_agree :
      ExactInts
      → (n : ℕ) (u : WindowUnit) → 1 ≤ n
      → n * seconds_of u < exact_limit
      → (parse_window F (some (window_text n u)) ≡ some (window_text n u, pos (n * seconds_of u)))
        × (parse_window_seconds F (window_text n u) ≡ some (pos (n * seconds_of u)))
  unfolding parse_window parse_window_seconds str_nat
  windows_agree laws n u h small = (
    rw (parse_window, nonempty-append (str_nat n) (letter u), strip-window_text n u)
        (by_unit_exact laws n u h small),
    ap (seconds_by_unit F) (strip-window_text n u) ∙ handler_exact laws n u h small,
  )
