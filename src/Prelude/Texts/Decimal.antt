-- ===== src/Prelude/Texts/Decimal.antt =====
-- Decimal numbers read from a text, and the parts of a text between separators.
use Prim.Native.Nat.{ℕ, zero, suc, ◌+◌, ◌-◌, ◌*◌, ◌/◌, ◌%◌, ◌≤◌}
use mathlib.Core.Path.{◌≡◌, refl, sym, ap, subst, ◌∙◌}
use mathlib.Core.Logic.{inl, inr}
use mathlib.Core.Bool.{Bool, true, false, ◌&&◌}
use mathlib.Core.Option.{Option, none, some}
use mathlib.Core.List.{List, [], ◌∷◌, ◌++◌, append-nil}
use native.Mathlib.Omega.{arith}
use samsung.Prelude.Tests.{ltb, leb, ◌==◌, if◌then◌else◌, Bool-cases, some_inj}
use samsung.Prelude.Texts.{Text, lacks, str_nat, digits_from}

abbrev pub is_digit : ℕ → Bool
is_digit c = leb b'0' c && leb c b'9'

-- the value of ASCII digits, after the number before them, and the text behind
unfoldable pub digits : ℕ → Text → ℕ × Text
digits n [] = (n, [])
digits n (c ∷ s) =
    let rest = digits (n * 10 + (c - b'0')) s in if is_digit c then rest else (n, c ∷ s)

unfoldable pub number : Text → Option (ℕ × Text)
unfolding digits
number [] = none
number (c ∷ s) = if is_digit c then some (digits (c - b'0') s) else none

-- `s.split(sep)`
unfoldable pub split_from : ℕ → Text → Text → List Text
split_from sep cur [] = cur ∷ []
split_from sep cur (c ∷ s) = elim (c == sep) [
  | true ↦ cur ∷ split_from sep [] s
  | false ↦ split_from sep (cur ++ c ∷ []) s
]

-- `s.partition(sep)`, without the separator
unfoldable pub partition : ℕ → Text → Text × Text
partition sep [] = ([], [])
partition sep (c ∷ s) =
    let (main, tail) = partition sep s in if c == sep then ([], s) else (c ∷ main, tail)

pub partition-append :
    (sep : ℕ) (p s : Text) → lacks sep p ≡ true → partition sep (p ++ sep ∷ s) ≡ (p, s)
unfolding partition lacks
partition-append sep [] s h = ground arith
partition-append sep (c ∷ p) s h = ground (arith, partition-append sep p s)

-- `s.rpartition(sep)`, without the separator; `none` where it is not in the text
unfoldable pub rpartition : ℕ → Text → Option (Text × Text)
rpartition sep [] = none
rpartition sep (c ∷ s) = elim (rpartition sep s) [
  | some (a, b) ↦ some (c ∷ a, b)
  | none ↦ if c == sep then some ([], s) else none
]

rpartition-none : (sep : ℕ) (s : Text) → lacks sep s ≡ true → rpartition sep s ≡ none
unfolding rpartition lacks
rpartition-none sep [] h = refl
rpartition-none sep (c ∷ s) h = ground (arith, rpartition-none sep s)

pub rpartition-append :
    (sep : ℕ) (p s : Text) → lacks sep s ≡ true → rpartition sep (p ++ sep ∷ s) ≡ some (p, s)
unfolding rpartition
rpartition-append sep [] s h = rw (rpartition-none sep s h) (ground arith)
rpartition-append sep (c ∷ p) s h = rw (rpartition-append sep p s h) refl

-- What comes apart was put together.
pub rpartition-joined : (sep : ℕ) (s p t : Text) → rpartition sep s ≡ some (p, t) → s ≡ p ++ sep ∷ t
unfolding rpartition
rpartition-joined sep [] p t e = ground arith
rpartition-joined sep (c ∷ s) p t e =
    by_rest (rpartition sep s) refl (λ a b. rpartition-joined sep s a b) e
  where
    by_rest :
        (o : Option (Text × Text))
        → rpartition sep s ≡ o
        → ((a b : Text) → rpartition sep s ≡ some (a, b) → s ≡ a ++ sep ∷ b)
        → (elim o as (λ o. Option (Text × Text)) [
          | some (a, b) ↦ some (c ∷ a, b)
          | none ↦ if c == sep then some ([], s) else none
        ])
          ≡ some (p, t)
        → c ∷ s ≡ p ++ sep ∷ t
    by_rest (some (a, b)) h shorter k =
        subst {A = Text × Text} (λ r. c ∷ s ≡ r.0 ++ sep ∷ r.1) (some_inj k)
          (ap (λ r. c ∷ r) (shorter a b h))
    by_rest none h shorter k = elim (Bool-cases (c == sep)) [
      | inl same ↦
          subst {A = Text × Text} (λ r. c ∷ s ≡ r.0 ++ sep ∷ r.1)
            (some_inj (
              subst
                (λ b.
                  ◌≡◌ {A = Option (Text × Text)}
                    (if◌then◌else◌ {A = Option (Text × Text)} b (some ([], s)) none) (some (p, t)))
                same k))
            (ap (λ d. d ∷ s) (ground arith))
      | inr other ↦ ground arith
    ]

-- a printed digit, read with the number before it
digit_step : (n m : ℕ) (s : Text) → digits m ((b'0' + n % 10) ∷ s) ≡ digits (m * 10 + n % 10) s
unfolding digits
digit_step n m s = ground (arith, ap (λ k. digits k s) (digit_value n m))
  where
    digit_value : (n m : ℕ) → m * 10 + (b'0' + n % 10 - b'0') ≡ m * 10 + n % 10
    digit_value n m = omega arith

digits-digits_from :
    (f n : ℕ) (out s : Text) → n ≤ f → digits 0 (digits_from f n out ++ s) ≡ digits n (out ++ s)
unfolding digits_from
digits-digits_from zero n out s h =
    digit_step n 0 (out ++ s) ∙ ap (λ k. digits k (out ++ s)) (omega arith)
digits-digits_from (suc f) n out s h = elim (Bool-cases (ltb n 10)) [
  | inl small ↦ rw small (digit_step n 0 (out ++ s) ∙ ap (λ k. digits k (out ++ s)) (ground arith))
  | inr large ↦ rw large (
      digits-digits_from f (n / 10) ((b'0' + n % 10) ∷ out) s (ground arith)
      ∙ digit_step n (n / 10) (out ++ s)
      ∙ ap (λ k. digits k (out ++ s)) (omega arith))
]

number_digit :
    (n : ℕ) (t : Text) → number ((b'0' + n % 10) ∷ t) ≡ some (digits 0 ((b'0' + n % 10) ∷ t))
unfolding number digits
number_digit n t = ground (arith, ap (λ k. digits k t) (same n))
  where
    same : (n : ℕ) → b'0' + n % 10 - b'0' ≡ 0 * 10 + (b'0' + n % 10 - b'0')
    same n = omega arith

number-digits_from :
    (f n : ℕ) (out s : Text)
    → number (digits_from f n out ++ s) ≡ some (digits 0 (digits_from f n out ++ s))
unfolding digits_from
number-digits_from zero n out s = number_digit n (out ++ s)
number-digits_from (suc f) n out s = elim (Bool-cases (ltb n 10)) [
  | inl small ↦ rw small (number_digit n (out ++ s))
  | inr large ↦ rw large (number-digits_from f (n / 10) ((b'0' + n % 10) ∷ out) s)
]

-- a number, printed in front of a character that is no digit
pub number-str_nat :
    (n c : ℕ) (s : Text) → is_digit c ≡ false → number (str_nat n ++ c ∷ s) ≡ some (n, c ∷ s)
unfolding str_nat
number-str_nat n c s h =
    number-digits_from n n [] (c ∷ s)
    ∙ ap some (digits-digits_from n n [] (c ∷ s) (omega arith) ∙ stops)
  where
    stops : digits n (c ∷ s) ≡ (n, c ∷ s)
    stops = unfold digits in rw h

-- a number, printed at the end of a text
pub number-str_nat-end : (n : ℕ) → number (str_nat n) ≡ some (n, [])
unfolding str_nat
number-str_nat-end n =
    ap number (sym (append-nil (digits_from n n [])))
    ∙ number-digits_from n n [] []
    ∙ ap some (digits-digits_from n n [] [] (omega arith) ∙ (unfold digits in refl))

-- a test that every character of the text passes
unfoldable pub every : (ℕ → Bool) → Text → Bool
every p [] = true
every p (c ∷ s) = p c && every p s

every-digits_from :
    (p : ℕ → Bool) (f n : ℕ) (out : Text)
    → ((d : ℕ) → p (b'0' + d % 10) ≡ true)
    → every p out ≡ true
    → every p (digits_from f n out) ≡ true
unfolding every digits_from
every-digits_from p zero n out hp h = rw (hp n) h
every-digits_from p (suc f) n out hp h = elim (Bool-cases (ltb n 10)) [
  | inl small ↦ rw (small, hp n) h
  | inr large ↦ rw large (every-digits_from p f (n / 10) ((b'0' + n % 10) ∷ out) hp (rw (hp n) h))
]

-- what every digit passes, every character of a printed number passes
pub every-str_nat :
    (p : ℕ → Bool) (n : ℕ) → ((d : ℕ) → p (b'0' + d % 10) ≡ true) → every p (str_nat n) ≡ true
unfolding str_nat every
every-str_nat p n hp = every-digits_from p n n [] hp refl
