-- ===== src/Prelude/Texts.antt =====
-- Python's `str` as its list of code points, with the formatting and searching that the code does.
pub mod Quoting
pub mod Decimal
pub mod Order
use Prim.Native.Nat.{ℕ, zero, suc, ◌+◌, ◌/◌, ◌%◌}
use Prim.Native.Char.{code}
use Prim.Native.String.{String}
use mathlib.Core.Path.{◌≡◌, refl}
use mathlib.Core.Bool.{Bool, true, false, ◌&&◌, ◌||◌, not}
use mathlib.Core.Option.{Option, none, some}
use mathlib.Core.List.{List, [], ◌∷◌, ◌++◌}
use native.Mathlib.Omega.{arith}
use samsung.Prelude.Tests.{ltb, ◌==◌, if◌then◌else◌}
use samsung.Prelude.Integers.{ℤ, pos, negsuc}

abbrev pub Text : Type 0
Text = List ℕ

abbrev pub codes : String → Text
codes String.[] = []
codes (String.◌∷◌ c s) = code c ∷ codes s

-- `a == b` of two texts
unfoldable pub text_eq : Text → Text → Bool
text_eq [] [] = true
text_eq [] (d ∷ t) = false
text_eq (c ∷ s) [] = false
text_eq (c ∷ s) (d ∷ t) = (c == d) && text_eq s t

pub text_eq→eq : (s t : Text) → text_eq s t ≡ true → s ≡ t
unfolding text_eq
text_eq→eq [] [] h = refl
text_eq→eq [] (d ∷ t) h = ground arith
text_eq→eq (c ∷ s) [] h = ground arith
text_eq→eq (c ∷ s) (d ∷ t) h = ground (arith, text_eq→eq s t)

pub text_eq_refl : (s : Text) → text_eq s s ≡ true
unfolding text_eq
text_eq_refl [] = refl
text_eq_refl (c ∷ s) = ground (arith, text_eq_refl s)

-- `name in names`
unfoldable pub contains : Text → List Text → Bool
contains x [] = false
contains x (y ∷ ys) = text_eq x y || contains x ys

-- `s[len(p):]` where `s.startswith(p)`
unfoldable pub strip_prefix : Text → Text → Option Text
strip_prefix [] s = some s
strip_prefix (c ∷ p) [] = none
strip_prefix (c ∷ p) (d ∷ s) = let rest = strip_prefix p s in if c == d then rest else none

-- no character of the text is `c`
unfoldable pub lacks : ℕ → Text → Bool
lacks c [] = true
lacks c (d ∷ s) = not (d == c) && lacks c s

pub lacks-append :
    (c : ℕ) (s t : Text) → lacks c s ≡ true → lacks c t ≡ true → lacks c (s ++ t) ≡ true
unfolding lacks
lacks-append c [] t hs ht = ht
lacks-append c (d ∷ s) t hs ht = ground (arith, lacks-append c s t)

-- `sep.join(parts)`
unfoldable pub join : Text → List Text → Text
join sep [] = []
join sep (p ∷ []) = p
join sep (p ∷ q ∷ ps) = p ++ (sep ++ join sep (q ∷ ps))

-- the decimal digits of a number, least first; a number has fewer digits than its successor
unfoldable pub digits_from : ℕ → ℕ → Text → Text
digits_from zero n out = (b'0' + n % 10) ∷ out
digits_from (suc f) n out =
    let rest = digits_from f (n / 10) ((b'0' + n % 10) ∷ out) in
    if ltb n 10 then (b'0' + n % 10) ∷ out else rest

-- `str(n)` of an int
unfoldable pub str_nat : ℕ → Text
unfolding digits_from
str_nat n = digits_from n n []

unfoldable pub str_int : ℤ → Text
unfolding str_nat
str_int (pos n) = str_nat n
str_int (negsuc n) = b'-' ∷ str_nat (suc n)

unfoldable pub str_optional : Option ℤ → Text
unfolding str_int
str_optional none = codes "None"
str_optional (some n) = str_int n

-- `repr` of a str: double quotes only around a text with ' and without ". Of the characters that
-- are not printable, only the newline, the return and the tab are escaped here.
escape_char : ℕ → ℕ → Text
escape_char q c =
    if (c == b'\\') || (c == q)
    then b'\\' ∷ c ∷ []
    else if c == 10
    then codes "\\n"
    else if c == 13
    then codes "\\r"
    else if c == 9
    then codes "\\t"
    else c ∷ []

escape_all : ℕ → Text → Text
unfolding escape_char
escape_all q [] = []
escape_all q (c ∷ s) = escape_char q c ++ escape_all q s

quote_of : Text → ℕ
unfolding lacks
quote_of s = if not (lacks b'\'' s) && lacks b'"' s then b'"' else b'\''

unfoldable pub repr : Text → Text
unfolding escape_all quote_of
repr s = quote_of s ∷ (escape_all (quote_of s) s ++ quote_of s ∷ [])

repr_items : List Text → List Text
unfolding repr
repr_items [] = []
repr_items (s ∷ ss) = repr s ∷ repr_items ss

-- `str` of a list of texts
unfoldable pub repr_list : List Text → Text
unfolding repr_items join
repr_list ss = b'[' ∷ (join (codes ", ") (repr_items ss) ++ b']' ∷ [])
