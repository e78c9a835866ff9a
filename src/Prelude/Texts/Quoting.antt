-- ===== src/Prelude/Texts/Quoting.antt =====
-- The printed form of a list of texts, and of numbers, without a given character.
use Prim.Native.Nat.{ℕ, zero, suc, ◌+◌, ◌/◌, ◌%◌}
use mathlib.Core.Path.{◌≡◌, refl}
use mathlib.Core.Logic.{inl, inr}
use mathlib.Core.Bool.{true, false}
use mathlib.Core.List.{List, [], ◌∷◌, ◌++◌}
use native.Mathlib.Omega.{arith}
use samsung.Prelude.Tests.{ltb, ◌==◌, All, Bool-cases}
use samsung.Prelude.Texts.{
  Text, codes, lacks, lacks-append, join, digits_from, str_nat, escape_char, escape_all, quote_of,
  repr, repr_items, repr_list,
}

pub join-lacks :
    (c : ℕ) (sep : Text) (ns : List Text)
    → lacks c sep ≡ true
    → All (λ n. lacks c n ≡ true) ns
    → lacks c (join sep ns) ≡ true
unfolding join
join-lacks c sep [] h hs = unfold lacks in refl
join-lacks c sep (n ∷ []) h hs = hs.0
join-lacks c sep (n ∷ m ∷ ms) h hs =
    lacks-append c n (sep ++ join sep (m ∷ ms)) hs.0
      (lacks-append c sep (join sep (m ∷ ms)) h (join-lacks c sep (m ∷ ms) h hs.1))

digit_lacks : (n : ℕ) (s : Text) → lacks b'[' s ≡ true → lacks b'[' ((b'0' + n % 10) ∷ s) ≡ true
unfolding lacks
digit_lacks n s h = ground arith

digits_from-lacks :
    (f n : ℕ) (out : Text) → lacks b'[' out ≡ true → lacks b'[' (digits_from f n out) ≡ true
unfolding digits_from
digits_from-lacks zero n out h = digit_lacks n out h
digits_from-lacks (suc f) n out h = elim (Bool-cases (ltb n 10)) [
  | inl small ↦ rw small (digit_lacks n out h)
  | inr large ↦
      rw large (digits_from-lacks f (n / 10) ((b'0' + n % 10) ∷ out) (digit_lacks n out h))
]

-- A printed number has no bracket.
pub str_nat-lacks : (n : ℕ) → lacks b'[' (str_nat n) ≡ true
unfolding str_nat
str_nat-lacks n = digits_from-lacks n n [] (unfold lacks in refl)

quote_of-cases : (s : Text) → (quote_of s == b'[' ≡ false) × (quote_of s == b'r' ≡ false)
unfolding quote_of
quote_of-cases s = (ground arith, ground arith)

escape_all-lacks :
    (q : ℕ) (s : Text)
    → q == b'[' ≡ false
    → lacks b'[' s ≡ true
    → lacks b'[' (escape_all q s) ≡ true
unfolding escape_all
escape_all-lacks q [] hq h = h
escape_all-lacks q (c ∷ s) hq h =
    lacks-append b'[' (escape_char q c) (escape_all q s) (unfold lacks escape_char in ground arith)
      (escape_all-lacks q s hq (unfold lacks in ground arith))

single_lacks : (q : ℕ) → q == b'[' ≡ false → lacks b'[' (q ∷ []) ≡ true
unfolding lacks
single_lacks q h = ground arith

-- a text behind a character, without the bracket
cons_lacks :
    (q : ℕ) (s : Text) → q == b'[' ≡ false → lacks b'[' s ≡ true → lacks b'[' (q ∷ s) ≡ true
unfolding lacks
cons_lacks q s h k = ground arith

repr-lacks : (s : Text) → lacks b'[' s ≡ true → lacks b'[' (repr s) ≡ true
unfolding repr
repr-lacks s h =
    let (hq, _) = quote_of-cases s in
    cons_lacks (quote_of s) (escape_all (quote_of s) s ++ quote_of s ∷ []) hq (
      lacks-append b'[' (escape_all (quote_of s) s) (quote_of s ∷ [])
        (escape_all-lacks (quote_of s) s hq h) (single_lacks (quote_of s) hq))

repr_items-lacks :
    (ss : List Text)
    → All (λ n. lacks b'[' n ≡ true) ss
    → All (λ n. lacks b'[' n ≡ true) (repr_items ss)
unfolding repr_items
repr_items-lacks [] hs = tt
repr_items-lacks (s ∷ ss) hs = (repr-lacks s hs.0, repr_items-lacks ss hs.1)

-- The printed list behind its bracket: it does not begin with an r, and has no other bracket.
pub record Quoted (ss : List Text) : Type 0 where
  pub head : ℕ
  pub rest : Text
  pub shape : repr_list ss ≡ b'[' ∷ head ∷ rest
  pub head_ne : head == b'r' ≡ false
  pub no_bracket : lacks b'[' (head ∷ rest) ≡ true

inner_lacks :
    (ss : List Text)
    → All (λ n. lacks b'[' n ≡ true) ss
    → lacks b'[' (join (codes ", ") (repr_items ss) ++ b']' ∷ []) ≡ true
inner_lacks ss hs =
    lacks-append b'[' (join (codes ", ") (repr_items ss)) (b']' ∷ [])
      (join-lacks b'[' (codes ", ") (repr_items ss) (unfold lacks in refl) (repr_items-lacks ss hs))
      (unfold lacks in refl)

pub repr_list-Quoted : (ss : List Text) → All (λ n. lacks b'[' n ≡ true) ss → Quoted ss
unfolding repr_list repr join repr_items
repr_list-Quoted [] hs = record {
  head = b']';
  rest = [];
  shape = refl;
  head_ne = refl;
  no_bracket = inner_lacks [] hs;
}
repr_list-Quoted (s ∷ []) hs = record {
  head = quote_of s;
  rest = escape_all (quote_of s) s ++ quote_of s ∷ [] ++ b']' ∷ [];
  shape = refl;
  head_ne = (quote_of-cases s).1;
  no_bracket = inner_lacks (s ∷ []) hs;
}
repr_list-Quoted (s ∷ t ∷ ts) hs = record {
  head = quote_of s;
  rest =
      (escape_all (quote_of s) s ++ quote_of s ∷ [])
      ++ (codes ", " ++ join (codes ", ") (repr_items (t ∷ ts)))
      ++ b']' ∷ [];
  shape = refl;
  head_ne = (quote_of-cases s).1;
  no_bracket = inner_lacks (s ∷ t ∷ ts) hs;
}
