-- ===== src/Tests/Codec.antt =====
-- Concrete functions for the examples of the dashboard: texts for bytes, and a codec of marks.
use samsung.Prelude.{
  ℕ, zero, suc, ◌+◌, ◌-◌, ◌%◌, length, Bool, true, not, ◌&&◌, Option, some, [], ◌∷◌, ◌++◌, Text,
  text_eq, every, lacks, ◌==◌, ◌≡◌, refl, sym, ap, ◌∙◌, arith, if◌then◌else◌, ◌>>=◌, ltb,
}
use samsung.Dashboard.Credentials.{Crypto, is_ascii}
use samsung.Dashboard.Sessions.{strip_padding, strip_padding_none, repeated, padded}
use samsung.Dashboard.Sessions.Tokens.{IsCodec}
use samsung.Tests.Fixtures.{thousandths}

-- a character as that many marks, with a comma behind them
unfoldable pub marks : ℕ → Text → Text
marks zero t = b',' ∷ t
marks (suc n) t = b'a' ∷ marks n t

unfoldable pub encode_marks : Text → Text
unfolding marks
encode_marks [] = []
encode_marks (c ∷ s) = marks c (encode_marks s)

-- the characters, up to the padding; n marks have been read
pub decode_marks : ℕ → Text → Option Text
decode_marks n [] = some []
decode_marks n (c ∷ s) =
    let more = decode_marks (suc n) s in
    let next = decode_marks 0 s in
    if c == b'a' then more else if c == b',' then (do t ← next; some (n ∷ t)) else some []

abbrev pub marking : Crypto Text
marking = record {
  hash_password = λ p salt. p ++ salt;
  hex = λ b. b;
  from_hex = λ t. some t;
  same_bytes = text_eq;
  sign = λ k b. encode_marks k ++ encode_marks b;
  encode = encode_marks;
  decode = decode_marks 0;
}

-- what the marks and digits are not
abbrev fine : ℕ → Bool
fine c = not (c == b'=') && (not (c == b'.') && ltb c 128)

marks-fine : (n : ℕ) (t : Text) → every fine t ≡ true → every fine (marks n t) ≡ true
unfolding every marks
marks-fine zero t h = h
marks-fine (suc n) t h = marks-fine n t h

encode_fine : (t : Text) → every fine (encode_marks t) ≡ true
unfolding every encode_marks
encode_fine [] = refl
encode_fine (c ∷ s) = marks-fine c (encode_marks s) (encode_fine s)

fine_append : (s t : Text) → every fine s ≡ true → every fine t ≡ true → every fine (s ++ t) ≡ true
unfolding every
fine_append [] t hs ht = ht
fine_append (c ∷ s) t hs ht = ground (arith, fine_append s t)

fine_no_padding : (s : Text) → every fine s ≡ true → every (λ c. not (c == b'=')) s ≡ true
unfolding every
fine_no_padding [] h = refl
fine_no_padding (c ∷ s) h = ground (arith, fine_no_padding s)

fine_no_dot : (s : Text) → every fine s ≡ true → lacks b'.' s ≡ true
unfolding every lacks
fine_no_dot [] h = refl
fine_no_dot (c ∷ s) h = ground (arith, fine_no_dot s)

fine_ascii : (s : Text) → every fine s ≡ true → is_ascii s ≡ true
unfolding every
fine_ascii [] h = refl
fine_ascii (c ∷ s) h = ground (arith, fine_ascii s)

decode-marks :
    (k n : ℕ) (t : Text)
    → decode_marks n (marks k t) ≡ (decode_marks 0 t >>= λ r. some ((n + k) ∷ r))
unfolding decode_marks marks
decode-marks zero n t = ap (λ m. decode_marks 0 t >>= λ r. some (m ∷ r)) (omega arith)
decode-marks (suc k) n t =
    decode-marks k (suc n) t ∙ ap (λ m. decode_marks 0 t >>= λ r. some (m ∷ r)) (omega arith)

marks-append : (n : ℕ) (t u : Text) → marks n t ++ u ≡ marks n (t ++ u)
unfolding marks
marks-append zero t u = refl
marks-append (suc n) t u = ap (λ r. b'a' ∷ r) (marks-append n t u)

decode_padding : (k : ℕ) → decode_marks 0 (repeated k) ≡ some []
unfolding decode_marks repeated
decode_padding zero = refl
decode_padding (suc k) = refl

decode-encode_marks : (t : Text) (k : ℕ) → decode_marks 0 (encode_marks t ++ repeated k) ≡ some t
unfolding encode_marks
decode-encode_marks [] k = decode_padding k
decode-encode_marks (c ∷ s) k =
    ap (decode_marks 0) (marks-append c (encode_marks s) (repeated k))
    ∙ decode-marks c 0 (encode_marks s ++ repeated k)
    ∙ ap (λ o. o >>= λ r. some ((0 + c) ∷ r)) (decode-encode_marks s k)
    ∙ ap (λ m. some (m ∷ s)) (omega arith)

unstripped : (t : Text) → strip_padding (encode_marks t) ≡ encode_marks t
unstripped t =
    strip_padding_none (encode_marks t) (fine_no_padding (encode_marks t) (encode_fine t))

pub marking-IsCodec : IsCodec marking
unfolding padded
marking-IsCodec = record {
  decode_encode = λ t.
      ap (λ b. decode_marks 0 (padded b)) (unstripped t)
      ∙ decode-encode_marks t ((4 - length (encode_marks t) % 4) % 4);
  encode_no_dot =
      λ t. ap (lacks b'.') (unstripped t) ∙ fine_no_dot (encode_marks t) (encode_fine t);
  encode_ascii = λ t. ap is_ascii (unstripped t) ∙ fine_ascii (encode_marks t) (encode_fine t);
  sign_ascii = λ k b.
      fine_ascii (encode_marks k ++ encode_marks b)
        (fine_append (encode_marks k) (encode_marks b) (encode_fine k) (encode_fine b));
}

pub cons-same : {a b : ℕ} {s t : Text} → a ∷ s ≡ b ∷ t → (a ≡ b) × (s ≡ t)
cons-same e = (cc, cc)

marks-same : (m n : ℕ) (t u : Text) → marks m t ≡ marks n u → (m ≡ n) × (t ≡ u)
unfolding marks
marks-same zero zero t u e = (refl, (cons-same e).1)
marks-same zero (suc n) t u e = absurd (omega (arith, (cons-same e).0))
marks-same (suc m) zero t u e = absurd (omega (arith, (cons-same e).0))
marks-same (suc m) (suc n) t u e = let (a, b) = marks-same m n t u (cons-same e).1 in (ap suc a, b)

-- two keys of one length with one signature are the same
pub sign-same :
    (k k' u : Text) → length k ≡ length k' → encode_marks k ++ u ≡ encode_marks k' ++ u → k ≡ k'
unfolding encode_marks
sign-same [] [] u h e = refl
sign-same [] (c ∷ k') u h e = ground arith
sign-same (c ∷ k) [] u h e = ground arith
sign-same (c ∷ k) (c' ∷ k') u h e =
    let (a, b) =
      marks-same c c' (encode_marks k ++ u) (encode_marks k' ++ u)
        (sym (marks-append c (encode_marks k) u) ∙ e ∙ marks-append c' (encode_marks k') u) in
    rw a (ap (λ r. c' ∷ r) (sign-same k k' u (ground arith) b))
