-- ===== src/Dashboard/Sessions/Tokens.antt =====
-- What a token of dashboard/auth.py is worth: one that was issued is accepted, and one that is
-- accepted carries a signature under the current secret.
use samsung.Prelude.{
  ℕ, ◌+◌, pos, ◌+ℤ◌, Bool, true, false, not, ◌&&◌, Option, none, some, some_inj, [], ◌∷◌, ◌++◌,
  Text, text_eq, text_eq_refl, text_eq→eq, str_nat, str_int, lacks, every, every-str_nat, number,
  number-str_nat-end, partition-append, rpartition-append, Float, ◌==◌, ◌≡◌, refl, ap, ◌∙◌, arith,
  if◌then◌else◌,
}
use samsung.Actuator.Environment.{strip_none, is_space}
use samsung.Dashboard.Credentials.{Crypto, Credentials, is_ascii, compare_digest}
use samsung.Dashboard.Sessions.{
  strip_padding, padded, unsigned, signed, parse_int, payload_of, body_of, issue_session,
  user_of_payload, user_of_parts, user_of_split, session_user, user_of_fields, user_until,
  user_if_in_time, user_if_current, user_if_genuine,
}

every→lacks : (c : ℕ) (s : Text) → every (λ d. not (d == c)) s ≡ true → lacks c s ≡ true
unfolding every lacks
every→lacks c [] h = refl
every→lacks c (d ∷ s) h = ground (arith, every→lacks c s)

signed_digits :
    (s : Text) (n : ℕ)
    → every (λ c. not (c == b'-') && not (c == b'+')) s ≡ true
    → unsigned s ≡ some n
    → signed s ≡ some (pos n)
unfolding signed every
signed_digits [] n h e = unfold unsigned number in ground arith
signed_digits (c ∷ s) n h e = rw e (ground arith)

pub parse_int-str_int : (n : ℕ) → parse_int (str_int (pos n)) ≡ some (pos n)
unfolding parse_int str_int
parse_int-str_int n =
    ap signed (strip_none (str_nat n) (every-str_nat (λ c. not (is_space c)) n (λ d. ground arith)))
    ∙ signed_digits (str_nat n) n
        (every-str_nat (λ c. not (c == b'-') && not (c == b'+')) n (λ d. ground arith))
        (rw (unsigned, number-str_nat-end n) refl)

no_colon : (n : ℕ) → lacks b':' (str_int (pos n)) ≡ true
unfolding str_int
no_colon n =
    every→lacks b':' (str_nat n) (every-str_nat (λ d. not (d == b':')) n (λ d. ground arith))

pub compare_same : (s : Text) → is_ascii s ≡ true → compare_digest s s ≡ some true
unfolding compare_digest
compare_same s h = rw (h, text_eq_refl s) refl

-- What the documents of base64 and of hmac say: the alphabet of a body and of a signature, and that
-- a body is decoded as what was encoded.
pub record IsCodec {B : Type 0} (c : Crypto B) : Type 0 where
  pub decode_encode : (t : Text) → c.decode (padded (strip_padding (c.encode t))) ≡ some t
  pub encode_no_dot : (t : Text) → lacks b'.' (strip_padding (c.encode t)) ≡ true
  pub encode_ascii : (t : Text) → is_ascii (strip_padding (c.encode t)) ≡ true
  pub sign_ascii : (k b : Text) → is_ascii (c.sign k b) ≡ true

add_pos : (a b : ℕ) → pos a +ℤ pos b ≡ pos (a + b)
unfolding ◌+ℤ◌
add_pos a b = ground arith

lacks-found : (c : ℕ) (p s : Text) → lacks c (p ++ c ∷ s) ≡ false
unfolding lacks
lacks-found c [] s = ground arith
lacks-found c (d ∷ p) s = ground (arith, lacks-found c p s)

module _ {B F : Type 0} (c : Crypto B) (creds : Credentials F) where
  -- the token of a session that ends at n
  abbrev pub token_of : ℕ → Text
  token_of n =
      body_of c creds.username (pos n)
      ++ (b'.' ∷ c.sign creds.session_secret (body_of c creds.username (pos n)))

module _ {B F : Type 0} ⦃fl : Float F⦄ (c : Crypto B) (laws : IsCodec c) (creds : Credentials F)
    (user_ascii : is_ascii creds.username ≡ true)
    (secret_ascii : is_ascii creds.session_secret ≡ true) where
  user_of_payload_issued :
      (n : ℕ) (later : F)
      → fl.lt (fl.of_int (pos n)) later ≡ false
      → user_of_payload creds later (some (payload_of creds.username (pos n)))
        ≡ some (some creds.username)
  unfolding payload_of user_of_payload user_of_fields user_until user_if_in_time user_if_current
  user_of_payload_issued n later fresh =
      ap (user_of_fields creds later)
        (rpartition-append b':' creds.username (str_int (pos n)) (no_colon n))
      ∙ ap (user_until creds later creds.username) (parse_int-str_int n)
      ∙ ap (user_if_in_time creds creds.username) fresh
      ∙ ap (user_if_current creds.username) (compare_same creds.username user_ascii)

  user_of_parts_issued :
      (n : ℕ) (later : F)
      → fl.lt (fl.of_int (pos n)) later ≡ false
      → let b = body_of c creds.username (pos n) in
        user_of_parts c creds later b (c.sign creds.session_secret b) ≡ some (some creds.username)
  unfolding body_of user_of_parts user_if_genuine
  user_of_parts_issued n later fresh =
      ap (user_if_genuine c creds later (body_of c creds.username (pos n))) (
        compare_same (c.sign creds.session_secret (body_of c creds.username (pos n)))
          (laws.sign_ascii creds.session_secret (body_of c creds.username (pos n))))
      ∙ ap (user_of_payload creds later) (laws.decode_encode (payload_of creds.username (pos n)))
      ∙ user_of_payload_issued n later fresh

  user_of_split_issued :
      (n : ℕ) (later : F)
      → fl.lt (fl.of_int (pos n)) later ≡ false
      → let b = body_of c creds.username (pos n) in
        user_of_split c creds later (b, c.sign creds.session_secret b) ≡ some (some creds.username)
  unfolding user_of_split body_of
  user_of_split_issued n later fresh =
      rw (user_of_split, secret_ascii, laws.encode_ascii (payload_of creds.username (pos n)))
        (user_of_parts_issued n later fresh)

  pub session_user_issued :
      (n : ℕ) (later : F)
      → fl.lt (fl.of_int (pos n)) later ≡ false
      → session_user c creds later (some (token_of c creds n)) ≡ some (some creds.username)
  unfolding session_user
  session_user_issued n later fresh =
      rw
        (
          session_user,
          lacks-found b'.' (body_of c creds.username (pos n))
              (c.sign creds.session_secret (body_of c creds.username (pos n))),
        )
        (ap (user_of_split c creds later) (
            partition-append b'.' (body_of c creds.username (pos n))
              (c.sign creds.session_secret (body_of c creds.username (pos n)))
              (unfold body_of in laws.encode_no_dot (payload_of creds.username (pos n))))
          ∙ user_of_split_issued n later fresh)

  pub issue_session_issued :
      (start ttl : ℕ) (at : F)
      → fl.trunc at ≡ some (pos start)
      → issue_session c creds creds.username (pos ttl) at ≡ some (token_of c creds (start + ttl))
  unfolding issue_session
  issue_session_issued start ttl at started =
      rw (issue_session, started, add_pos start ttl, secret_ascii) refl

  -- A session issued to the current user, whose name is ASCII as the secret is, is accepted as that
  -- user's under the same credentials until it expires.
  pub session_user-issue_session :
      (start ttl : ℕ) (at later : F)
      → fl.trunc at ≡ some (pos start)
      → fl.lt (fl.of_int (pos (start + ttl))) later ≡ false
      → (token : Text) × (issue_session c creds creds.username (pos ttl) at ≡ some token)
        × (session_user c creds later (some token) ≡ some (some creds.username))
  session_user-issue_session start ttl at later started fresh = (
    token_of c creds (start + ttl),
    issue_session_issued start ttl at started,
    session_user_issued (start + ttl) later fresh,
  )

-- Two texts that compare as the same are the same, and ASCII.
pub compare_digest→eq :
    (a b : Text) → compare_digest a b ≡ some true → (a ≡ b) × (is_ascii b ≡ true)
unfolding compare_digest
compare_digest→eq a b h = by_ascii (is_ascii a) (is_ascii b) refl h
  where
    by_ascii :
        (x y : Bool)
        → is_ascii b ≡ y
        → ◌≡◌ {A = Option Bool} (if x && y then some (text_eq a b) else none) (some true)
        → (a ≡ b) × (is_ascii b ≡ true)
    by_ascii true true k e = (text_eq→eq a b (some_inj e), k)
    by_ascii true false k e = ground arith
    by_ascii false y k e = ground arith
