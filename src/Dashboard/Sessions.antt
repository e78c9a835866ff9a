-- ===== src/Dashboard/Sessions.antt =====
-- dashboard/auth.py: the signed session tokens.
pub mod Tokens
pub mod Genuine
pub mod Rotation
use samsung.Prelude.{
  ℕ, ◌+◌, ◌-◌, ◌%◌, ℤ, pos, negsuc, ◌+ℤ◌, Bool, true, false, not, ◌&&◌, every, ◌≡◌, refl, arith,
  Option, none, some, [], ◌∷◌, ◌++◌, Text, codes, str_int, lacks, number, partition, rpartition,
  length, Float, ◌==◌, if◌then◌else◌, ◌>>=◌, zero, suc,
}
use samsung.Actuator.Environment.{strip}
use samsung.Dashboard.Credentials.{Crypto, Credentials, is_ascii, compare_digest}

all_padding : Text → Bool
all_padding [] = true
all_padding (c ∷ s) = (c == b'=') && all_padding s

-- `s.rstrip("=")`
unfoldable pub strip_padding : Text → Text
unfolding all_padding
strip_padding [] = []
strip_padding (c ∷ s) = let rest = strip_padding s in if all_padding (c ∷ s) then [] else c ∷ rest

-- A text without padding is left as it is.
pub strip_padding_none : (s : Text) → every (λ c. not (c == b'=')) s ≡ true → strip_padding s ≡ s
unfolding strip_padding all_padding every
strip_padding_none [] h = refl
strip_padding_none (c ∷ s) h = ground (arith, strip_padding_none s)

unfoldable pub repeated : ℕ → Text
repeated zero = []
repeated (suc n) = b'=' ∷ repeated n

-- `b + "=" * (-len(b) % 4)`
unfoldable pub padded : Text → Text
unfolding repeated
padded b = b ++ repeated ((4 - length b % 4) % 4)

-- the digits behind the sign
unsigned : Text → Option ℕ
unsigned s = elim (number s) [ some (n, []) ↦ some n | _ ↦ none ]

negative : ℕ → ℤ
negative zero = pos zero
negative (suc n) = negsuc n

signed : Text → Option ℤ
unfolding unsigned negative
signed [] = none
signed (c ∷ s) =
    let plus = unsigned (c ∷ s) in
    let behind = unsigned s in
    if c == b'-'
    then (do n ← behind; some (negative n))
    else if c == b'+'
    then (do n ← behind; some (pos n))
    else (do n ← plus; some (pos n))

-- `int(text)`, of ASCII digits without underscores: none where it raises ValueError
pub parse_int : Text → Option ℤ
unfolding signed
parse_int s = signed (strip s)

pub payload_of : Text → ℤ → Text
payload_of username exp = username ++ (b':' ∷ str_int exp)

module _ {B : Type 0} (c : Crypto B) where
  -- the first part of a token
  pub body_of : Text → ℤ → Text
  unfolding payload_of strip_padding
  body_of username exp = strip_padding (c.encode (payload_of username exp))

-- the checks of `session_user` behind one another, the last one first; in their results the outer
-- option is none where an exception gets out
pub user_if_current : Text → Option Bool → Option (Option Text)
user_if_current user none = none
user_if_current user (some true) = some (some user)
user_if_current user (some false) = some none

module _ {F : Type 0} ⦃fl : Float F⦄ where
  pub user_if_in_time : Credentials F → Text → Bool → Option (Option Text)
  unfolding compare_digest user_if_current
  user_if_in_time creds user true = some none
  user_if_in_time creds user false = user_if_current user (compare_digest user creds.username)

  pub user_until : Credentials F → F → Text → Option ℤ → Option (Option Text)
  unfolding user_if_in_time
  user_until creds at user none = some none
  user_until creds at user (some exp) = user_if_in_time creds user (fl.lt (fl.of_int exp) at)

  pub user_of_fields : Credentials F → F → Option (Text × Text) → Option (Option Text)
  unfolding parse_int user_until
  user_of_fields creds at none = some none
  user_of_fields creds at (some (user, exp_s)) = user_until creds at user (parse_int exp_s)

  pub user_of_payload : Credentials F → F → Option Text → Option (Option Text)
  unfolding user_of_fields
  user_of_payload creds at none = some none
  user_of_payload creds at (some payload) = user_of_fields creds at (rpartition b':' payload)

module _ {B F : Type 0} ⦃fl : Float F⦄ (c : Crypto B) where
  -- `issue_session`; `at` is the time. None where `int` of the time raises, or the encoding of a
  -- secret that is not ASCII.
  pub issue_session : Credentials F → Text → ℤ → F → Option Text
  unfolding body_of
  issue_session creds username ttl at = do
    start ← fl.trunc at
    let b = body_of c username (start +ℤ ttl)
    if is_ascii creds.session_secret
        then some (b ++ (b'.' ∷ c.sign creds.session_secret b))
        else none

  pub user_if_genuine : Credentials F → F → Text → Option Bool → Option (Option Text)
  unfolding padded user_of_payload
  user_if_genuine creds at b none = none
  user_if_genuine creds at b (some false) = some none
  user_if_genuine creds at b (some true) = user_of_payload creds at (c.decode (padded b))

  -- the parts of a token, from the comparison of the signature on
  pub user_of_parts : Credentials F → F → Text → Text → Option (Option Text)
  unfolding user_if_genuine compare_digest
  user_of_parts creds at b sig =
      user_if_genuine creds at b (compare_digest sig (c.sign creds.session_secret b))

  -- the two parts of a token; encoding one that is not ASCII raises
  pub user_of_split : Credentials F → F → Text × Text → Option (Option Text)
  unfolding user_of_parts
  user_of_split creds at (b, sig) =
      if is_ascii creds.session_secret && is_ascii b then user_of_parts creds at b sig else none

  -- `session_user`; the outer option is none where an exception gets out
  pub session_user : Credentials F → F → Option Text → Option (Option Text)
  unfolding user_of_split
  session_user creds at none = some none
  session_user creds at (some token) =
      if lacks b'.' token then some none else user_of_split creds at (partition b'.' token)
