-- ===== src/Dashboard/Sessions/Genuine.antt =====
-- A token that dashboard/auth.py accepts was signed under the current secret.
use samsung.Prelude.{
  ℤ, Bool, true, false, Option, none, some, some_inj, ◌∷◌, ◌++◌, Text, lacks, partition, rpartition,
  rpartition-joined, Float, ◌≡◌, refl, sym, ap, ◌∙◌, arith, if◌then◌else◌, ◌&&◌,
}
use samsung.Dashboard.Credentials.{Crypto, Credentials, is_ascii, compare_digest}
use samsung.Dashboard.Sessions.{
  padded, parse_int, user_if_current, user_if_in_time, user_until, user_of_fields, user_of_payload,
  user_if_genuine, user_of_parts, user_of_split, session_user,
}
use samsung.Dashboard.Sessions.Tokens.{compare_digest→eq}

current_shown :
    (name current user : Text) (o : Option Bool)
    → compare_digest name current ≡ o
    → user_if_current name o ≡ some (some user)
    → (name ≡ user) × (user ≡ current) × (is_ascii current ≡ true)
unfolding user_if_current
current_shown name current user (some true) e h = (
  some_inj (some_inj h),
  sym (some_inj (some_inj h)) ∙ (compare_digest→eq name current e).0,
  (compare_digest→eq name current e).1,
)
current_shown name current user (some false) e h = ground arith
current_shown name current user none e h = ground arith

module _ {F : Type 0} ⦃fl : Float F⦄ (creds : Credentials F) (at : F) (user : Text) where
  in_time_shown :
      (name : Text) (over : Bool)
      → user_if_in_time creds name over ≡ some (some user)
      → (over ≡ false) × (name ≡ user) × (user ≡ creds.username) × (is_ascii creds.username ≡ true)
  unfolding user_if_in_time
  in_time_shown name true h = ground arith
  in_time_shown name false h =
      let shown =
        current_shown name creds.username user (compare_digest name creds.username) refl h in
      (refl, shown.0, shown.1, shown.2)

  -- A payload that is the user's, with the time of an end that is not over.
  pub record IsPayload (payload : Text) : Type 0 where
    pub expires : Text
    pub end : ℤ
    pub joined : payload ≡ user ++ b':' ∷ expires
    pub read : parse_int expires ≡ some end
    pub not_over : fl.lt (fl.of_int end) at ≡ false
    pub current : user ≡ creds.username
    pub ascii : is_ascii creds.username ≡ true

  until_shown :
      (name expires payload : Text) (o : Option ℤ)
      → parse_int expires ≡ o
      → payload ≡ name ++ b':' ∷ expires
      → user_until creds at name o ≡ some (some user)
      → IsPayload payload
  unfolding user_until
  until_shown name expires payload none e j h = ground arith
  until_shown name expires payload (some end) e j h =
      let shown = in_time_shown name (fl.lt (fl.of_int end) at) h in
      record {
        expires = expires;
        end = end;
        joined = j ∙ ap (λ n. n ++ b':' ∷ expires) shown.1;
        read = e;
        not_over = shown.0;
        current = shown.2;
        ascii = shown.3;
      }

  fields_shown :
      (payload : Text) (o : Option (Text × Text))
      → ((a b : Text) → o ≡ some (a, b) → payload ≡ a ++ b':' ∷ b)
      → user_of_fields creds at o ≡ some (some user)
      → IsPayload payload
  unfolding user_of_fields
  fields_shown payload none j h = ground arith
  fields_shown payload (some (name, expires)) j h =
      until_shown name expires payload (parse_int expires) refl (j name expires refl) h

module _ {B F : Type 0} ⦃fl : Float F⦄ (c : Crypto B) (creds : Credentials F) (at : F)
    (user : Text) where
  -- A body that decodes to such a payload, under its signature.
  pub record IsSigned (parts : Text × Text) : Type 0 where
    pub signature : parts.1 ≡ c.sign creds.session_secret parts.0
    pub payload : Text
    pub decoded : c.decode (padded parts.0) ≡ some payload
    pub is_payload : IsPayload creds at user payload

  decoded_shown :
      (b sig : Text) (o : Option Text)
      → c.decode (padded b) ≡ o
      → sig ≡ c.sign creds.session_secret b
      → user_of_payload creds at o ≡ some (some user)
      → IsSigned (b, sig)
  unfolding user_of_payload
  decoded_shown b sig none e g h = ground arith
  decoded_shown b sig (some payload) e g h = record {
    signature = g;
    payload = payload;
    decoded = e;
    is_payload =
        fields_shown creds at user payload (rpartition b':' payload)
          (rpartition-joined b':' payload) h;
  }

  genuine_shown :
      (b sig : Text) (o : Option Bool)
      → compare_digest sig (c.sign creds.session_secret b) ≡ o
      → user_if_genuine c creds at b o ≡ some (some user)
      → IsSigned (b, sig)
  unfolding user_if_genuine
  genuine_shown b sig none e h = ground arith
  genuine_shown b sig (some false) e h = ground arith
  genuine_shown b sig (some true) e h =
      decoded_shown b sig (c.decode (padded b)) refl
        (compare_digest→eq sig (c.sign creds.session_secret b) e).0 h

  split_shown :
      (parts : Text × Text) → user_of_split c creds at parts ≡ some (some user) → IsSigned parts
  unfolding user_of_split user_of_parts
  split_shown (b, sig) h = by_ascii (is_ascii creds.session_secret && is_ascii b) h
    where
      by_ascii :
          (x : Bool)
          → ◌≡◌ {A = Option (Option Text)}
              (if x then user_of_parts c creds at b sig else none)
              (some (some user))
          → IsSigned (b, sig)
      by_ascii true e =
          genuine_shown b sig (compare_digest sig (c.sign creds.session_secret b)) refl e
      by_ascii false e = ground arith

  -- A token is accepted as a user's only if its second part is the signature of its first under the
  -- current secret, and the first decodes to the name of the current user, who is that user, with
  -- an end that is not over.
  pub session_user-IsSigned :
      (token : Text)
      → session_user c creds at (some token) ≡ some (some user)
      → IsSigned (partition b'.' token)
  unfolding session_user
  session_user-IsSigned token h = by_dot (lacks b'.' token) h
    where
      by_dot :
          (x : Bool)
          → ◌≡◌ {A = Option (Option Text)}
              (if x then some none else user_of_split c creds at (partition b'.' token))
              (some (some user))
          → IsSigned (partition b'.' token)
      by_dot true e = ground arith
      by_dot false e = split_shown (partition b'.' token) e
