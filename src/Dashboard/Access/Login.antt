-- ===== src/Dashboard/Access/Login.antt =====
-- From the login of dashboard/app.py to the pages behind it.
use samsung.Prelude.{
  ℕ, ◌+◌, pos, Bool, true, false, ◌&&◌, Option, none, some, Text, nonempty, Float, ◌≡◌, refl, ap,
  ◌∙◌, arith, ◌>>=◌,
}
use samsung.Dashboard.Credentials.{Crypto, Store, verify, is_ascii, compare_digest}
use samsung.Dashboard.Sessions.{session_user, issue_session}
use samsung.Dashboard.Sessions.Tokens.{
  IsCodec, compare_digest→eq, token_of, issue_session_issued, session_user_issued,
}
use samsung.Dashboard.Access.{
  Request, Http, passed, redirect, set_to, is_public, safe_next, login_answer, login_submit,
  user_or_basic, user_or_header, authenticate, access_for, auth_middleware,
}

-- the lifetime of a session, in seconds
abbrev ttl_seconds : ℕ
ttl_seconds = 43200

module _ {B F : Type 0} (c : Crypto B) (s : Store F) where
  -- a password that is verified stands with the name of the store, which is ASCII
  pub verify_shown :
      (name password : Text)
      → verify c s name password ≡ some true
      → (name ≡ s.credentials.username) × (is_ascii s.credentials.username ≡ true)
  unfolding verify
  verify_shown name password h =
      by_salt (c.from_hex s.credentials.salt) (c.from_hex s.credentials.hash) h
    where
      by_match :
          (o : Option Bool) (b : Bool)
          → compare_digest name s.credentials.username ≡ o
          → (o >>= λ user_ok. some (user_ok && b)) ≡ some true
          → (name ≡ s.credentials.username) × (is_ascii s.credentials.username ≡ true)
      by_match none b e k = ground arith
      by_match (some true) b e k = compare_digest→eq name s.credentials.username e
      by_match (some false) b e k = ground arith

      by_salt :
          (x y : Option B)
          → (x >>= λ salt. y >>= λ expected.
              compare_digest name s.credentials.username >>= λ user_ok.
              some (user_ok && c.same_bytes (c.hash_password password salt) expected))
            ≡ some true
          → (name ≡ s.credentials.username) × (is_ascii s.credentials.username ≡ true)
      by_salt none y k = ground arith
      by_salt (some salt) none k = ground arith
      by_salt (some salt) (some expected) k =
          by_match (compare_digest name s.credentials.username)
            (c.same_bytes (c.hash_password password salt) expected) refl k

module _ {B F : Type 0} ⦃fl : Float F⦄ (c : Crypto B) (h : Http) (s : Store F) where
  pub cookie_passes :
      (later : F) (prefix : Text) (r : Request) (user : Text)
      → nonempty user ≡ true
      → session_user c s.credentials later r.cookie ≡ some (some user)
      → is_public r.path ≡ false
      → auth_middleware c h later prefix s r ≡ some (passed (some user))
  unfolding auth_middleware authenticate user_or_basic user_or_header access_for
  cookie_passes later prefix r user named accepted private_ =
      rw (auth_middleware, private_, accepted, named) refl

  -- After a login with the right password, at a time whose seconds are a natural number, the cookie
  -- that it sets gets through to every page that is not public, as the user, until 12 hours later:
  -- while the credentials stay, whose name is not empty and whose secret is ASCII.
  pub login_submit_opens :
      IsCodec c
      → (name password next prefix : Text) (start : ℕ) (at later : F) (r : Request)
      → fl.trunc at ≡ some (pos start)
      → nonempty s.credentials.username ≡ true
      → is_ascii s.credentials.session_secret ≡ true
      → verify c s name password ≡ some true
      → r.cookie ≡ some (token_of c s.credentials (start + ttl_seconds))
      → fl.lt (fl.of_int (pos (start + ttl_seconds))) later ≡ false
      → is_public r.path ≡ false
      → (login_submit c h at prefix s name password next
          ≡ some (
              redirect
                (safe_next prefix (some next))
                (set_to (token_of c s.credentials (start + ttl_seconds)))))
        × (auth_middleware c h later prefix s r ≡ some (passed (some s.credentials.username)))
  unfolding login_submit login_answer
  login_submit_opens laws name password next prefix start at later r started named secret_ascii
        verified cookie fresh private_ =
      let shown = verify_shown c s name password verified in
      (
        ap (login_answer c h at prefix s name next) verified
            ∙ ap
                (λ n. issue_session c s.credentials n (pos ttl_seconds) at >>= λ token.
                  some (redirect (safe_next prefix (some next)) (set_to token)))
                shown.0
            ∙ ap (λ o. o >>= λ token. some (redirect (safe_next prefix (some next)) (set_to token)))
                (issue_session_issued c laws s.credentials shown.1 secret_ascii start ttl_seconds at
                  started),
        cookie_passes later prefix r s.credentials.username named
            (ap (session_user c s.credentials later) cookie
              ∙ session_user_issued c laws s.credentials shown.1 secret_ascii (start + ttl_seconds)
                  later fresh)
            private_,
      )
