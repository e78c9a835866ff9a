-- ===== src/Dashboard/Sessions/Rotation.antt =====
-- What a change of the credentials does to the tokens and to the login (dashboard/auth.py).
use samsung.Prelude.{
  true, false, ◌&&◌, Option, none, some, length, Text, nonempty, Float, ◌≡◌, ◌≢◌, refl, sym, ap,
  ◌∙◌, arith, ◌>>=◌,
}
use samsung.Actuator.Environment.{present}
use samsung.Dashboard.Credentials.{
  Crypto, Credentials, Machine, Store, is_ascii, compare_digest, change_password, change_username,
  update_credentials, verify,
}
use samsung.Dashboard.Sessions.{session_user}
use samsung.Dashboard.Sessions.Tokens.{compare_same}
use samsung.Dashboard.Sessions.Genuine.{session_user-IsSigned}

module _ {W B F : Type 0} ⦃fl : Float F⦄ (c : Crypto B) (m : Machine W B F) where
  -- the credentials after a change
  abbrev pub changed : Option Text → Option Text → Store F → W → Credentials F
  changed new_username new_password s w =
      (update_credentials c m new_username new_password s w).0.credentials

  -- `secrets.token_hex(32)` gives 64 digits, and HMAC-SHA256 with two keys of that size, which is its block
  -- size, gives a message two signatures.
  pub record SeparatesKeys : Type 0 where
    pub secret_length : (w : W) → length (m.token_hex w).0 ≡ 64
    pub same_key :
        (key key' message : Text)
        → length key ≡ 64
        → length key' ≡ 64
        → c.sign key message ≡ c.sign key' message
        → key ≡ key'

  -- the worlds that draws of salts lead to
  pub data Later (w : W) : W → Type 0 where
    start : Later w w
    salted : {w' : W} → Later w w' → Later w (m.token_bytes w').1

  -- The secret is a past one: from this world on, no draw of a secret gives it again.
  abbrev pub IsPast : Text → W → Type 0
  IsPast secret w = (w' : W) → Later w w' → (m.token_hex w').0 ≢ secret

  keeps_username :
      (o : Option Text) (creds : Credentials F) (w : W)
      → (change_password c m o creds w).0.username ≡ creds.username
  unfolding change_password
  keeps_username none creds w = refl
  keeps_username (some p) creds w = refl

  changed_username :
      (u : Text) (new_password : Option Text) (s : Store F) (w : W)
      → nonempty u ≡ true
      → (changed (some u) new_password s w).username ≡ u
  unfolding update_credentials change_username
  changed_username u new_password s w h =
      keeps_username (present new_password) (change_username (present (some u)) s.credentials) w
      ∙ (rw h refl)

  not_compared : (a b : Text) → is_ascii b ≡ false → compare_digest a b ≡ none
  unfolding compare_digest
  not_compared a b h = rw h (ground arith)

  verify_raises :
      (s : Store F) (name password : Text)
      → is_ascii s.credentials.username ≡ false
      → verify c s name password ≡ none
  unfolding verify
  verify_raises s name password h =
      by_salt (c.from_hex s.credentials.salt) (c.from_hex s.credentials.hash)
    where
      by_salt :
          (x y : Option B)
          → (x >>= λ salt. y >>= λ expected.
              compare_digest name s.credentials.username >>= λ user_ok.
              some (user_ok && c.same_bytes (c.hash_password password salt) expected))
            ≡ none
      by_salt none y = refl
      by_salt (some salt) none = refl
      by_salt (some salt) (some expected) = rw (not_compared name s.credentials.username h) refl

  -- After a change to a username that is not ASCII nobody logs in: every check of a password raises,
  -- and no token is accepted.
  pub update_credentials_locks_out :
      (s : Store F) (u : Text) (new_password : Option Text) (w : W)
      → nonempty u ≡ true
      → is_ascii u ≡ false
      → ((name password : Text)
          → verify c (update_credentials c m (some u) new_password s w).0 name password ≡ none)
        × ((at : F) (token user : Text)
            → session_user c (changed (some u) new_password s w) at (some token) ≢ some (some user))
  update_credentials_locks_out s u new_password w h foreign = (
    λ name password.
        verify_raises (update_credentials c m (some u) new_password s w).0 name password
          (ap is_ascii (changed_username u new_password s w h) ∙ foreign),
    λ at token user accepted. true_ne_false (
        sym
          (session_user-IsSigned c (changed (some u) new_password s w) at user token
            accepted).is_payload.ascii
        ∙ ap is_ascii (changed_username u new_password s w h)
        ∙ foreign),
  )
    where
      true_ne_false : true ≢ false
      true_ne_false e = cc

  -- What hex and the comparison of bytes do.
  pub record IsReadable : Type 0 where
    pub from_hex-hex : (b : B) → c.from_hex (c.hex b) ≡ some b
    pub same : (b : B) → c.same_bytes b b ≡ true

  -- After a change of the name and the password, the name being ASCII, the new ones log in.
  pub verify-update_credentials :
      IsReadable
      → (s : Store F) (u p : Text) (w : W) → nonempty u ≡ true
      → nonempty p ≡ true
      → is_ascii u ≡ true
      → verify c (update_credentials c m (some u) (some p) s w).0 u p ≡ some true
  unfolding verify update_credentials change_username change_password
  verify-update_credentials laws s u p w hu hp ascii =
      rw
        (
          hp,
          hu,
          laws.from_hex-hex (m.token_bytes w).0,
          laws.from_hex-hex (c.hash_password p (m.token_bytes w).0),
          compare_same u ascii,
          laws.same (c.hash_password p (m.token_bytes w).0),
        )
        refl
