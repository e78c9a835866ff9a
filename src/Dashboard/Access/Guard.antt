-- ===== src/Dashboard/Access/Guard.antt =====
-- Who gets through the middleware of dashboard/app.py.
use samsung.Prelude.{
  Bool, true, false, Option, none, some, some_inj, [], Text, codes, nonempty, or_else, Float, ◌≡◌,
  refl, sym, ap, ◌∙◌, ◌⊎◌, inl, inr, arith, if◌then◌else◌, ◌>>=◌,
}
use samsung.Actuator.Environment.{present}
use samsung.Dashboard.Credentials.{Crypto, Store, verify}
use samsung.Dashboard.Sessions.{session_user}
use samsung.Dashboard.Access.{
  Request, Http, Access, passed, unauthorized, redirected, has_prefix, login_url, is_public,
  parse_basic, basic_user, user_or_basic, user_or_header, user_if_verified, authenticate,
  access_for, auth_middleware,
}

module _ {B F : Type 0} ⦃fl : Float F⦄ (c : Crypto B) (h : Http) (at : F) (s : Store F)
    (r : Request) where
  -- the user of an accepted cookie, or of a password that was checked
  abbrev pub IsAuthenticated : Text → Type 0
  IsAuthenticated user =
      (session_user c s.credentials at r.cookie ≡ some (some user))
      ⊎ ((password : Text) × (parse_basic h (or_else r.authorization []) ≡ some (user, password))
          × (verify c s user password ≡ some true))

  verified_shown :
      (name user : Text) (o : Option Bool)
      → ◌≡◌ {A = Option (Option Text)}
          (o >>= λ ok. some (user_if_verified c h at name ok))
          (some (some user))
      → (name ≡ user) × (o ≡ some true)
  unfolding user_if_verified
  verified_shown name user none e = ground arith
  verified_shown name user (some true) e = (some_inj (some_inj e), refl)
  verified_shown name user (some false) e = ground arith

  basic_shown :
      (user : Text) (o : Option (Text × Text))
      → parse_basic h (or_else r.authorization []) ≡ o
      → basic_user c h at s o ≡ some (some user)
      → IsAuthenticated user
  unfolding basic_user
  basic_shown user none e k = ground arith
  basic_shown user (some (name, password)) e k =
      let shown = verified_shown name user (verify c s name password) k in
      inr (
        password,
        e ∙ ap (λ n. some (n, password)) shown.0,
        ap (λ n. verify c s n password) (sym shown.0) ∙ shown.1,
      )

  header_shown :
      (user : Text) (o : Option Text)
      → session_user c s.credentials at r.cookie ≡ some o
      → user_or_header c h at s r (present o) ≡ some (some user)
      → IsAuthenticated user
  unfolding user_or_header
  header_shown user none e k = basic_shown user (parse_basic h (or_else r.authorization [])) refl k
  header_shown user (some name) e k = by_name (nonempty name) k
    where
      by_name :
          (b : Bool)
          → user_or_header c h at s r (if b then some name else none) ≡ some (some user)
          → IsAuthenticated user
      by_name true j = inl (e ∙ ap some (some_inj j))
      by_name false j = basic_shown user (parse_basic h (or_else r.authorization [])) refl j

  cookie_shown :
      (user : Text) (o : Option (Option Text))
      → session_user c s.credentials at r.cookie ≡ o
      → user_or_basic c h at s r o ≡ some (some user)
      → IsAuthenticated user
  unfolding user_or_basic
  cookie_shown user none e k = ground arith
  cookie_shown user (some o) e k = header_shown user o e k

  access_shown :
      (prefix : Text) (current : Option Text) (o : Option (Option Text))
      → authenticate c h at s r ≡ o
      → access_for c h at prefix r o ≡ some (passed current)
      → (user : Text) × (current ≡ some user) × IsAuthenticated user
  unfolding access_for authenticate
  access_shown prefix current none e k = ground arith
  access_shown prefix current (some (some user)) e k =
      (user, passed_inj k, cookie_shown user (session_user c s.credentials at r.cookie) refl e)
    where
      passed_inj : {a b : Option Text} → some (passed a) ≡ some (passed b) → b ≡ a
      passed_inj e = cc
  access_shown prefix current (some none) e k = by_path (has_prefix (codes "/api") r.path) k
    where
      by_path :
          (b : Bool)
          → ◌≡◌ {A = Option Access}
              (some (if b then unauthorized else redirected (login_url c h at prefix r)))
              (some (passed current))
          → (user : Text) × (current ≡ some user) × IsAuthenticated user
      by_path true j = absurd j
        where
          absurd :
              some unauthorized ≡ some (passed current)
              → (user : Text) × (current ≡ some user) × IsAuthenticated user
          absurd j = ground arith
      by_path false j = ground arith

  -- A request gets through only to a public path, or as a user whose cookie is accepted or whose
  -- password in the header was checked.
  pub auth_middleware_guarded :
      (prefix : Text) (current : Option Text)
      → auth_middleware c h at prefix s r ≡ some (passed current)
      → (is_public r.path ≡ true) ⊎ ((user : Text) × (current ≡ some user) × IsAuthenticated user)
  unfolding auth_middleware
  auth_middleware_guarded prefix current k = by_path (is_public r.path) refl k
    where
      by_path :
          (b : Bool)
          → is_public r.path ≡ b
          → ◌≡◌ {A = Option Access}
              (if b
                then some (passed none)
                else access_for c h at prefix r (authenticate c h at s r))
              (some (passed current))
          → (is_public r.path ≡ true)
            ⊎ ((user : Text) × (current ≡ some user) × IsAuthenticated user)
      by_path true e j = inl e
      by_path false e j = inr (access_shown prefix current (authenticate c h at s r) refl j)
