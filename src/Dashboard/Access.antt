-- ===== src/Dashboard/Access.antt =====
-- dashboard/app.py: who gets through the middleware, the login, the logout and the settings. The
-- pages themselves are left out; a request is what the code reads of it.
pub mod Guard
pub mod Runs
pub mod Login
use samsung.Prelude.{
  ℕ, zero, suc, ℤ, pos, Bool, true, false, ◌&&◌, ◌||◌, not, Option, none, some, [], ◌∷◌, ◌++◌, Text,
  codes, text_eq, contains, is_some, lacks, partition, strip_prefix, nonempty, length, ltb, or_else,
  Float, ◌==◌, if◌then◌else◌, ◌>>=◌,
}
use samsung.Actuator.Environment.{present, strip, lower}
use samsung.Dashboard.Credentials.{Crypto, Credentials, Machine, Store, verify, update_credentials}
use samsung.Dashboard.Sessions.{session_user, issue_session}

-- What the code reads of a request: its path, its query, the session cookie, and the header
-- Authorization.
pub record Request : Type 0 where
  pub path : Text
  pub query : Text
  pub cookie : Option Text
  pub authorization : Option Text

-- base64.b64decode with validation, then UTF-8: none where it raises ValueError; urlencode of one
-- parameter `next`.
pub record Http : Type 0 where
  pub decode_basic : Text → Option Text
  pub encode_next : Text → Text

-- What the middleware does: it calls the handler, for a user if one was asked for, it answers 401,
-- or it redirects to a URL.
pub data Access : Type 0 where
  passed : Option Text → Access
  unauthorized : Access
  redirected : Text → Access

-- what an answer does to the session cookie
pub data Cookie : Type 0 where
  kept deleted : Cookie
  set_to : Text → Cookie

-- What a handler answers: a page with a status, or a redirection.
pub data Answer : Type 0 where
  page : ℕ → Cookie → Answer
  redirect : Text → Cookie → Answer

abbrev pub session_ttl : ℤ
session_ttl = pos 43200

pub is_public : Text → Bool
is_public path = contains path (codes "/healthz" ∷ codes "/login" ∷ codes "/logout" ∷ [])

all_slashes : Text → Bool
all_slashes [] = true
all_slashes (c ∷ s) = (c == b'/') && all_slashes s

-- `s.rstrip("/")`
strip_slashes : Text → Text
unfolding all_slashes
strip_slashes [] = []
strip_slashes (c ∷ s) = let rest = strip_slashes s in if all_slashes (c ∷ s) then [] else c ∷ rest

pub has_prefix : Text → Text → Bool
has_prefix p s = is_some (strip_prefix p s)

with_slash : Text → Text
unfolding has_prefix
with_slash raw = if nonempty raw && not (has_prefix (codes "/") raw) then codes "/" ++ raw else raw

-- `_url_prefix`, from the value of the environment
pub url_prefix : Option Text → Text
unfolding strip_slashes with_slash
url_prefix variable = with_slash (strip_slashes (strip (or_else variable [])))

-- `_safe_next`
pub safe_next : Text → Option Text → Text
unfolding has_prefix
safe_next prefix next_url =
    let home = prefix ++ codes "/" in
    elim (present next_url) [
      | none ↦ home
      | some url ↦
          if not (has_prefix (codes "/") url) || has_prefix (codes "//") url then home else url
    ]

-- `value.strip()[:max_len] or None`
first_of : ℕ → Text → Text
first_of zero s = []
first_of (suc n) [] = []
first_of (suc n) (c ∷ s) = c ∷ first_of n s

pub clean_param : Option Text → ℕ → Option Text
unfolding first_of
clean_param none max_len = none
clean_param (some value) max_len = present (some (first_of max_len (strip value)))

-- the user and the password of a decoded header
credentials_in : Text → Option (Text × Text)
credentials_in decoded = if lacks b':' decoded then none else some (partition b':' decoded)

pub parse_basic : Http → Text → Option (Text × Text)
unfolding credentials_in
parse_basic h header =
    let (scheme, encoded) = partition b' ' header in
    if not (text_eq (lower scheme) (codes "basic")) || not (nonempty encoded)
    then none
    else (do decoded ← h.decode_basic encoded; credentials_in decoded)

module _ {B F : Type 0} ⦃fl : Float F⦄ (c : Crypto B) (h : Http) (at : F) where
  -- the user of Basic credentials
  user_if_verified : Text → Bool → Option Text
  user_if_verified user true = some user
  user_if_verified user false = none

  pub basic_user : Store F → Option (Text × Text) → Option (Option Text)
  unfolding user_if_verified
  basic_user s none = some none
  basic_user s (some (user, password)) = do
    ok ← verify c s user password
    some (user_if_verified user ok)

  -- the user of the cookie, if it has one; else that of the header
  pub user_or_header : Store F → Request → Option Text → Option (Option Text)
  unfolding basic_user parse_basic
  user_or_header s r (some name) = some (some name)
  user_or_header s r none = basic_user s (parse_basic h (or_else r.authorization []))

  -- the same from what the check of the cookie says; an empty name is none
  pub user_or_basic : Store F → Request → Option (Option Text) → Option (Option Text)
  unfolding user_or_header
  user_or_basic s r none = none
  user_or_basic s r (some user) = user_or_header s r (present user)

  -- `_authenticate`; the outer option is none where an exception gets out
  pub authenticate : Store F → Request → Option (Option Text)
  unfolding user_or_basic
  authenticate s r = user_or_basic s r (session_user c s.credentials at r.cookie)

  login_url : Text → Request → Text
  login_url prefix r =
      prefix
      ++ (codes "/login?"
          ++ h.encode_next
              (prefix ++ (r.path ++ (if nonempty r.query then codes "?" ++ r.query else []))))

  pub access_for : Text → Request → Option (Option Text) → Option Access
  unfolding login_url
  access_for prefix r none = none
  access_for prefix r (some (some user)) = some (passed (some user))
  access_for prefix r (some none) =
      some
        (if has_prefix (codes "/api") r.path then unauthorized else redirected (login_url prefix r))

  -- `_auth_middleware`, up to the call of the handler
  pub auth_middleware : Text → Store F → Request → Option Access
  unfolding access_for is_public authenticate
  auth_middleware prefix s r =
      if is_public r.path then some (passed none) else access_for prefix r (authenticate s r)

  pub login_form : Text → Store F → Request → Option Text → Option Answer
  unfolding safe_next
  login_form prefix s r next = do
    user ← session_user c s.credentials at r.cookie
    some (elim (present user) [
      | some name ↦ redirect (safe_next prefix next) kept
      | none ↦ page 200 kept
    ])

  -- the answer to a login, after the check of the password
  pub login_answer : Text → Store F → Text → Text → Option Bool → Option Answer
  unfolding safe_next
  login_answer prefix s username next none = none
  login_answer prefix s username next (some false) = some (page 401 kept)
  login_answer prefix s username next (some true) = do
    token ← issue_session c s.credentials username session_ttl at
    some (redirect (safe_next prefix (some next)) (set_to token))

  pub login_submit : Text → Store F → Text → Text → Text → Option Answer
  unfolding login_answer
  login_submit prefix s username password next =
      login_answer prefix s username next (verify c s username password)

  pub logout : Text → Answer
  logout prefix = redirect (prefix ++ codes "/login") deleted
