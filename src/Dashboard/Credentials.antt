-- ===== src/Dashboard/Credentials.antt =====
-- dashboard/auth.py: the store of the one login, its file, and the check of a password. The hash
-- functions, the codecs, the random numbers, the clock and the file are parameters.
use samsung.Prelude.{
  Bool, true, false, ◌&&◌, Option, none, some, List, [], ◌∷◌, Text, codes, text_eq, ltb, every,
  or_else, if◌then◌else◌, ◌>>=◌,
}
use samsung.Actuator.Environment.{present, strip}

-- hashlib, hmac, base64 and bytes.hex; `B` is the type of bytes.
pub record Crypto (B : Type 0) : Type 0 where
  -- `_hash_password` without the default of a missing password
  pub hash_password : Text → B → B
  pub hex : B → Text
  -- bytes.fromhex: none where it raises ValueError
  pub from_hex : Text → Option B
  -- hmac.compare_digest of bytes
  pub same_bytes : B → B → Bool
  -- hmac.new(secret, message, sha256).hexdigest() of ASCII texts
  pub sign : Text → Text → Text
  -- urlsafe_b64encode of the UTF-8 of a text, as a text
  pub encode : Text → Text
  -- the way back: none where it raises ValueError
  pub decode : Text → Option Text

-- The data of the store; the version, which is constant, is left out.
pub record Credentials (F : Type 0) : Type 0 where
  pub username : Text
  pub salt : Text
  pub hash : Text
  pub session_secret : Text
  pub updated_at : Option F

-- A JSON object in the file: a field that is missing or no str is none.
pub record Loaded (F : Type 0) : Type 0 where
  pub username : Option Text
  pub salt : Option Text
  pub hash : Option Text
  pub session_secret : Option Text
  pub updated_at : Option F

-- The file: absent, not readable as JSON, a value that is no object, or an object.
pub data File (F : Type 0) : Type 0 where
  absent unreadable no_object : File F
  object : Loaded F → File F

-- The machine: random numbers, the environment, the file of a path, and the clock.
pub record Machine (W B F : Type 0) : Type 0 where
  -- secrets.token_bytes(16) and secrets.token_hex(32)
  pub token_bytes : W → B × W
  pub token_hex : W → Text × W
  pub username_variable : W → Option Text
  pub password_variable : W → Option Text
  pub path_variable : W → Option Text
  pub time : W → F
  pub read : Text → W → File F
  -- the temporary file and its move onto the path: whether no OSError was raised
  pub write : Text → Credentials F → W → Bool × W

pub record Store (F : Type 0) : Type 0 where
  pub path : Option Text
  pub persistent : Bool
  pub credentials : Credentials F

-- hmac.compare_digest of two str: none where it raises TypeError, for a text that is not ASCII
abbrev pub is_ascii : Text → Bool
is_ascii s = every (λ c. ltb c 128) s

unfoldable pub compare_digest : Text → Text → Option Bool
compare_digest a b = if is_ascii a && is_ascii b then some (text_eq a b) else none

-- the four fields, where each is a str
pub valid : {F : Type 0} → Loaded F → Option (Credentials F)
valid l = do
  username ← l.username
  salt ← l.salt
  hash ← l.hash
  session_secret ← l.session_secret
  some (record {
    username = username;
    salt = salt;
    hash = hash;
    session_secret = session_secret;
    updated_at = l.updated_at;
  })

-- the credentials of a file, if it has some
pub loaded : {F : Type 0} → File F → Option (Credentials F)
unfolding valid
loaded (object l) = valid l
loaded _ = none

unfoldable pub change_username : {F : Type 0} → Option Text → Credentials F → Credentials F
change_username none creds = creds
change_username (some username) creds = record creds { username = username }

module _ {B F : Type 0} (c : Crypto B) where
  -- `verify`; none where the comparison or the decoding raises
  unfoldable pub verify : Store F → Text → Text → Option Bool
  unfolding compare_digest
  verify s username password = do
    salt ← c.from_hex s.credentials.salt
    expected ← c.from_hex s.credentials.hash
    user_ok ← compare_digest username s.credentials.username
    some (user_ok && c.same_bytes (c.hash_password password salt) expected)

module _ {W B F : Type 0} (c : Crypto B) (m : Machine W B F) where
  pub default_data : W → Credentials F × W
  default_data w =
      let (salt, w') = m.token_bytes w in
      let (secret, w'') = m.token_hex w' in
      (
        record {
          username = or_else (present (m.username_variable w)) (codes "admin");
          salt = c.hex salt;
          hash =
              c.hex (
                c.hash_password (or_else (present (m.password_variable w)) (codes "password"))
                  salt);
          session_secret = secret;
          updated_at = none;
        },
        w'',
      )

  unfoldable pub try_save : Option Text → Credentials F → W → Bool × W
  try_save path creds w = elim (present path) [ none ↦ (false, w) | some p ↦ m.write p creds w ]

  -- the file of a path that is set
  pub file_of : Option Text → W → File F
  file_of path w = elim (present path) [ none ↦ absent | some p ↦ m.read p w ]

  -- the store of the credentials found, or of new ones that are saved
  pub store_of : Option Text → Option (Credentials F) → W → Store F × W
  unfolding default_data try_save
  store_of path (some creds) w = (record { path = path; persistent = true; credentials = creds }, w)
  store_of path none w =
      let (creds, w') = default_data w in
      let (saved, w'') = try_save path creds w' in
      (record { path = path; persistent = saved; credentials = creds }, w'')

  -- `CredentialStore(path)`
  pub load : Option Text → W → Store F × W
  unfolding loaded file_of store_of
  load path w = store_of path (loaded (file_of path w)) w

  -- a new password with a new salt
  unfoldable pub change_password : Option Text → Credentials F → W → Credentials F × W
  change_password none creds w = (creds, w)
  change_password (some password) creds w =
      let (salt, w') = m.token_bytes w in
      (record creds { salt = c.hex salt; hash = c.hex (c.hash_password password salt) }, w')

  unfoldable pub update_credentials : Option Text → Option Text → Store F → W → Store F × W
  unfolding change_password change_username try_save
  update_credentials new_username new_password s w =
      let (creds, w') =
        change_password (present new_password)
          (change_username (present new_username) s.credentials) w in
      let (secret, w'') = m.token_hex w' in
      let creds' = record creds { session_secret = secret; updated_at = some (m.time w'') } in
      let (saved, w''') = try_save s.path creds' w'' in
      (record { path = s.path; persistent = saved; credentials = creds' }, w''')

  -- `_credentials_path`
  pub credentials_path : W → Option Text
  credentials_path w = present (some (strip (or_else (m.path_variable w) [])))

  same_path : Option Text → Option Text → Bool
  same_path none none = true
  same_path (some p) (some q) = text_eq p q
  same_path _ _ = false

  -- `_stores.get(path)`
  pub cached : Option Text → List (Option Text × Store F) → Option (Store F)
  unfolding same_path
  cached path [] = none
  cached path ((p, s) ∷ stores) = if same_path path p then some s else cached path stores

  store_at :
      Option Text
      → Option (Store F)
      → List (Option Text × Store F)
      → W
      → Store F × List (Option Text × Store F) × W
  unfolding load
  store_at path (some s) stores w = (s, stores, w)
  store_at path none stores w = let (s, w') = load path w in (s, (path, s) ∷ stores, w')

  pub get_store : List (Option Text × Store F) → W → Store F × List (Option Text × Store F) × W
  unfolding cached store_at credentials_path
  get_store stores w = store_at (credentials_path w) (cached (credentials_path w) stores) stores w
