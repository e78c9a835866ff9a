-- ===== src/Tests/Dashboard.antt =====
-- Examples for the dashboard.
use samsung.Prelude.{
  ℕ, zero, suc, pos, true, false, none, some, [], ◌∷◌, Text, codes, text_eq, text_eq_refl,
  partition, every, ◌≡◌, ◌≢◌, refl, ◌⊎◌, or_else,
}
use samsung.Actuator.Environment.{present}
use samsung.Dashboard.Credentials.{
  Credentials, Machine, absent, Store, compare_digest, verify, update_credentials,
}
use samsung.Dashboard.Sessions.{session_user, issue_session}
use samsung.Dashboard.Sessions.Tokens.{token_of, session_user-issue_session, session_user_issued}
use samsung.Dashboard.Sessions.Genuine.{IsSigned, session_user-IsSigned}
use samsung.Dashboard.Sessions.Rotation.{changed, IsReadable, update_credentials_locks_out}
use samsung.Dashboard.Access.{
  Request, Http, passed, redirect, set_to, safe_next, is_public, auth_middleware, login_submit,
}
use samsung.Dashboard.Access.Guard.{IsAuthenticated, auth_middleware_guarded}
use samsung.Dashboard.Access.Login.{cookie_passes, login_submit_opens}
use samsung.Dashboard.Access.Runs.{flows_private}
use samsung.Dashboard.Settings.{settings_submit}
use samsung.Dashboard.Settings.Guard.{IsAccepted, settings_submit_guarded}
use samsung.Tests.Fixtures.{thousandths}
use samsung.Tests.Codec.{marking, marking-IsCodec}

-- the secret that is drawn in world w
zeros : ℕ → Text
zeros zero = []
zeros (suc n) = 0 ∷ zeros n

abbrev secret : ℕ → Text
secret w = w ∷ zeros 63

-- the login A with the password "word"; its secret was drawn in world 0
abbrev login : Credentials ℕ
login = record {
  username = codes "A";
  salt = codes "s";
  hash = codes "words";
  session_secret = secret 0;
  updated_at = none;
}

abbrev store : Store ℕ
store = record { path = none; persistent = false; credentials = login }

abbrev machine : Machine ℕ Text ℕ
machine = record {
  token_bytes = λ w. (codes "t", w);
  token_hex = λ w. (secret w, suc w);
  username_variable = λ w. none;
  password_variable = λ w. none;
  path_variable = λ w. none;
  time = λ w. 1000000;
  read = λ p w. absent;
  write = λ p creds w. (true, w);
}

abbrev http : Http
http = record { decode_basic = λ s. none; encode_next = λ s. s }

-- the token of a session up to second 44200
abbrev token : Text
token = token_of marking login 44200

abbrev request : Request
request = record { path = codes "/flows"; query = []; cookie = some token; authorization = none }

accepted : session_user marking login 1050000 (some token) ≡ some (some (codes "A"))
unfolding every thousandths zeros
accepted = session_user_issued marking marking-IsCodec login refl refl 44200 1050000 refl

verified : verify marking store (codes "A") (codes "word") ≡ some true
unfolding verify compare_digest every text_eq
verified = refl

session_user-issue_session_example :
    (t : Text) × (issue_session marking login (codes "A") (pos 43200) 1000000 ≡ some t)
    × (session_user marking login 1050000 (some t) ≡ some (some (codes "A")))
unfolding thousandths zeros
session_user-issue_session_example =
    session_user-issue_session marking marking-IsCodec login (unfold every in refl)
      (unfold every in refl) 1000 43200 1000000 1050000 refl refl

session_user-IsSigned_example : IsSigned marking login 1050000 (codes "A") (partition b'.' token)
session_user-IsSigned_example =
    session_user-IsSigned marking login 1050000 (codes "A") token accepted

update_credentials_locks_out_example :
    ((name password : Text)
      → verify marking
          (update_credentials marking machine (some (codes "관리자")) none store 0).0
          name
          password
        ≡ none)
    × ((at : ℕ) (t user : Text)
        → session_user marking
            (changed marking machine (some (codes "관리자")) none store 0)
            at
            (some t)
          ≢ some (some user))
update_credentials_locks_out_example =
    update_credentials_locks_out marking machine store (codes "관리자") none 0 refl
      (unfold every in refl)

marking-IsReadable : IsReadable marking machine
marking-IsReadable = record { from_hex-hex = λ b. refl; same = text_eq_refl }

auth_middleware_guarded_example :
    (is_public (codes "/flows") ≡ true)
    ⊎ ((user : Text) × (some (codes "A") ≡ some user)
        × IsAuthenticated marking http 1050000 store request user)
auth_middleware_guarded_example =
    auth_middleware_guarded marking http 1050000 store request [] (some (codes "A"))
      (cookie_passes marking http store 1050000 [] request (codes "A") refl accepted flows_private)

login_submit_opens_example :
    (login_submit marking http 1000000 [] store (codes "A") (codes "word") (codes "/flows")
      ≡ some (redirect (safe_next [] (some (codes "/flows"))) (set_to token)))
    × (auth_middleware marking http 1050000 [] store request ≡ some (passed (some (codes "A"))))
unfolding thousandths zeros
login_submit_opens_example =
    login_submit_opens marking http store marking-IsCodec (codes "A") (codes "word")
      (codes "/flows") [] 1000 1000000 1050000 request refl refl (unfold every in refl) verified
      refl refl flows_private

settings_submit_guarded_example :
    ((settings_submit marking machine 1000000 none
        (codes "word")
        []
        (codes "new1")
        (codes "new1")
        store
        0).1
      ≡ store)
    ⊎ ((verify marking store (or_else (present none) (codes "A")) (codes "word") ≡ some true)
        × IsAccepted (codes "new1") (codes "new1"))
settings_submit_guarded_example =
    settings_submit_guarded marking machine 1000000 none (codes "word") [] (codes "new1")
      (codes "new1") store 0
