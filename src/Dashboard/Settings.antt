-- ===== src/Dashboard/Settings.antt =====
-- dashboard/app.py, `settings_submit`: the change of the username and the password.
pub mod Guard
use samsung.Prelude.{
  ℕ, Bool, true, false, ◌&&◌, ◌||◌, not, Option, none, some, Text, text_eq, length, ltb, nonempty,
  or_else, Float, if◌then◌else◌, ◌>>=◌,
}
use samsung.Actuator.Environment.{present, strip}
use samsung.Dashboard.Credentials.{Crypto, Credentials, Machine, Store, verify, update_credentials}
use samsung.Dashboard.Sessions.{issue_session}
use samsung.Dashboard.Access.{Answer, page, redirect, kept, set_to, session_ttl}

abbrev pub min_password_len : ℕ
min_password_len = 4

-- whether a new password is refused: its repetition differs, or it is too short
pub is_refused : Text → Text → Bool
is_refused new_password confirm_password =
    (nonempty new_password || nonempty confirm_password)
    && (not (text_eq new_password confirm_password) || ltb (length new_password) min_password_len)

-- whether neither the name nor the password changes
pub is_no_change : Text → Text → Text → Bool
is_no_change user new_username new_password =
    not (nonempty new_username && not (text_eq new_username user)) && not (nonempty new_password)

module _ {W B F : Type 0} ⦃fl : Float F⦄ (c : Crypto B) (m : Machine W B F) (at : F) where
  -- the new cookie; none where the signing raises
  pub changed_answer : Text → Store F → Option Answer
  changed_answer final_user s = do
    token ← issue_session c s.credentials final_user session_ttl at
    some (page 200 (set_to token))

  -- the change itself
  pub apply_changes : Text → Text → Text → Store F → W → Option Answer × Store F × W
  unfolding changed_answer
  apply_changes user new_username new_password s w =
      let (s', w') =
        update_credentials c m (present (some new_username)) (present (some new_password)) s w in
      (changed_answer (if nonempty new_username then new_username else user) s', s', w')

  -- what follows the check of the current password
  pub checked_changes :
      Text → Text → Text → Text → Store F → W → Option Bool → Option Answer × Store F × W
  unfolding is_refused is_no_change apply_changes
  checked_changes user new_username new_password confirm_password s w none = (none, s, w)
  checked_changes user new_username new_password confirm_password s w (some false) =
      (some (page 400 kept), s, w)
  checked_changes user new_username new_password confirm_password s w (some true) =
      if is_refused new_password confirm_password
      then (some (page 400 kept), s, w)
      else if is_no_change user (strip new_username) new_password
      then (some (page 400 kept), s, w)
      else apply_changes user (strip new_username) new_password s w

  -- `user` is the name of the request, or else the one of the store
  pub settings_submit :
      Option Text → Text → Text → Text → Text → Store F → W → Option Answer × Store F × W
  unfolding checked_changes
  settings_submit current current_password new_username new_password confirm_password s w =
      let user = or_else (present current) s.credentials.username in
      checked_changes user new_username new_password confirm_password s w
        (verify c s user current_password)
