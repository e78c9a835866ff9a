-- ===== src/Dashboard/Settings/Guard.antt =====
-- What a change of the settings takes (dashboard/app.py, `settings_submit`).
use samsung.Prelude.{
  Bool, true, false, Option, none, some, Text, text_eq→eq, length, nonempty, or_else, Float, ◌≡◌,
  ◌≤◌, refl, ◌⊎◌, inl, inr, Bool-cases, arith,
}
use samsung.Actuator.Environment.{present}
use samsung.Dashboard.Credentials.{Crypto, Machine, Store, verify}
use samsung.Dashboard.Settings.{is_refused, checked_changes, settings_submit}

-- a new password is none at all, or was repeated and is long enough
abbrev pub IsAccepted : Text → Text → Type 0
IsAccepted new_password confirm_password =
    (nonempty new_password ≡ false)
    ⊎ ((new_password ≡ confirm_password) × (4 ≤ length new_password))

is_refused-IsAccepted : (p q : Text) → is_refused p q ≡ false → IsAccepted p q
unfolding is_refused
is_refused-IsAccepted p q h = elim (Bool-cases (nonempty p)) [
  | inr e ↦ inl e
  | inl e ↦ inr (text_eq→eq p q (ground arith), ground arith)
]

module _ {W B F : Type 0} ⦃fl : Float F⦄ (c : Crypto B) (m : Machine W B F) (at : F) where
  checked_changes_guarded :
      (user new_username new_password confirm_password : Text) (s : Store F) (w : W)
      (o : Option Bool)
      → ((checked_changes c m at user new_username new_password confirm_password s w o).1 ≡ s)
        ⊎ ((o ≡ some true) × IsAccepted new_password confirm_password)
  unfolding checked_changes
  checked_changes_guarded user new_username new_password confirm_password s w none = inl refl
  checked_changes_guarded user new_username new_password confirm_password s w (some false) =
      inl refl
  checked_changes_guarded user new_username new_password confirm_password s w (some true) =
      elim (Bool-cases (is_refused new_password confirm_password)) [
        | inl e ↦ inl (rw e refl)
        | inr e ↦ inr (refl, is_refused-IsAccepted new_password confirm_password e)
      ]

  -- A submission of the settings leaves the store as it was, or the current password was right and
  -- the new one, if any, was repeated and has at least four characters.
  pub settings_submit_guarded :
      (current : Option Text) (current_password new_username new_password confirm_password : Text)
      (s : Store F) (w : W)
      → ((settings_submit c m at current current_password new_username new_password confirm_password
            s w).1
          ≡ s)
        ⊎ ((verify c s (or_else (present current) s.credentials.username) current_password
              ≡ some true)
            × IsAccepted new_password confirm_password)
  unfolding settings_submit
  settings_submit_guarded current current_password new_username new_password confirm_password s w =
      checked_changes_guarded (or_else (present current) s.credentials.username) new_username
        new_password confirm_password s w
        (verify c s (or_else (present current) s.credentials.username) current_password)
