-- ===== src/Policy/Status/Cooldown.antt =====
-- When the cooldown of policy/engine.py holds decisions back.
use samsung.Prelude.{
  ℤ, pos, ◌<ℤ◌, leb_ℤ, ◌≡◌, refl, true, false, Option, none, some, Float, Bool-cases, inl, inr,
  arith,
}
use samsung.Schemas.{ActionType}
use samsung.Policy.Status.{
  Status, prev_decision, prev_reconcile_at, is_effect, since_last, cooldown_remaining,
}

module _ {F : Type 0} ⦃fl : Float F⦄ (status : Status F) (cooldown_seconds : ℤ) (now : F) where
  since_last_idle :
      (action : Option ActionType) (at : Option F)
      → is_effect action ≡ false
      → since_last action at cooldown_seconds now ≡ none
  unfolding since_last
  since_last_idle action none h = refl
  since_last_idle action (some at) h = rw h

  -- without an end that is carried, and with no effect just behind
  pub cooldown_idle :
      (prev_decision status).cooldown_until ≡ none
      → is_effect (prev_decision status).action ≡ false
      → cooldown_remaining status cooldown_seconds now ≡ none
  unfolding cooldown_remaining
  cooldown_idle e h = elim (Bool-cases (leb_ℤ cooldown_seconds (pos 0))) [
    | inl off ↦ rw off
    | inr on ↦
        rw (on, e) (since_last_idle (prev_decision status).action (prev_reconcile_at status) h)
  ]

  -- before an end that is carried
  pub cooldown_until_end :
      (end : F)
      → pos 0 <ℤ cooldown_seconds
      → (prev_decision status).cooldown_until ≡ some end
      → fl.lt now end ≡ true
      → cooldown_remaining status cooldown_seconds now ≡ some (fl.sub end now)
  unfolding cooldown_remaining
  cooldown_until_end end p e h =
      let on : leb_ℤ cooldown_seconds (pos 0) ≡ false = ground arith in rw (on, e, h) refl
