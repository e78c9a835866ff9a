-- ===== src/Policy/Status.antt =====
-- policy/engine.py: what the engine reads from the status of the previous reconcile, and the
-- cooldown. The status is a dict that the operator itself wrote; a missing key is `none`.
pub mod Cooldown
use samsung.Prelude.{
  ℤ, pos, leb_ℤ, Bool, true, false, Option, none, some, Text, Float, nonempty, or_else,
  if◌then◌else◌,
}
use samsung.Schemas.{
  ActionType, noop, reroute, other, Weights, Decision, Spec, Thresholds, Actions, no_thresholds,
  no_actions,
}

-- a `lastDecision`
pub record Previous (F : Type 0) : Type 0 where
  pub action : Option ActionType
  pub reason : Option Text
  pub backend_weights : Option Weights
  pub cooldown_until : Option F

-- The dict of a decision, as the next reconcile reads it; kopf drops the null fields.
abbrev pub to_previous : {F : Type 0} → Decision F → Previous F
to_previous d = record {
  action = some d.action;
  reason = some d.reason;
  backend_weights = d.backend_weights;
  cooldown_until = d.cooldown_until;
}

-- `status.reconcile`; a decision that is missing or empty is `none`
pub record Reconcile (F : Type 0) : Type 0 where
  pub last_decision : Option (Previous F)
  pub last_reconcile_at : Option F

pub record Status (F : Type 0) : Type 0 where
  pub reconcile : Option (Reconcile F)
  pub last_decision : Option (Previous F)
  pub last_reconcile_at : Option F

-- the first that is present
abbrev first {ℓ} : {A : Type ℓ} → Option A → Option A → Option A
first (some a) o = some a
first none o = o

-- `prev_action and prev_action not in ("noop", "reroute")`
unfoldable pub is_effect : Option ActionType → Bool
is_effect none = false
is_effect (some noop) = false
is_effect (some reroute) = false
is_effect (some (other t)) = nonempty t
is_effect (some _) = true

module _ {F : Type 0} where
  abbrev pub no_previous : Previous F
  no_previous = record {
    action = none;
    reason = none;
    backend_weights = none;
    cooldown_until = none;
  }

  abbrev no_reconcile : Reconcile F
  no_reconcile = record { last_decision = none; last_reconcile_at = none }

  abbrev pub thresholds_of : Spec F → Thresholds F
  thresholds_of spec = or_else spec.thresholds no_thresholds

  abbrev pub actions_of : Spec F → Actions
  actions_of spec = or_else spec.actions no_actions

  unfoldable pub prev_decision : Status F → Previous F
  prev_decision s =
      or_else (first (or_else s.reconcile no_reconcile).last_decision s.last_decision) no_previous

  unfoldable pub prev_reconcile_at : Status F → Option F
  prev_reconcile_at s =
      first (or_else s.reconcile no_reconcile).last_reconcile_at s.last_reconcile_at

  unfoldable pub carry_cooldown_until : Status F → Option F
  unfolding prev_decision
  carry_cooldown_until s = (prev_decision s).cooldown_until

  unfoldable pub carry_backend_weights : Status F → Option Weights
  unfolding prev_decision
  carry_backend_weights s = (prev_decision s).backend_weights

module _ {F : Type 0} ⦃fl : Float F⦄ where
  open fl use {of_int, sub, lt}

  -- path (2): the time of the last reconcile, if its action changed something
  since_last : Option ActionType → Option F → ℤ → F → Option F
  since_last action none cooldown_seconds now = none
  since_last action (some at) cooldown_seconds now =
      let remaining = sub (of_int cooldown_seconds) (sub now at) in
      if is_effect action
      then if lt (of_int (pos 0)) remaining then some remaining else none
      else none

  -- path (1): the end that the previous decision carries, then path (2)
  until_end : Option F → F → Option F → Option F
  until_end none now otherwise = otherwise
  until_end (some end) now otherwise = if lt now end then some (sub end now) else otherwise

  pub cooldown_remaining : Status F → ℤ → F → Option F
  unfolding since_last until_end
  cooldown_remaining status cooldown_seconds now =
      if leb_ℤ cooldown_seconds (pos 0)
      then none
      else until_end (prev_decision status).cooldown_until now
          (since_last (prev_decision status).action (prev_reconcile_at status) cooldown_seconds now)
