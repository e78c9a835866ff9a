-- ===== src/Policy/Engine/Cycles.antt =====
-- Reconciles in a row: what each of them sees, and what it hands on to the next (policy/engine.py).
use samsung.Prelude.{◌≡◌, Option, none, some, List, [], ◌∷◌, Float}
use samsung.Schemas.{ActionType, TrafficSnapshot, Weights, Decision, Spec}
use samsung.Policy.Baseline.{Store}
use samsung.Policy.Status.{Status, Previous, prev_decision, to_previous}
use samsung.Policy.Engine.{evaluate}

-- what one reconcile sees: the snapshot, the status, the clock and the baselines
pub record Cycle (F : Type 0) : Type 0 where
  pub snapshot : TrafficSnapshot F
  pub status : Status F
  pub wall : F
  pub store : Store F

module _ {F : Type 0} ⦃fl : Float F⦄ (spec : Spec F) where
  abbrev pub decision : Cycle F → Option (Decision F)
  decision c = (evaluate spec c.snapshot c.status c.wall c.store).0

  abbrev pub action_of : Option (Decision F) → Option ActionType
  action_of none = none
  action_of (some d) = some d.action

  abbrev pub weights_of : Option (Decision F) → Option Weights
  weights_of none = none
  weights_of (some d) = d.backend_weights

  abbrev pub end_of : Option (Decision F) → Option F
  end_of none = none
  end_of (some d) = d.cooldown_until

  -- what the status holds after a reconcile; an evaluation that raised leaves it
  abbrev pub after : Previous F → Option (Decision F) → Previous F
  after p none = p
  after p (some d) = to_previous d

  -- Each reconcile finds in its status the decision of the one before.
  abbrev pub Linked : Previous F → List (Cycle F) → Type 0
  Linked p [] = Unit
  Linked p (c ∷ cs) = (prev_decision c.status ≡ p) × Linked (after p (decision c)) cs
