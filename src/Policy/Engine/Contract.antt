-- ===== src/Policy/Engine/Contract.antt =====
-- What every decision of `evaluate` promises to the actuator (policy/engine.py, and the rules that
-- schemas.py states for Decision).
use samsung.Prelude.{
  ℤ, ◌≡◌, refl, true, false, ◌&&◌, Option, none, some, is_some, Text, Float, nonempty, or_else,
  if_keeps, ◌>>=◌, arith,
}
use samsung.Schemas.{
  ActionType, noop, scale, reroute, isolate_backend, other, TrafficSnapshot, Weights, Decision,
  Spec, is_ok,
}
use samsung.Policy.Baseline.{Store, get_baseline}
use samsung.Policy.Anomaly.{AnomalyAssessment, any_anomaly, error_anomaly}
use samsung.Policy.Scaling.{
  ScaleAssessment, Direction, up, down, hold, assess_scaling, capacity_target_for_anomaly,
}
use samsung.Policy.Status.{Status, thresholds_of, actions_of, cooldown_remaining}
use samsung.Policy.Recovery.{Marker, recovery_state}
use samsung.Policy.Weights.{current_pods}
use samsung.Policy.Engine.{
  evaluate, evaluate_observed, assess, decide, decide_after, prioritise, respond, recover, isolate,
  suppressed, unobserved, deny_isolation, grow_for_anomaly, grow_to, grow, no_growth, scale_by_load,
  scale_or_stay, cooldown_seconds_of, now_of,
}

-- Which fields a decision has, by its action.
abbrev pub Contract : ActionType → Option ℤ → Option Weights → Type 0
Contract noop target weights = target ≡ none
Contract scale target weights = (is_some target ≡ true) × (weights ≡ none)
Contract reroute target weights = (target ≡ none) × (is_some weights ≡ true)
Contract isolate_backend target weights = (target ≡ none) × (is_some weights ≡ true)
Contract (other t) target weights = ⊥

module _ {F : Type 0} where
  abbrev pub Kept : Option (Decision F) → Type 0
  Kept none = Unit
  Kept (some d) = Contract d.action d.target_replicas d.backend_weights

module _ {F : Type 0} ⦃fl : Float F⦄ (spec : Spec F) (a : AnomalyAssessment F) (now : F) where
  choice-Kept :
      (reason : Text) (dir : Direction) (t : Option ℤ)
      → Kept (some (scale_or_stay spec a now reason dir t))
  unfolding scale_or_stay
  choice-Kept reason up (some n) = (refl, refl)
  choice-Kept reason up none = refl
  choice-Kept reason down (some n) = (refl, refl)
  choice-Kept reason down none = refl
  choice-Kept reason hold t = refl

  load-Kept : (snapshot : TrafficSnapshot F) → Kept (scale_by_load spec snapshot a now)
  unfolding scale_by_load
  load-Kept snapshot = by_scaling (
      assess_scaling snapshot.rps (current_pods snapshot) (thresholds_of spec).target_rps_per_pod
        (thresholds_of spec).scale_down_rps_per_pod (actions_of spec).min_replicas
        (actions_of spec).max_replicas)
    where
      by_scaling :
          (o : Option (ScaleAssessment F))
          → Kept (o >>= λ s. some (scale_or_stay spec a now s.reason s.direction s.target_replicas))
      by_scaling none = tt
      by_scaling (some s) = choice-Kept s.reason s.direction s.target_replicas

  grow_to-Kept : (current target : Option ℤ) → Kept (some (grow_to spec a now current target))
  unfolding grow_to grow no_growth
  grow_to-Kept (some n) (some t) = ground arith
  grow_to-Kept (some n) none = refl
  grow_to-Kept none t = refl

  grow-Kept : (snapshot : TrafficSnapshot F) → Kept (grow_for_anomaly spec snapshot a now)
  unfolding grow_for_anomaly
  grow-Kept snapshot = by_target (
      capacity_target_for_anomaly snapshot.rps (current_pods snapshot)
        (thresholds_of spec).target_rps_per_pod (actions_of spec).min_replicas
        (actions_of spec).max_replicas)
    where
      by_target :
          (o : Option (Option ℤ))
          → Kept (o >>= λ t. some (grow_to spec a now (current_pods snapshot) t))
      by_target none = tt
      by_target (some t) = grow_to-Kept (current_pods snapshot) t

module _ {F : Type 0} ⦃fl : Float F⦄ (spec : Spec F) (snapshot : TrafficSnapshot F) where
  respond-Kept :
      (a : AnomalyAssessment F) (now : F) (r : Option Marker) → Kept (respond spec snapshot a now r)
  unfolding respond
  respond-Kept a now none =
      if_keeps Kept (any_anomaly a) (grow-Kept spec a now snapshot) (load-Kept spec a now snapshot)
  respond-Kept a now (some m) =
      if_keeps Kept (any_anomaly a) (grow-Kept spec a now snapshot) (unfold recover in (refl, refl))

  prioritise-Kept :
      (a : AnomalyAssessment F) (now : F) (r : Option Marker)
      → Kept (prioritise spec snapshot a now r)
  unfolding prioritise
  prioritise-Kept a now r =
      if_keeps Kept (error_anomaly a && nonempty a.culprit_backends)
        (if_keeps Kept (or_else (actions_of spec).allow_route_isolation false)
          (unfold isolate in (refl, refl)) (respond-Kept (deny_isolation a) now r))
        (respond-Kept a now r)

  decide_after-Kept :
      (status : Status F) (a : AnomalyAssessment F) (now : F) (o : Option F)
      → Kept (decide_after spec snapshot status a now o)
  unfolding decide_after
  decide_after-Kept status a now (some remaining) = unfold suppressed in refl
  decide_after-Kept status a now none = prioritise-Kept a now (recovery_state status)

  -- Every decision keeps the rules of the contract: a scale has a target and no weights, a reroute and
  -- an isolation have weights and no target, a noop has no target, and there is no other action.
  pub evaluate-Kept :
      (status : Status F) (wall : F) (store : Store F)
      → Kept (evaluate spec snapshot status wall store).0
  unfolding evaluate evaluate_observed decide
  evaluate-Kept status wall store =
      if_keeps (λ (r : Option (Decision F) × Store F). Kept r.0) (is_ok snapshot.status)
        (decide_after-Kept status (assess spec snapshot (get_baseline spec store).0)
          (now_of snapshot wall)
          (cooldown_remaining status (cooldown_seconds_of spec) (now_of snapshot wall)))
        (unfold unobserved in refl)
