-- ===== src/Policy/Engine/Routing.antt =====
-- Exactly when `evaluate` isolates a backend, and exactly when it reroutes (policy/engine.py).
use samsung.Prelude.{
  if◌then◌else◌, ℤ, ◌≡◌, refl, Bool, true, false, ◌&&◌, not, Option, none, some, is_some, Text,
  Float, nonempty, or_else, ◌>>=◌, arith,
}
use samsung.Schemas.{ActionType, reroute, isolate_backend, TrafficSnapshot, Decision, Spec, is_ok}
use samsung.Policy.Baseline.{Store, get_baseline}
use samsung.Policy.Anomaly.{AnomalyAssessment, any_anomaly, error_anomaly}
use samsung.Policy.Scaling.{
  ScaleAssessment, Direction, up, down, hold, assess_scaling, capacity_target_for_anomaly,
}
use samsung.Policy.Status.{Status, thresholds_of, actions_of, cooldown_remaining}
use samsung.Policy.Recovery.{Marker, recovery_state}
use samsung.Policy.Weights.{current_pods}
use samsung.Policy.Engine.{
  evaluate, evaluate_observed, assess, decide, decide_after, prioritise, respond, recover, isolate,
  suppressed, unobserved, deny_isolation, grow_for_anomaly, grow_to, grow, no_growth, scale_by_load,
  scale_or_stay, cooldown_seconds_of, now_of,
}

-- what the action of a decision does to the routes
abbrev pub isolates : Option ActionType → Bool
isolates (some isolate_backend) = true
isolates _ = false

abbrev pub reroutes : Option ActionType → Bool
reroutes (some reroute) = true
reroutes _ = false

module _ {F : Type 0} where
  abbrev pub action : Option (Decision F) → Option ActionType
  action none = none
  action (some d) = some d.action

  -- a decision that leaves the routes alone
  abbrev LeavesRoutes : Option (Decision F) → Type 0
  LeavesRoutes o = (isolates (action o) ≡ false) × (reroutes (action o) ≡ false)

module _ {F : Type 0} ⦃fl : Float F⦄ (spec : Spec F) (a : AnomalyAssessment F) (now : F) where
  choice_leaves :
      (reason : Text) (dir : Direction) (t : Option ℤ)
      → LeavesRoutes (some (scale_or_stay spec a now reason dir t))
  unfolding scale_or_stay
  choice_leaves reason up (some n) = (refl, refl)
  choice_leaves reason up none = (refl, refl)
  choice_leaves reason down (some n) = (refl, refl)
  choice_leaves reason down none = (refl, refl)
  choice_leaves reason hold t = (refl, refl)

  load_leaves : (snapshot : TrafficSnapshot F) → LeavesRoutes (scale_by_load spec snapshot a now)
  unfolding scale_by_load
  load_leaves snapshot = by_scaling (
      assess_scaling snapshot.rps (current_pods snapshot) (thresholds_of spec).target_rps_per_pod
        (thresholds_of spec).scale_down_rps_per_pod (actions_of spec).min_replicas
        (actions_of spec).max_replicas)
    where
      by_scaling :
          (o : Option (ScaleAssessment F))
          → LeavesRoutes
              (o >>= λ s. some (scale_or_stay spec a now s.reason s.direction s.target_replicas))
      by_scaling none = (refl, refl)
      by_scaling (some s) = choice_leaves s.reason s.direction s.target_replicas

  grow_to_leaves :
      (current target : Option ℤ) → LeavesRoutes (some (grow_to spec a now current target))
  unfolding grow_to grow no_growth
  grow_to_leaves (some n) (some t) = ground arith
  grow_to_leaves (some n) none = (refl, refl)
  grow_to_leaves none t = (refl, refl)

  grow_leaves : (snapshot : TrafficSnapshot F) → LeavesRoutes (grow_for_anomaly spec snapshot a now)
  unfolding grow_for_anomaly
  grow_leaves snapshot = by_target (
      capacity_target_for_anomaly snapshot.rps (current_pods snapshot)
        (thresholds_of spec).target_rps_per_pod (actions_of spec).min_replicas
        (actions_of spec).max_replicas)
    where
      by_target :
          (o : Option (Option ℤ))
          → LeavesRoutes (o >>= λ t. some (grow_to spec a now (current_pods snapshot) t))
      by_target none = (refl, refl)
      by_target (some t) = grow_to_leaves (current_pods snapshot) t

  respond_never_isolates :
      (snapshot : TrafficSnapshot F) (r : Option Marker)
      → isolates (action (respond spec snapshot a now r)) ≡ false
  unfolding respond recover
  respond_never_isolates snapshot none =
      ground (arith, (grow_leaves snapshot).0, (load_leaves snapshot).0)
  respond_never_isolates snapshot (some m) = ground (arith, (grow_leaves snapshot).0)

  respond_by_recovery :
      (snapshot : TrafficSnapshot F) (r : Option Marker)
      → reroutes (action (respond spec snapshot a now r)) ≡ (not (any_anomaly a) && is_some r)
  unfolding respond recover
  respond_by_recovery snapshot none =
      ground (arith, (grow_leaves snapshot).1, (load_leaves snapshot).1)
  respond_by_recovery snapshot (some m) = ground (arith, (grow_leaves snapshot).1)

module _ {F : Type 0} ⦃fl : Float F⦄ (spec : Spec F) (snapshot : TrafficSnapshot F) where
  -- the conditions under which stage 1 isolates
  abbrev pub may_isolate : AnomalyAssessment F → Bool
  may_isolate a =
      (error_anomaly a && nonempty a.culprit_backends)
      && or_else (actions_of spec).allow_route_isolation false

  prioritise_routes :
      (a : AnomalyAssessment F) (now : F) (r : Option Marker)
      → (isolates (action (prioritise spec snapshot a now r)) ≡ may_isolate a)
        × (reroutes (action (prioritise spec snapshot a now r))
            ≡ (not (any_anomaly a) && is_some r))
  unfolding prioritise isolate deny_isolation
  prioritise_routes a now r = (
    ground (
      arith,
      respond_never_isolates spec a now snapshot r,
      respond_never_isolates spec (deny_isolation a) now snapshot r,
    ),
    ground (
      arith,
      respond_by_recovery spec a now snapshot r,
      respond_by_recovery spec (deny_isolation a) now snapshot r,
    ),
  )

  decide_after_routes :
      (status : Status F) (a : AnomalyAssessment F) (now : F) (o : Option F)
      → (isolates (action (decide_after spec snapshot status a now o))
          ≡ (not (is_some o) && may_isolate a))
        × (reroutes (action (decide_after spec snapshot status a now o))
            ≡ (not (is_some o) && (not (any_anomaly a) && is_some (recovery_state status))))
  unfolding decide_after
  decide_after_routes status a now (some remaining) = unfold suppressed in (refl, refl)
  decide_after_routes status a now none = prioritise_routes a now (recovery_state status)

  module _ (status : Status F) (wall : F) (store : Store F) where
    -- whether the cooldown is over, and what the detection found
    abbrev pub is_free : Bool
    is_free =
        not (is_some (cooldown_remaining status (cooldown_seconds_of spec) (now_of snapshot wall)))

    abbrev pub found : AnomalyAssessment F
    found = assess spec snapshot (get_baseline spec store).0

    -- Exactly when each routing action is chosen: an isolation, if the target was observed, no cooldown
    -- is active, the error rate is anomalous with a culprit backend, and the spec allows isolation; a
    -- reroute, if the target was observed, no cooldown is active, there is no anomaly, and a
    -- recovery is unfinished.
    pub evaluate_routes :
        (isolates (action (evaluate spec snapshot status wall store).0)
          ≡ (is_ok snapshot.status && (is_free && may_isolate found)))
        × (reroutes (action (evaluate spec snapshot status wall store).0) ≡ (
            is_ok snapshot.status
            && (is_free && (not (any_anomaly found) && is_some (recovery_state status)))))
    unfolding evaluate evaluate_observed decide unobserved
    evaluate_routes = by_status (is_ok snapshot.status)
      where
        by_status :
            (b : Bool)
            → (isolates (
                  action
                    (if b
                      then evaluate_observed spec snapshot status
                          (now_of snapshot wall)
                          (get_baseline spec store)
                      else (some (unobserved snapshot), store)).0)
                ≡ (b && (is_free && may_isolate found)))
              × (reroutes (
                    action
                      (if b
                        then evaluate_observed spec snapshot status
                            (now_of snapshot wall)
                            (get_baseline spec store)
                        else (some (unobserved snapshot), store)).0)
                  ≡ (b
                      && (is_free && (not (any_anomaly found) && is_some (recovery_state status)))))
        by_status true =
            decide_after_routes status found (now_of snapshot wall)
              (cooldown_remaining status (cooldown_seconds_of spec) (now_of snapshot wall))
        by_status false = (refl, refl)
