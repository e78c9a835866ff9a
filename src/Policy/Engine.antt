-- ===== src/Policy/Engine.antt =====
-- policy/engine.py: `evaluate`, one function for each of its stages. The store of baselines is
-- threaded; the decision is `none` where `math.ceil` raises.
pub mod Stages
pub mod Cycles
pub mod Quiet
pub mod Recovering
pub mod Contract
pub mod Routing
pub mod Forgets
pub mod HeldBack
pub mod Learning
use samsung.Prelude.{
  ℤ, pos, ltb_ℤ, leb_ℤ, ◌+◌, Bool, false, not, ◌&&◌, ◌||◌, Option, none, some, [], ◌∷◌, ◌++◌, Text,
  Float, nonempty, or_else, if◌then◌else◌, ◌>>=◌,
}
use samsung.Schemas.{
  TrafficSnapshot, Decision, new_decision, noop, scale, reroute, isolate_backend, Spec, is_ok,
  is_critical,
}
use samsung.Policy.Baseline.{Baseline, Store, target_key, get_baseline, observe, put}
use samsung.Policy.Anomaly.{AnomalyAssessment, error_anomaly, any_anomaly, summary, assess_anomaly}
use samsung.Policy.Scaling.{Direction, up, down, assess_scaling, capacity_target_for_anomaly}
use samsung.Policy.Status.{
  Status, thresholds_of, actions_of, cooldown_remaining, carry_cooldown_until,
  carry_backend_weights,
}
use samsung.Policy.Recovery.{Marker, recovery_state}
use samsung.Policy.Weights.{isolate_weight, current_pods, isolation_weights, healthy_weights}
use samsung.Policy.Messages.{
  snapshot_reason, isolate_reason, isolation_denied, grow_reason, no_growth_reason, reroute_reason,
  normal_reason, cooldown_reason,
}

module _ {F : Type 0} ⦃fl : Float F⦄ where
  open fl use {of_int, add, eq, le}

  abbrev truthy : F → Bool
  truthy x = not (eq x (of_int (pos 0)))

  -- the observation time; `wall` is what `time.time()` returns
  unfoldable pub now_of : TrafficSnapshot F → F → F
  now_of s wall =
      let t = if truthy s.timestamp then s.timestamp else wall in
      if not (truthy t) || le t (of_int (pos 0)) then wall else t

  abbrev pub cooldown_seconds_of : Spec F → ℤ
  cooldown_seconds_of spec = or_else (actions_of spec).cooldown_seconds (pos 0)

  -- the end of the cooldown that an action starts
  abbrev cooldown_end : Spec F → F → Option F
  cooldown_end spec now =
      if leb_ℤ (cooldown_seconds_of spec) (pos 0)
      then none
      else some (add now (of_int (cooldown_seconds_of spec)))

  pub unobserved : TrafficSnapshot F → Decision F
  unobserved s = new_decision noop (snapshot_reason s.status)

  pub suppressed : Spec F → Status F → AnomalyAssessment F → F → Decision F
  suppressed spec status a remaining =
      record (new_decision noop
        (cooldown_reason remaining (cooldown_seconds_of spec) (summary a.reasons))) {
          severity = a.severity;
          anomaly_score = a.score;
          cooldown_until = carry_cooldown_until status;
          backend_weights = carry_backend_weights status;
        }

  pub isolate : Spec F → TrafficSnapshot F → AnomalyAssessment F → F → Decision F
  isolate spec snapshot a now =
      record (new_decision isolate_backend (
        isolate_reason a.culprit_backends (isolate_weight a.severity) a.severity
          (summary a.reasons))) {
            backend_weights =
                some (isolation_weights snapshot a.culprit_backends (isolate_weight a.severity));
            severity = a.severity;
            anomaly_score = a.score;
            cooldown_until = cooldown_end spec now;
          }

  grow : Spec F → AnomalyAssessment F → F → ℤ → ℤ → Decision F
  grow spec a now current target =
      record (new_decision scale (grow_reason a.severity current target (summary a.reasons))) {
        target_replicas = some target;
        severity = a.severity;
        anomaly_score = a.score;
        cooldown_until = cooldown_end spec now;
      }

  no_growth : AnomalyAssessment F → Option ℤ → Option ℤ → Decision F
  no_growth a current target =
      record (new_decision noop (no_growth_reason a.severity current target (summary a.reasons))) {
        severity = a.severity;
        anomaly_score = a.score;
      }

  -- stage 2, with the capacity target at hand
  grow_to : Spec F → AnomalyAssessment F → F → Option ℤ → Option ℤ → Decision F
  unfolding grow no_growth
  grow_to spec a now (some current) (some target) =
      if ltb_ℤ current target
      then grow spec a now current target
      else no_growth a (some current) (some target)
  grow_to spec a now current target = no_growth a current target

  pub grow_for_anomaly : Spec F → TrafficSnapshot F → AnomalyAssessment F → F → Option (Decision F)
  grow_for_anomaly spec snapshot a now = do
    target ←
        capacity_target_for_anomaly snapshot.rps (current_pods snapshot)
          (thresholds_of spec).target_rps_per_pod (actions_of spec).min_replicas
          (actions_of spec).max_replicas
    some (grow_to spec a now (current_pods snapshot) target)

  -- stage 3, with the marker of the recovery so far
  pub recover : AnomalyAssessment F → Marker → Decision F
  recover a m =
      record (new_decision reroute
        (reroute_reason (record m { done = m.done + 1 }) (summary a.reasons))) {
          backend_weights = some (healthy_weights m.backends []);
          anomaly_score = a.score;
        }

  stay : AnomalyAssessment F → Text → Decision F
  stay a scale_reason = record (new_decision noop (normal_reason scale_reason)) {
    anomaly_score = a.score;
  }

  rescale : Spec F → AnomalyAssessment F → F → Text → ℤ → Decision F
  rescale spec a now scale_reason target = record (new_decision scale scale_reason) {
    target_replicas = some target;
    anomaly_score = a.score;
    cooldown_until = cooldown_end spec now;
  }

  -- stages 4 to 6, by the direction and the target of the scale assessment
  scale_or_stay : Spec F → AnomalyAssessment F → F → Text → Direction → Option ℤ → Decision F
  unfolding stay rescale
  scale_or_stay spec a now scale_reason up (some n) = rescale spec a now scale_reason n
  scale_or_stay spec a now scale_reason down (some n) = rescale spec a now scale_reason n
  scale_or_stay spec a now scale_reason _ _ = stay a scale_reason

  pub scale_by_load : Spec F → TrafficSnapshot F → AnomalyAssessment F → F → Option (Decision F)
  scale_by_load spec snapshot a now = do
    s ←
        assess_scaling snapshot.rps (current_pods snapshot) (thresholds_of spec).target_rps_per_pod
          (thresholds_of spec).scale_down_rps_per_pod (actions_of spec).min_replicas
          (actions_of spec).max_replicas
    some (scale_or_stay spec a now s.reason s.direction s.target_replicas)

  -- stages 2 to 6
  pub respond :
      Spec F → TrafficSnapshot F → AnomalyAssessment F → F → Option Marker → Option (Decision F)
  respond spec snapshot a now recovery =
      if any_anomaly a
      then grow_for_anomaly spec snapshot a now
      else elim recovery [ some m ↦ some (recover a m) | none ↦ scale_by_load spec snapshot a now ]

  -- what is left of stage 1 where isolation is not allowed
  pub deny_isolation : AnomalyAssessment F → AnomalyAssessment F
  deny_isolation a = record a { reasons = a.reasons ++ isolation_denied a.culprit_backends ∷ [] }

  -- (D): the six stages in the order of their priority
  pub prioritise :
      Spec F → TrafficSnapshot F → AnomalyAssessment F → F → Option Marker → Option (Decision F)
  prioritise spec snapshot a now recovery =
      if error_anomaly a && nonempty a.culprit_backends
      then if or_else (actions_of spec).allow_route_isolation false
        then some (isolate spec snapshot a now)
        else respond spec snapshot (deny_isolation a) now recovery
      else respond spec snapshot a now recovery

  -- (C) and (D), from the remaining cooldown on
  decide_after :
      Spec F
      → TrafficSnapshot F
      → Status F
      → AnomalyAssessment F
      → F
      → Option F
      → Option (Decision F)
  decide_after spec snapshot status a now (some remaining) =
      some (suppressed spec status a remaining)
  decide_after spec snapshot status a now none =
      prioritise spec snapshot a now (recovery_state status)

  pub decide : Spec F → TrafficSnapshot F → Status F → AnomalyAssessment F → F → Option (Decision F)
  decide spec snapshot status a now =
      decide_after spec snapshot status a now
        (cooldown_remaining status (cooldown_seconds_of spec) now)

  unfoldable pub assess : Spec F → TrafficSnapshot F → Baseline F → AnomalyAssessment F
  assess spec snapshot b =
      assess_anomaly snapshot b (thresholds_of spec).scale_up_error_rate
        (thresholds_of spec).max_p99_latency_ms

  -- the store once (B) is done: what a critical interval shows is not learnt
  pub learn : Spec F → TrafficSnapshot F → AnomalyAssessment F → Baseline F × Store F → Store F
  learn spec snapshot a (b, store) =
      if is_critical a.severity
      then store
      else put (target_key spec) (observe snapshot.error_rate snapshot.p99_latency_ms b) store

  -- (B) to (D), with the baseline of the target at hand
  evaluate_observed :
      Spec F
      → TrafficSnapshot F
      → Status F
      → F
      → Baseline F × Store F
      → Option (Decision F) × Store F
  evaluate_observed spec snapshot status now found =
      let a = assess spec snapshot found.0 in
      (decide spec snapshot status a now, learn spec snapshot a found)

  pub evaluate : Spec F → TrafficSnapshot F → Status F → F → Store F → Option (Decision F) × Store F
  evaluate spec snapshot status wall store =
      if is_ok snapshot.status
      then evaluate_observed spec snapshot status (now_of snapshot wall) (get_baseline spec store)
      else (some (unobserved snapshot), store)
