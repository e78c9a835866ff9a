-- ===== src/Policy/Engine/Forgets.antt =====
-- What an anomaly does to an unfinished recovery (policy/engine.py, stage 2 of `evaluate`).
use samsung.Prelude.{
  if◌then◌else◌, ◌∙◌, ℤ, ◌≡◌, refl, Bool, true, false, ◌&&◌, Option, none, some, Float, nonempty,
  or_else, ◌>>=◌, arith,
}
use samsung.Schemas.{TrafficSnapshot, Decision, Spec, is_ok}
use samsung.Policy.Baseline.{Store}
use samsung.Policy.Anomaly.{AnomalyAssessment, any_anomaly, error_anomaly}
use samsung.Policy.Scaling.{capacity_target_for_anomaly}
use samsung.Policy.Status.{Status, thresholds_of, actions_of, cooldown_remaining, to_previous}
use samsung.Policy.Recovery.{Marker, recovery_of, recovery_state}
use samsung.Policy.Weights.{current_pods}
use samsung.Policy.Engine.{
  evaluate, isolate, prioritise, respond, deny_isolation, grow_for_anomaly, grow_to, grow,
  no_growth, cooldown_seconds_of, now_of,
}
use samsung.Policy.Engine.Stages.{evaluate_observed_lem, decide_idle}
use samsung.Policy.Engine.Routing.{may_isolate, found}

module _ {F : Type 0} where
  -- The next reconcile finds nothing to recover in the decision.
  abbrev pub Forgets : Option (Decision F) → Type 0
  Forgets none = Unit
  Forgets (some d) = recovery_of (to_previous d) ≡ none

module _ {F : Type 0} ⦃fl : Float F⦄ (spec : Spec F) (a : AnomalyAssessment F) (now : F) where
  grow_to-Forgets : (current target : Option ℤ) → Forgets (some (grow_to spec a now current target))
  unfolding grow_to grow no_growth recovery_of
  grow_to-Forgets (some n) (some t) = ground arith
  grow_to-Forgets (some n) none = refl
  grow_to-Forgets none t = refl

  grow-Forgets : (snapshot : TrafficSnapshot F) → Forgets (grow_for_anomaly spec snapshot a now)
  unfolding grow_for_anomaly
  grow-Forgets snapshot = by_target (
      capacity_target_for_anomaly snapshot.rps (current_pods snapshot)
        (thresholds_of spec).target_rps_per_pod (actions_of spec).min_replicas
        (actions_of spec).max_replicas)
    where
      by_target :
          (o : Option (Option ℤ))
          → Forgets (o >>= λ t. some (grow_to spec a now (current_pods snapshot) t))
      by_target none = tt
      by_target (some t) = grow_to-Forgets (current_pods snapshot) t

  respond-Forgets :
      (snapshot : TrafficSnapshot F) (r : Option Marker)
      → any_anomaly a ≡ true
      → Forgets (respond spec snapshot a now r)
  unfolding respond
  respond-Forgets snapshot r h = rw h (grow-Forgets snapshot)

module _ {F : Type 0} ⦃fl : Float F⦄ (spec : Spec F) (snapshot : TrafficSnapshot F) where
  prioritise-Forgets :
      (a : AnomalyAssessment F) (now : F) (r : Option Marker)
      → any_anomaly a ≡ true
      → may_isolate spec snapshot a ≡ false
      → Forgets (prioritise spec snapshot a now r)
  unfolding prioritise deny_isolation
  prioritise-Forgets a now r h k =
      by_guards (error_anomaly a && nonempty a.culprit_backends)
        (or_else (actions_of spec).allow_route_isolation false) k
    where
      by_guards :
          (e i : Bool)
          → (e && i) ≡ false
          → Forgets (
              if e
              then (if i
                  then some (isolate spec snapshot a now)
                  else respond spec snapshot (deny_isolation a) now r)
              else respond spec snapshot a now r)
      by_guards true true q = absurd (ground arith)
      by_guards true false q = respond-Forgets spec (deny_isolation a) now snapshot r h
      by_guards false i q = respond-Forgets spec a now snapshot r h

  -- Where the target was observed, no cooldown is active, there is an anomaly, and stage 1 may not
  -- isolate: the decision, if there is one, leaves the next reconcile nothing to recover, also
  -- where this one found an unfinished recovery.
  pub evaluate-Forgets :
      (status : Status F) (wall : F) (store : Store F)
      → is_ok snapshot.status ≡ true
      → cooldown_remaining status (cooldown_seconds_of spec) (now_of snapshot wall) ≡ none
      → any_anomaly (found spec snapshot status wall store) ≡ true
      → may_isolate spec snapshot (found spec snapshot status wall store) ≡ false
      → Forgets (evaluate spec snapshot status wall store).0
  evaluate-Forgets status wall store h i k q =
      let a = found spec snapshot status wall store in
      rw
        (evaluate_observed_lem spec snapshot status wall store h
          ∙ decide_idle spec snapshot status a (now_of snapshot wall) i)
        (prioritise-Forgets a (now_of snapshot wall) (recovery_state status) k q)
