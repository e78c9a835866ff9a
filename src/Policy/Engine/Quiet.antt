-- ===== src/Policy/Engine/Quiet.antt =====
-- Reconciles without an anomaly, and how they stay without a recovery (policy/engine.py, stages 3 to 6 of
-- `evaluate`).
use samsung.Prelude.{
  ◌≡◌, ◌≢◌, refl, ap, ◌∙◌, true, false, ℤ, ◌>>=◌, Option, none, some, List, [], ◌∷◌, Text, text_eq,
  Bool-cases, inl, inr, or_else, Float, arith,
}
use samsung.Schemas.{reroute, Weight, int, not_int, Weights, TrafficSnapshot, Spec, is_ok}
use samsung.Policy.Baseline.{get_baseline}
use samsung.Policy.Anomaly.{AnomalyAssessment, any_anomaly}
use samsung.Policy.Status.{
  thresholds_of, actions_of, Previous, prev_decision, is_effect, to_previous, cooldown_remaining,
  carry_backend_weights,
}
use samsung.Policy.Status.Cooldown.{cooldown_idle}
use samsung.Policy.Recovery.{
  recovery_of, recovery_state, degraded, start_recovery, is_reroute, healthy_weight,
}
use samsung.Policy.Weights.{current_pods, healthy_weights, set_weight}
use samsung.Policy.Scaling.{ScaleAssessment, Direction, up, down, hold, assess_scaling}
use samsung.Policy.Engine.{
  assess, respond, suppressed, cooldown_seconds_of, now_of, scale_by_load, scale_or_stay,
}
use samsung.Policy.Engine.Stages.{
  evaluate_observed_lem, decide_idle, decide_held_back, prioritise_quiet, respond_settled,
}
use samsung.Policy.Engine.Cycles.{Cycle, decision, action_of, after, Linked}

tail-degraded : (n : Text) (v : Weight) (d : Weights) → degraded ((n, v) ∷ d) ≡ [] → degraded d ≡ []
unfolding degraded
tail-degraded n (int w) d h = ground arith
tail-degraded n (not_int r) d h = h

degraded-set_weight :
    (n : Text) (d : Weights) → degraded d ≡ [] → degraded (set_weight n (int healthy_weight) d) ≡ []
unfolding degraded set_weight
degraded-set_weight n [] h = refl
degraded-set_weight n ((m, v) ∷ d) h = elim (Bool-cases (text_eq n m)) [
  | inl e ↦ rw e (tail-degraded m v d h)
  | inr e ↦ rw e (kept v h (degraded-set_weight n d (tail-degraded m v d h)))
]
  where
    kept :
        (v : Weight)
        → degraded ((m, v) ∷ d) ≡ []
        → degraded (set_weight n (int healthy_weight) d) ≡ []
        → degraded ((m, v) ∷ set_weight n (int healthy_weight) d) ≡ []
    kept (int w) h rest = ground arith
    kept (not_int r) h rest = rest

-- the healthy weights start no recovery
pub degraded-healthy :
    (names : List Text) (d : Weights) → degraded d ≡ [] → degraded (healthy_weights names d) ≡ []
unfolding healthy_weights
degraded-healthy [] d h = h
degraded-healthy (n ∷ ns) d h =
    degraded-healthy ns (set_weight n (int healthy_weight) d) (degraded-set_weight n d h)

module _ {F : Type 0} ⦃fl : Float F⦄ (spec : Spec F) where
  abbrev pub assessment : Cycle F → AnomalyAssessment F
  assessment c = assess spec c.snapshot (get_baseline spec c.store).0

  -- A reconcile that observed the target and found no anomaly.
  pub record IsQuiet (c : Cycle F) : Type 0 where
    pub observed : is_ok c.snapshot.status ≡ true
    pub no_anomaly : any_anomaly (assessment c) ≡ false

  -- A previous decision that holds no cooldown.
  pub record IsIdle (p : Previous F) : Type 0 where
    pub no_end : p.cooldown_until ≡ none
    pub no_effect : is_effect p.action ≡ false

  -- No cooldown holds the first of the reconciles back.
  abbrev pub StartsFree : List (Cycle F) → Type 0
  StartsFree [] = Unit
  StartsFree (c ∷ cs) =
      cooldown_remaining c.status (cooldown_seconds_of spec) (now_of c.snapshot c.wall) ≡ none

  pub idle-StartsFree :
      (p : Previous F) (cs : List (Cycle F)) → IsIdle p → Linked spec p cs → StartsFree cs
  idle-StartsFree p [] i l = tt
  idle-StartsFree p (c ∷ cs) i (e, l) =
      cooldown_idle c.status (cooldown_seconds_of spec) (now_of c.snapshot c.wall) (rw e i.no_end)
        (rw e i.no_effect)

  -- a quiet reconcile that no cooldown holds back comes to the recovery
  pub quiet_decision :
      (c : Cycle F) (p : Previous F)
      → IsQuiet c
      → prev_decision c.status ≡ p
      → cooldown_remaining c.status (cooldown_seconds_of spec) (now_of c.snapshot c.wall) ≡ none
      → decision spec c
        ≡ respond spec c.snapshot (assessment c) (now_of c.snapshot c.wall) (recovery_of p)
  quiet_decision c p q e i =
      evaluate_observed_lem spec c.snapshot c.status c.wall c.store q.observed
      ∙ decide_idle spec c.snapshot c.status (assessment c) (now_of c.snapshot c.wall) i
      ∙ prioritise_quiet spec c.snapshot (assessment c) (now_of c.snapshot c.wall)
          (recovery_state c.status) q.no_anomaly
      ∙ ap (λ r. respond spec c.snapshot (assessment c) (now_of c.snapshot c.wall) r)
          (unfold recovery_state in ap recovery_of e)

  choice-ne-reroute :
      (a : AnomalyAssessment F) (now : F) (reason : Text) (dir : Direction) (t : Option ℤ)
      → action_of spec (some (scale_or_stay spec a now reason dir t)) ≢ some reroute
  unfolding scale_or_stay
  choice-ne-reroute a now reason up (some n) = λ e. cc
  choice-ne-reroute a now reason up none = λ e. cc
  choice-ne-reroute a now reason down (some n) = λ e. cc
  choice-ne-reroute a now reason down none = λ e. cc
  choice-ne-reroute a now reason hold t = λ e. cc

  -- a load decision is none of the routing ones
  load-ne-reroute :
      (snapshot : TrafficSnapshot F) (a : AnomalyAssessment F) (now : F)
      → action_of spec (scale_by_load spec snapshot a now) ≢ some reroute
  unfolding scale_by_load
  load-ne-reroute snapshot a now = by_scaling (
      assess_scaling snapshot.rps (current_pods snapshot) (thresholds_of spec).target_rps_per_pod
        (thresholds_of spec).scale_down_rps_per_pod (actions_of spec).min_replicas
        (actions_of spec).max_replicas)
    where
      by_scaling :
          (o : Option (ScaleAssessment F))
          → action_of spec
              (o >>= λ s. some (scale_or_stay spec a now s.reason s.direction s.target_replicas))
            ≢ some reroute
      by_scaling none = λ e. cc
      by_scaling (some s) = choice-ne-reroute a now s.reason s.direction s.target_replicas

  -- A previous decision that leaves no recovery, neither by its reason nor by its weights.
  pub record Settled (p : Previous F) : Type 0 where
    pub no_recovery : recovery_of p ≡ none
    pub no_weights : start_recovery (degraded (or_else p.backend_weights [])) ≡ none

  -- a load decision has no weights, so that it leaves no recovery
  choice-Settled :
      (a : AnomalyAssessment F) (now : F) (reason : Text) (dir : Direction) (t : Option ℤ)
      → Settled (to_previous (scale_or_stay spec a now reason dir t))
  unfolding scale_or_stay is_reroute degraded start_recovery recovery_of
  choice-Settled a now reason up (some n) = record { no_recovery = refl; no_weights = refl }
  choice-Settled a now reason up none = record { no_recovery = refl; no_weights = refl }
  choice-Settled a now reason down (some n) = record { no_recovery = refl; no_weights = refl }
  choice-Settled a now reason down none = record { no_recovery = refl; no_weights = refl }
  choice-Settled a now reason hold t = record { no_recovery = refl; no_weights = refl }

  load-Settled :
      (snapshot : TrafficSnapshot F) (a : AnomalyAssessment F) (now : F) (p : Previous F)
      → Settled p
      → Settled (after spec p (scale_by_load spec snapshot a now))
  unfolding scale_by_load
  load-Settled snapshot a now p h = by_scaling (
      assess_scaling snapshot.rps (current_pods snapshot) (thresholds_of spec).target_rps_per_pod
        (thresholds_of spec).scale_down_rps_per_pod (actions_of spec).min_replicas
        (actions_of spec).max_replicas)
    where
      by_scaling :
          (o : Option (ScaleAssessment F))
          → Settled (
              after spec p
                (o >>= λ s. some (scale_or_stay spec a now s.reason s.direction s.target_replicas)))
      by_scaling none = h
      by_scaling (some s) = choice-Settled a now s.reason s.direction s.target_replicas

  held_back-Settled :
      (c : Cycle F) (p : Previous F) (a : AnomalyAssessment F) (remaining : F)
      → prev_decision c.status ≡ p
      → Settled p
      → Settled (to_previous (suppressed spec c.status a remaining))
  unfolding suppressed carry_backend_weights is_reroute recovery_of
  held_back-Settled c p a remaining e h =
      let weights = ap (λ x. start_recovery (degraded (or_else x.backend_weights []))) e in
      record { no_recovery = weights ∙ h.no_weights; no_weights = weights ∙ h.no_weights }

  -- a quiet reconcile after such a decision, whether a cooldown holds it back or not
  pub quiet-Settled :
      (c : Cycle F) (p : Previous F)
      → IsQuiet c
      → prev_decision c.status ≡ p
      → Settled p
      → (action_of spec (decision spec c) ≢ some reroute) × Settled (after spec p (decision spec c))
  quiet-Settled c p q e h =
      by_cooldown
        (cooldown_remaining c.status (cooldown_seconds_of spec) (now_of c.snapshot c.wall)) refl
    where
      by_cooldown :
          (o : Option F)
          → cooldown_remaining c.status (cooldown_seconds_of spec) (now_of c.snapshot c.wall) ≡ o
          → (action_of spec (decision spec c) ≢ some reroute)
            × Settled (after spec p (decision spec c))
      by_cooldown none i =
          let d =
            quiet_decision c p q e i
            ∙ ap (respond spec c.snapshot (assessment c) (now_of c.snapshot c.wall)) h.no_recovery
            ∙ respond_settled spec c.snapshot (assessment c) (now_of c.snapshot c.wall)
                q.no_anomaly in
          (
            rw d (load-ne-reroute c.snapshot (assessment c) (now_of c.snapshot c.wall)),
            rw d (load-Settled c.snapshot (assessment c) (now_of c.snapshot c.wall) p h),
          )
      by_cooldown (some remaining) i =
          let d =
            evaluate_observed_lem spec c.snapshot c.status c.wall c.store q.observed
            ∙ decide_held_back spec c.snapshot c.status (assessment c) (now_of c.snapshot c.wall)
                remaining i in
          (
            rw d (unfold suppressed in λ r. cc),
            rw d (held_back-Settled c p (assessment c) remaining e h),
          )
