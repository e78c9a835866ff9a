-- ===== src/Actuator/Scaler/Converge.antt =====
-- The scaler called again and again for one target (actuator/scaler.py).
use samsung.Prelude.{
  ℕ, zero, suc, ◌*◌, ◌-◌, ◌≤◌, ℤ, pos, pos_part, eqb_ℤ, eqb_ℤ→eq, abs, ◌-ℤ◌, ◌≤ℤ◌, ◌<ℤ◌, ◌≡◌, sym,
  Option, some, false, Bool-cases, inl, inr, Text, int_laws, arith,
}
use samsung.Actuator.Cluster.{Cluster, answer}
use samsung.Actuator.Scaler.{
  within, limit_step, clamp_replicas, ScaleOptions, move, patch_to, scale_deployment,
}

-- the distance to a goal
abbrev gap : ℤ → ℤ → ℕ
gap goal current = abs (current -ℤ goal)

gap_zero : (goal current : ℤ) → gap goal current ≤ 0 → current ≡ goal
gap_zero goal current h = grind int_laws

shrink : (a b s n : ℕ) → a ≤ b - s → b ≤ suc n * s → a ≤ n * s
shrink a b s n h k = grind arith

module _ (target : ℤ) (low high : Option ℤ) (step : ℤ) (positive : pos 0 <ℤ step)
    (goal_nonneg : pos 0 ≤ℤ within target low high) where
  -- one call closes the gap by the step, as far as it is open
  gap-clamp_replicas :
      (current : ℤ)
      → pos 0 ≤ℤ current
      → gap (within target low high) (clamp_replicas target current low high (some step))
        ≤ gap (within target low high) current - pos_part step
  unfolding clamp_replicas limit_step
  gap-clamp_replicas current h = grind int_laws

  clamp_replicas_nonneg :
      (current : ℤ) → pos 0 ≤ℤ clamp_replicas target current low high (some step)
  unfolding clamp_replicas
  clamp_replicas_nonneg current = grind int_laws

-- A cluster that serves the scale of one deployment: a read gives the replicas, and a patch sets them.
pub record ServesScale {W X : Type 0} (c : Cluster W X) (namespace name : Text) : Type 0 where
  pub replicas : W → ℤ
  pub read_answers : (w : W) → c.read_scale name namespace w ≡ (answer (some (replicas w)), w)
  pub patch_sets : (n : ℤ) (w : W) → replicas (c.patch_scale name namespace n w).1 ≡ n

module _ {W X : Type 0} (c : Cluster W X) (namespace name : Text) (target : ℤ)
    (o : ScaleOptions) where
  -- the world after a number of reconciles with the same decision
  pub scale_rounds : ℕ → W → W
  scale_rounds zero w = w
  scale_rounds (suc n) w = scale_rounds n (scale_deployment c namespace name target o w).1

  module _ (serves : ServesScale c namespace name) (wet : o.dry_run ≡ false) where
    -- Against a cluster that serves the scale, outside a dry run: one call brings the replicas to the
    -- clamped target.
    pub replicas-scale_deployment :
        (w : W)
        → serves.replicas (scale_deployment c namespace name target o w).1
          ≡ clamp_replicas target (serves.replicas w) o.min_replicas o.max_replicas o.max_scale_step
    unfolding scale_deployment move patch_to
    replicas-scale_deployment w =
        let current = serves.replicas w in
        let final = clamp_replicas target current o.min_replicas o.max_replicas o.max_scale_step in
        rw (serves.read_answers w, wet)
          (elim (Bool-cases (eqb_ℤ final current)) [
            | inl same ↦ rw same (sym (eqb_ℤ→eq final current same))
            | inr other ↦ rw other (serves.patch_sets final w)
          ])

    -- Against a cluster that serves the scale, outside a dry run, for a target that the bounds limit to
    -- a number not below 0, a positive maximal step, and current replicas not below 0: once as many
    -- reconciles have run as steps fit into the gap, the deployment has exactly the limited target.
    pub scale_rounds-converge :
        (n : ℕ) (step : ℤ) (w : W)
        → o.max_scale_step ≡ some step
        → pos 0 <ℤ step
        → pos 0 ≤ℤ within target o.min_replicas o.max_replicas
        → pos 0 ≤ℤ serves.replicas w
        → gap (within target o.min_replicas o.max_replicas) (serves.replicas w) ≤ n * pos_part step
        → serves.replicas (scale_rounds n w) ≡ within target o.min_replicas o.max_replicas
    unfolding scale_rounds
    scale_rounds-converge zero step w e p g r h =
        gap_zero (within target o.min_replicas o.max_replicas) (serves.replicas w) (omega arith)
    scale_rounds-converge (suc n) step w e p g r h =
        let w' = (scale_deployment c namespace name target o w).1 in
        let goal = within target o.min_replicas o.max_replicas in
        let moved : serves.replicas w'
            ≡ clamp_replicas target (serves.replicas w) o.min_replicas o.max_replicas (some step) =
          rw (← e) (replicas-scale_deployment w) in
        scale_rounds-converge n step w' e p g
          (rw moved (
            clamp_replicas_nonneg target o.min_replicas o.max_replicas step p g
              (serves.replicas w)))
          (rw moved (
            shrink _ _ (pos_part step) n
              (gap-clamp_replicas target o.min_replicas o.max_replicas step p g (serves.replicas w)
                r)
              h))
