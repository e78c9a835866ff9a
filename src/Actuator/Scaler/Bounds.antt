-- ===== src/Actuator/Scaler/Bounds.antt =====
-- The replicas that one call of the scaler may ask for (actuator/scaler.py, `clamp_replicas`).
use samsung.Prelude.{ℤ, pos, ◌+ℤ◌, ◌≤ℤ◌, ◌<ℤ◌, ◌-ℤ◌, Option, none, some, int_laws, abs, ◌≤◌}
use samsung.Actuator.Scaler.{within, limit_step, clamp_replicas}

-- a value between 0 and the bounds stays there
module _ (goal current step : ℤ) (positive : pos 0 <ℤ step) where
  limit_step_near :
      (limit_step goal current (some step) ≤ℤ current +ℤ step)
      × (current ≤ℤ limit_step goal current (some step) +ℤ step)
  unfolding limit_step
  limit_step_near = grind int_laws

  -- the limited goal is between the current value and the goal
  limit_step_between :
      (current ≤ℤ goal
        → (current ≤ℤ limit_step goal current (some step))
          × (limit_step goal current (some step) ≤ℤ goal))
      × (goal ≤ℤ current
          → (goal ≤ℤ limit_step goal current (some step))
            × (limit_step goal current (some step) ≤ℤ current))
  unfolding limit_step
  limit_step_between = (λ h. grind int_laws, λ h. grind int_laws)

module _ (target current : ℤ) (low high : Option ℤ) (step : ℤ) (positive : pos 0 <ℤ step) where
  -- With a positive step and a current number that is not negative, the new number of replicas is not
  -- negative and differs from the current one by the step at most, whatever the target and the bounds.
  pub clamp_replicas-near :
      pos 0 ≤ℤ current
      → (pos 0 ≤ℤ clamp_replicas target current low high (some step))
        × (clamp_replicas target current low high (some step) ≤ℤ current +ℤ step)
        × (current ≤ℤ clamp_replicas target current low high (some step) +ℤ step)
  unfolding clamp_replicas
  clamp_replicas-near h =
      grind (int_laws, limit_step_near (within target low high) current step positive)

  nearest :
      (z : ℤ)
      → pos 0 ≤ℤ current
      → pos 0 ≤ℤ within target low high
      → z ≤ℤ current +ℤ step
      → current ≤ℤ z +ℤ step
      → abs (clamp_replicas target current low high (some step) -ℤ within target low high)
        ≤ abs (z -ℤ within target low high)
  unfolding clamp_replicas limit_step
  nearest z h g up down = grind int_laws

  -- With a positive step, a current number and a bounded target that are not negative: the new number of
  -- replicas is not negative, it is within the step of the current one, and of all numbers z within
  -- the step it is nearest to the bounded target.
  pub clamp_replicas_nearest :
      (z : ℤ)
      → pos 0 ≤ℤ current
      → pos 0 ≤ℤ within target low high
      → z ≤ℤ current +ℤ step
      → current ≤ℤ z +ℤ step
      → (pos 0 ≤ℤ clamp_replicas target current low high (some step))
        × (clamp_replicas target current low high (some step) ≤ℤ current +ℤ step)
        × (current ≤ℤ clamp_replicas target current low high (some step) +ℤ step)
        × (abs (clamp_replicas target current low high (some step) -ℤ within target low high)
            ≤ abs (z -ℤ within target low high))
  clamp_replicas_nearest z h g up down =
      let (nonneg, above, below) = clamp_replicas-near h in
      (nonneg, above, below, nearest z h g up down)

-- A number of replicas within the bounds stays within them, with any step or none.
pub clamp_replicas_range :
    (target current low high : ℤ) (step : Option ℤ)
    → pos 0 ≤ℤ low
    → low ≤ℤ current
    → current ≤ℤ high
    → (low ≤ℤ clamp_replicas target current (some low) (some high) step)
      × (clamp_replicas target current (some low) (some high) step ≤ℤ high)
unfolding clamp_replicas within limit_step
clamp_replicas_range target current low high none p l h = grind int_laws
clamp_replicas_range target current low high (some step) p l h = grind int_laws
