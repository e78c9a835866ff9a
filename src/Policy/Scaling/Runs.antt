-- ===== src/Policy/Scaling/Runs.antt =====
-- Runs of policy/scaling.py at concrete inputs.
use samsung.Prelude.{ℕ, pos, ◌+ℤ◌, ◌≡◌, refl, some}
use samsung.Policy.Scaling.{
  ScaleAssessment, up, clamp, choose, assess_scaling, capacity_target_for_anomaly,
}
use samsung.Tests.Fixtures.{thousandths}

-- 300 requests for two pods, with a target of 100 for each
pub up_run :
    (s : ScaleAssessment ℕ) × (assess_scaling
        (some 300000)
        (some (pos 2))
        (some 100000)
        (some 50000)
        (some (pos 2))
        (some (pos 10))
      ≡ some s)
    × (s.direction ≡ up)
unfolding assess_scaling choose clamp thousandths ◌+ℤ◌
up_run = (_, refl, refl)

pub capacity_run :
    capacity_target_for_anomaly {F = ℕ}
      (some 300000)
      (some (pos 3))
      (some 100000)
      (some (pos 2))
      (some (pos 10))
    ≡ some (some (pos 4))
unfolding capacity_target_for_anomaly clamp thousandths ◌+ℤ◌
capacity_run = refl
