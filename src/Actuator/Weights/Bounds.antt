-- ===== src/Actuator/Weights/Bounds.antt =====
-- One weight of a backend under actuator/router.py, `clamp_weight_change`.
use samsung.Prelude.{
  ℕ, zero, suc, ◌*◌, ◌-◌, ◌≤◌, ℤ, pos, abs, ◌-ℤ◌, ◌≤ℤ◌, ◌<ℤ◌, ◌≡◌, int_laws, arith,
}
use samsung.Actuator.Weights.{clamp_weight_change}

-- The new weight is between 0 and 100, and it differs from a current weight in that range by 30 at
-- most, whatever the target.
pub clamp_weight_change_bounds :
    (current target : ℤ)
    → pos 0 ≤ℤ current
    → current ≤ℤ pos 100
    → (pos 0 ≤ℤ clamp_weight_change current target)
      × (clamp_weight_change current target ≤ℤ pos 100)
      × (abs (clamp_weight_change current target -ℤ current) ≤ 30)
unfolding clamp_weight_change
clamp_weight_change_bounds current target h k = grind int_laws

-- A current weight above 130 becomes 100 at once, whatever the target that is not above it: the change is
-- then larger than 30.
pub clamp_weight_change_above :
    (current target : ℤ)
    → pos 130 <ℤ current
    → target ≤ℤ current
    → (clamp_weight_change current target ≡ pos 100)
      × (suc 30 ≤ abs (clamp_weight_change current target -ℤ current))
unfolding clamp_weight_change
clamp_weight_change_above current target h k = (grind int_laws, grind int_laws)

-- the same target over a number of reconciles
pub weight_after : ℕ → ℤ → ℤ → ℤ
weight_after zero target current = current
weight_after (suc n) target current = weight_after n target (clamp_weight_change current target)

gap-clamp_weight_change :
    (current target : ℤ)
    → pos 0 ≤ℤ current
    → current ≤ℤ pos 100
    → pos 0 ≤ℤ target
    → target ≤ℤ pos 100
    → abs (clamp_weight_change current target -ℤ target) ≤ abs (current -ℤ target) - 30
unfolding clamp_weight_change
gap-clamp_weight_change current target a b c d = grind int_laws

-- A weight and a target between 0 and 100: once as many reconciles have run as steps of 30 fit
-- into their distance, the weight is the target.
pub weight_after-converge :
    (n : ℕ) (current target : ℤ)
    → pos 0 ≤ℤ current
    → current ≤ℤ pos 100
    → pos 0 ≤ℤ target
    → target ≤ℤ pos 100
    → abs (current -ℤ target) ≤ n * 30
    → weight_after n target current ≡ target
unfolding weight_after
weight_after-converge zero current target a b c d h = grind int_laws
weight_after-converge (suc n) current target a b c d h =
    let next = clamp_weight_change_bounds current target a b in
    let closer = gap-clamp_weight_change current target a b c d in
    weight_after-converge n (clamp_weight_change current target) target next.0 next.1 c d
      (omega arith)
