-- ===== src/Tests/Actuator.antt =====
-- Examples for the actuator.
use samsung.Prelude.{
  ◌+ℤ◌, ◌⊎◌, ℕ, suc, ◌≤◌, ℤ, pos, abs, ◌-ℤ◌, ◌≤ℤ◌, ◌<ℤ◌, ◌≡◌, refl, false, Option, some, Text,
  codes, or_else, int_laws,
}
use samsung.Schemas.{isolate_backend, scale, Decision, new_decision}
use samsung.Actuator.Cluster.{answer}
use samsung.Actuator.Environment.{is_dry_run}
use samsung.Actuator.Scaler.{within, clamp_replicas, scale_deployment}
use samsung.Actuator.Scaler.Bounds.{clamp_replicas_nearest}
use samsung.Actuator.Scaler.Converge.{ServesScale, scale_rounds, scale_rounds-converge}
use samsung.Actuator.Scaler.Effects.{
  Refused, Patched, scale_deployment_kept, scale_deployment_applied,
}
use samsung.Actuator.Weights.{normalize_targets, clamp_weight_change, apply_weights_to_route}
use samsung.Actuator.Weights.Bounds.{clamp_weight_change_above, weight_after, weight_after-converge}
use samsung.Actuator.Weights.Entries.{RouteMoved, apply_weights_to_route-RouteMoved}
use samsung.Actuator.Router.{set_backend_weights}
use samsung.Actuator.Router.Rounds.{Wrote}
use samsung.Actuator.Router.Retry.{
  LoopEnded, set_backend_weights-LoopEnded, set_backend_weights_applied,
}
use samsung.Actuator.Scaler.Runs.{scaled, scale_deployment_run, locked_patch_fails}
use samsung.Actuator.Weights.Runs.{weights, targets}
use samsung.Actuator.Router.Runs.{set_backend_weights_run}
use samsung.Actuator.Executor.{apply}
use samsung.Actuator.Executor.Gates.{apply_dry, apply_denied}
use samsung.Tests.Fixtures.{
  World, cluster, locked, cluster-IsReadOnly, locked-IsReadOnly, route, world, process, policy,
  dry_policy, options,
}

abbrev web : Text
web = codes "web"

abbrev shop : Text
shop = codes "shop"

-- the scaler

step_positive : pos 0 <ℤ pos 2
step_positive = grind int_laws

goal_nonneg : pos 0 ≤ℤ within (pos 9) (some (pos 2)) (some (pos 10))
unfolding within
goal_nonneg = grind int_laws

clamp_replicas_nearest_example :
    let goal = within (pos 9) (some (pos 2)) (some (pos 10)) in
    let n = clamp_replicas (pos 9) (pos 3) (some (pos 2)) (some (pos 10)) (some (pos 2)) in
    (pos 0 ≤ℤ n)
    × (n ≤ℤ pos 3 +ℤ pos 2)
    × (pos 3 ≤ℤ n +ℤ pos 2)
    × (abs (n -ℤ goal) ≤ abs (pos 4 -ℤ goal))
clamp_replicas_nearest_example =
    clamp_replicas_nearest (pos 9) (pos 3) (some (pos 2)) (some (pos 10)) (pos 2) step_positive
      (pos 4) (grind int_laws) goal_nonneg (grind int_laws) (grind int_laws)

abbrev cluster_scale : ServesScale cluster shop web
cluster_scale = record { replicas = λ w. w.0; read_answers = λ w. refl; patch_sets = λ n w. refl }

-- from 3 to 9 in three reconciles
scale_rounds-converge_example :
    (scale_rounds cluster shop web (pos 9) options 3 world).0
    ≡ within (pos 9) (some (pos 2)) (some (pos 10))
scale_rounds-converge_example =
    scale_rounds-converge cluster shop web (pos 9) options cluster_scale refl 3 (pos 2) world refl
      step_positive goal_nonneg (grind int_laws) (unfold within in grind int_laws)

scale_deployment_applied_example :
    (n : Option ℤ) × ((cluster.read_scale web shop world).0 ≡ answer n)
    × Patched cluster shop web
        (pos 9)
        (or_else n (pos 0))
        options
        world
        (scale_deployment cluster shop web (pos 9) options world).1
scale_deployment_applied_example =
    scale_deployment_applied cluster shop web (pos 9) options world scaled scale_deployment_run refl

-- the server refuses the patch of the replicas
scale_deployment_kept_example :
    ((scale_deployment locked shop web (pos 9) options world).1 ≡ world)
    ⊎ ((n : Option ℤ) × ((locked.read_scale web shop world).0 ≡ answer n)
        × Refused locked shop web
            (pos 9)
            (or_else n (pos 0))
            options
            world
            (scale_deployment locked shop web (pos 9) options world).1)
scale_deployment_kept_example =
    scale_deployment_kept locked shop web locked-IsReadOnly (pos 9) options world
      locked_patch_fails.0 locked_patch_fails.1 (let failure = locked_patch_fails.2 in λ e. cc)

-- the weights and the router

clamp_weight_change_above_example :
    (clamp_weight_change (pos 500) (pos 0) ≡ pos 100)
    × (suc 30 ≤ abs (clamp_weight_change (pos 500) (pos 0) -ℤ pos 500))
clamp_weight_change_above_example =
    clamp_weight_change_above (pos 500) (pos 0) (grind int_laws) (grind int_laws)

weight_after-converge_example : weight_after 3 (pos 100) (pos 20) ≡ pos 100
weight_after-converge_example =
    weight_after-converge 3 (pos 20) (pos 100) (grind int_laws) (grind int_laws) (grind int_laws)
      (grind int_laws) (grind int_laws)

apply_weights_to_route-RouteMoved_example :
    RouteMoved targets route (apply_weights_to_route targets route).result
apply_weights_to_route-RouteMoved_example = apply_weights_to_route-RouteMoved targets route

-- a server that answers 409 twice
set_backend_weights-LoopEnded_example :
    LoopEnded locked shop web
      (normalize_targets weights).0
      (normalize_targets weights).1
      false
      world
      (set_backend_weights locked shop web weights false world)
set_backend_weights-LoopEnded_example =
    set_backend_weights-LoopEnded locked shop web weights false world
      (unfold normalize_targets in refl)

set_backend_weights_applied_example :
    (w0 : World) × Wrote cluster shop web
      (normalize_targets weights).0
      false
      w0
      (set_backend_weights cluster shop web weights false world).1
      (answer tt)
set_backend_weights_applied_example =
    set_backend_weights_applied cluster shop web weights false world set_backend_weights_run.0
      (unfold normalize_targets in refl) set_backend_weights_run.1 set_backend_weights_run.2

-- the executor

abbrev isolation : Decision ℕ
isolation = record (new_decision isolate_backend (codes "isolate")) {
  backend_weights = some weights;
}

abbrev growth : Decision ℕ
growth = record (new_decision scale (codes "grow")) { target_replicas = some (pos 9) }

apply_dry_example : (apply cluster dry_policy growth process).1.world ≡ world
apply_dry_example =
    apply_dry cluster dry_policy growth cluster-IsReadOnly process (unfold is_dry_run in refl)

apply_denied_example : (apply cluster policy isolation process).1.world ≡ world
apply_denied_example = apply_denied cluster policy isolation cluster-IsReadOnly process refl refl
