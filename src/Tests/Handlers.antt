-- ===== src/Tests/Handlers.antt =====
-- Examples for the handlers.
use samsung.Prelude.{ℕ, pos, ◌≤ℤ◌, ◌≡◌, refl, true, is_some, []}
use samsung.Actuator.Environment.{is_dry_run, present}
use samsung.Actuator.Executor.{target_of_spec}
use samsung.Policy.Status.{no_previous, thresholds_of}
use samsung.Handlers.{Operator, reconcile}
use samsung.Handlers.Gates.{register_policy_accepts, reconcile_dry}
use samsung.Handlers.Runs.{registered_run}
use samsung.Tests.Fixtures.{
  thousandths, World, cluster, cluster-IsReadOnly, world, process, policy, dry_policy, snapshot,
  status_after,
}

abbrev operator : Operator ℕ World
operator = record { process = process; baselines = [] }

reconcile_dry_example :
    (reconcile cluster dry_policy snapshot
      (status_after no_previous)
      1000000
      operator).1.process.world
    ≡ world
reconcile_dry_example =
    reconcile_dry cluster dry_policy cluster-IsReadOnly snapshot (status_after no_previous) 1000000
      operator (unfold is_dry_run in refl)

register_policy_accepts_example :
    (is_some (present (target_of_spec policy).deployment) ≡ true)
    × (is_some (present (target_of_spec policy).http_route) ≡ true)
    × (is_some (thresholds_of policy).target_rps_per_pod ≡ true)
    × (pos 2 ≤ℤ pos 10)
register_policy_accepts_example =
    register_policy_accepts policy (pos 2) (pos 10) registered_run refl refl
