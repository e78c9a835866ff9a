-- ===== src/Handlers/Gates.antt =====
-- What handlers.py lets through: the validation of a policy, and reconciles that change nothing.
use samsung.Prelude.{
  ℤ, ◌≤ℤ◌, ltb_ℤ→ge, ◌≡◌, ◌≢◌, ◌++◌, refl, Bool, true, false, Option, none, some, is_some, nonempty,
  Text, Float, if◌then◌else◌, arith,
}
use samsung.Schemas.{TrafficSnapshot, Decision, Spec}
use samsung.Policy.Baseline.{Store}
use samsung.Policy.Status.{Status, thresholds_of}
use samsung.Policy.Engine.{evaluate}
use samsung.Actuator.Cluster.{Cluster, IsReadOnly}
use samsung.Actuator.Environment.{Process, present, is_dry_run}
use samsung.Actuator.Executor.{target_of_spec, spec_actions}
use samsung.Actuator.Executor.Gates.{apply_dry}
use samsung.Handlers.{
  registered, permanent_error, check_bounds, missing_if, missing_fields, register_policy, Operator,
  act, reconcile,
}

refused_policy : (t : Text) → permanent_error t ≢ registered
refused_policy t e = cc

check_bounds_accepts :
    (low high : ℤ) → check_bounds (some low) (some high) ≡ registered → low ≤ℤ high
unfolding check_bounds
check_bounds_accepts low high e = ground (arith, ltb_ℤ→ge high low)

-- the three required fields, by their presence
by_fields :
    (x y z : Bool) (a b d m : Text) (low high : ℤ)
    → (if nonempty (missing_if x a ++ (missing_if y b ++ missing_if z d))
        then permanent_error m
        else check_bounds (some low) (some high))
      ≡ registered
    → (x ≡ true) × (y ≡ true) × (z ≡ true) × (low ≤ℤ high)
unfolding missing_if
by_fields true true true a b d m low high e = (refl, refl, refl, check_bounds_accepts low high e)
by_fields false y z a b d m low high e = absurd (refused_policy m e)
by_fields true false z a b d m low high e = absurd (refused_policy m e)
by_fields true true false a b d m low high e = absurd (refused_policy m e)

module _ {F : Type 0} (spec : Spec F) where
  -- A registered policy names a deployment and a route, has a target of requests per pod, and its bounds
  -- on the replicas are in order.
  pub register_policy_accepts :
      (low high : ℤ)
      → register_policy spec ≡ registered
      → (spec_actions spec).min_replicas ≡ some low
      → (spec_actions spec).max_replicas ≡ some high
      → (is_some (present (target_of_spec spec).deployment) ≡ true)
        × (is_some (present (target_of_spec spec).http_route) ≡ true)
        × (is_some (thresholds_of spec).target_rps_per_pod ≡ true)
        × (low ≤ℤ high)
  unfolding register_policy missing_fields missing_if check_bounds
  register_policy_accepts low high e l h =
      by_fields (is_some (present (target_of_spec spec).deployment))
        (is_some (present (target_of_spec spec).http_route))
        (is_some (thresholds_of spec).target_rps_per_pod) _ _ _ _ low high (rw (l, h) at e)

module _ {F W X : Type 0} ⦃fl : Float F⦄ (c : Cluster W X) (spec : Spec F)
    (reads : IsReadOnly c) where
  act_dry :
      (snapshot : TrafficSnapshot F) (wall : F) (p : Process W) (r : Option (Decision F) × Store F)
      → is_dry_run c (spec_actions spec) p.world ≡ true
      → (act c spec snapshot wall p r).1.process.world ≡ p.world
  unfolding act
  act_dry snapshot wall p (none, store) h = refl
  act_dry snapshot wall p (some d, store) h = apply_dry c spec d reads p h

  -- With reads that change nothing: in a dry run a whole reconcile leaves the world as it was, whatever
  -- was observed and decided.
  pub reconcile_dry :
      (snapshot : TrafficSnapshot F) (status : Status F) (wall : F) (o : Operator F W)
      → is_dry_run c (spec_actions spec) o.process.world ≡ true
      → (reconcile c spec snapshot status wall o).1.process.world ≡ o.process.world
  unfolding reconcile
  reconcile_dry snapshot status wall o h =
      ground
        (arith, act_dry snapshot wall o.process (evaluate spec snapshot status wall o.baselines) h)
