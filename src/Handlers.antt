-- ===== src/Handlers.antt =====
-- operator/k8s_traffic_operator/handlers.py: the registration of a policy, and the reconcile timer
-- that wires metrics, policy and actuator together.
pub mod Gates
pub mod Runs
pub mod HubbleRoutes
use samsung.Prelude.{
  ℤ, ltb_ℤ, Bool, true, false, Option, none, some, List, [], ◌∷◌, ◌++◌, Text, codes, join, str_int,
  Float, nonempty, is_some, if◌then◌else◌,
}
use samsung.Schemas.{
  noop, new_decision, SnapshotStatus, show_status, is_ok, TrafficSnapshot, Decision,
  ActuationResult, Spec,
}
use samsung.Policy.Baseline.{Store}
use samsung.Policy.Status.{Status, thresholds_of}
use samsung.Policy.Engine.{evaluate}
use samsung.Actuator.Cluster.{Cluster}
use samsung.Actuator.Environment.{Process, present}
use samsung.Actuator.Executor.{target_of_spec, spec_actions, apply}

module _ {F : Type 0} where
  pub fallback_evaluate : Decision F
  fallback_evaluate = new_decision noop (codes "policy module not available (fallback)")

  pub fallback_apply : Decision F → ActuationResult
  fallback_apply d = record {
    applied = false;
    action = d.action;
    detail = codes "actuator module not available (fallback)";
    dry_run = true;
    error = none;
  }

-- What a registration ends with: PermanentError, or acceptance.
pub data Registration : Type 0 where
  permanent_error : Text → Registration
  registered : Registration

check_bounds : Option ℤ → Option ℤ → Registration
check_bounds (some low) (some high) =
    if ltb_ℤ high low
    then permanent_error (
        codes "minReplicas("
        ++ (str_int low ++ (codes ") > maxReplicas(" ++ (str_int high ++ codes ")"))))
    else registered
check_bounds low high = registered

missing_if : Bool → Text → List Text
missing_if true name = []
missing_if false name = name ∷ []

module _ {F : Type 0} where
  -- the required fields that the spec lacks
  pub missing_fields : Spec F → List Text
  unfolding missing_if
  missing_fields spec =
      missing_if (is_some (present (target_of_spec spec).deployment)) (codes "target.deployment")
      ++ (missing_if (is_some (present (target_of_spec spec).http_route)) (codes "target.httpRoute")
          ++ missing_if (is_some (thresholds_of spec).target_rps_per_pod)
              (codes "thresholds.targetRPSPerPod"))

  pub register_policy : Spec F → Registration
  unfolding missing_fields check_bounds
  register_policy spec =
      if nonempty (missing_fields spec)
      then permanent_error
          (codes "TrafficPolicy spec 필수 필드 누락: " ++ join (codes ", ") (missing_fields spec))
      else check_bounds (spec_actions spec).min_replicas (spec_actions spec).max_replicas

-- What a reconcile returns: the status that kopf merges under `status.reconcile`.
pub record Report (F : Type 0) : Type 0 where
  pub phase : Text
  pub last_snapshot_status : SnapshotStatus
  pub last_reconcile_at : F
  pub last_decision : Option (Decision F)
  pub last_actuation : Option ActuationResult

-- The operator between two reconciles: the process and the baselines in its memory.
pub record Operator (F W : Type 0) : Type 0 where
  pub process : Process W
  pub baselines : Store F

module _ {F W X : Type 0} ⦃fl : Float F⦄ (c : Cluster W X) where
  skip_report : SnapshotStatus → F → Report F
  skip_report s at = record {
    phase = show_status s;
    last_snapshot_status = s;
    last_reconcile_at = at;
    last_decision = none;
    last_actuation = none;
  }

  full_report : TrafficSnapshot F → Decision F → ActuationResult → F → Report F
  full_report snapshot d r at = record {
    phase = codes "Reconciled";
    last_snapshot_status = snapshot.status;
    last_reconcile_at = at;
    last_decision = some d;
    last_actuation = some r;
  }

  -- steps 3 and 4, from the decision on; `none` where the evaluation raised
  act :
      Spec F
      → TrafficSnapshot F
      → F
      → Process W
      → Option (Decision F) × Store F
      → Option (Report F) × Operator F W
  unfolding full_report
  act spec snapshot wall p (none, store) = (none, record { process = p; baselines = store })
  act spec snapshot wall p (some d, store) =
      let (r, p') = apply c spec d p in
      (some (full_report snapshot d r wall), record { process = p'; baselines = store })

  -- The timer. `snapshot` is what `metrics.collect` returned, `wall` what `time.time()` returns.
  pub reconcile :
      Spec F → TrafficSnapshot F → Status F → F → Operator F W → Option (Report F) × Operator F W
  unfolding skip_report act
  reconcile spec snapshot status wall o =
      let acted =
        act spec snapshot wall o.process (evaluate spec snapshot status wall o.baselines) in
      if is_ok snapshot.status then acted else (some (skip_report snapshot.status wall), o)
