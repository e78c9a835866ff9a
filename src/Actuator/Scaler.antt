-- ===== src/Actuator/Scaler.antt =====
-- actuator/scaler.py
pub mod Bounds
pub mod Converge
pub mod Effects
pub mod Runs
use samsung.Prelude.{
  ℤ, pos, ◌+ℤ◌, ◌-ℤ◌, ltb_ℤ, eqb_ℤ, max_ℤ, min_ℤ, abs, Bool, Option, none, some, ◌++◌, Text, codes,
  str_int, or_else, if◌then◌else◌,
}
use samsung.Actuator.Cluster.{
  Reply, answer, api_exception, exception, Attempt, returned, raised, Cluster, ActionOutcome,
  applied, skipped, failed,
}

-- the goal within the bounds: `min_replicas`, then `max_replicas`
abbrev raise_to : Option ℤ → ℤ → ℤ
raise_to none goal = goal
raise_to (some low) goal = max_ℤ goal low

abbrev cap_to : Option ℤ → ℤ → ℤ
cap_to none goal = goal
cap_to (some high) goal = min_ℤ goal high

unfoldable pub within : ℤ → Option ℤ → Option ℤ → ℤ
within target low high = cap_to high (raise_to low target)

-- one step from the current replicas towards the goal
pub limit_step : ℤ → ℤ → Option ℤ → ℤ
limit_step goal current none = goal
limit_step goal current (some step) =
    let delta = goal -ℤ current in
    if ltb_ℤ (pos 0) step
    then current
      +ℤ (if ltb_ℤ step (pos (abs delta))
          then (if ltb_ℤ (pos 0) delta then step else pos 0 -ℤ step)
          else delta)
    else goal

unfoldable pub clamp_replicas : ℤ → ℤ → Option ℤ → Option ℤ → Option ℤ → ℤ
unfolding within limit_step
clamp_replicas target current low high step =
    max_ℤ (pos 0) (limit_step (within target low high) current step)

-- replicas a -> b (policy target=t)
pub plan_text : ℤ → ℤ → ℤ → Text
plan_text current final target =
    codes "replicas "
    ++ (str_int current
        ++ (codes " -> "
            ++ (str_int final ++ (codes " (policy target=" ++ (str_int target ++ codes ")")))))

-- verb scale ns/name: status reason
error_text : Text → Text → Text → ℤ → Text → Text
error_text verb namespace name status reason =
    verb
    ++ (codes " scale "
        ++ (namespace
            ++ (codes "/" ++ (name ++ (codes ": " ++ (str_int status ++ (codes " " ++ reason)))))))

-- the bounds and the switch that are passed by keyword
pub record ScaleOptions : Type 0 where
  pub min_replicas : Option ℤ
  pub max_replicas : Option ℤ
  pub max_scale_step : Option ℤ
  pub dry_run : Bool

after_patch : Text → Text → Text → Reply (Unit {0}) → Attempt ActionOutcome
unfolding error_text
after_patch namespace name plan (answer _) =
    returned (record { status = applied; detail = plan; error = none })
after_patch namespace name plan (api_exception status reason) = returned (record {
  status = failed;
  detail = codes "patch 실패: " ++ plan;
  error = some (error_text (codes "patch") namespace name status reason);
})
after_patch namespace name plan (exception message) = raised message

module _ {W X : Type 0} (c : Cluster W X) (namespace name : Text) where
  pub patch_to : ℤ → Text → W → Attempt ActionOutcome × W
  unfolding after_patch
  patch_to final plan w =
      let (r, w') = c.patch_scale name namespace final w in (after_patch namespace name plan r, w')

  -- from the current replicas on
  pub move : ℤ → ℤ → ScaleOptions → W → Attempt ActionOutcome × W
  unfolding clamp_replicas plan_text
  move target current o w =
      let final = clamp_replicas target current o.min_replicas o.max_replicas o.max_scale_step in
      let plan = plan_text current final target in
      let patched = patch_to final plan w in
      if eqb_ℤ final current
      then (
        returned (record { status = skipped; detail = codes "이미 목표 상태: " ++ plan; error = none }),
        w,
      )
      else if o.dry_run
      then (
        returned (record { status = skipped; detail = codes "[dry-run] " ++ plan; error = none }),
        w,
      )
      else patched

  after_read : ℤ → ScaleOptions → Reply (Option ℤ) → W → Attempt ActionOutcome × W
  unfolding error_text
  after_read target o (answer replicas) w = move target (or_else replicas (pos 0)) o w
  after_read target o (api_exception status reason) w = (
    returned (record {
      status = failed;
      detail = codes "deployment/" ++ (name ++ codes " scale 조회 실패");
      error = some (error_text (codes "read") namespace name status reason);
    }),
    w,
  )
  after_read target o (exception message) w = (raised message, w)

  pub scale_deployment : ℤ → ScaleOptions → W → Attempt ActionOutcome × W
  unfolding after_read
  scale_deployment target o w =
      let (r, w') = c.read_scale name namespace w in after_read target o r w'
