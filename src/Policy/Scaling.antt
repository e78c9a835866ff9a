-- ===== src/Policy/Scaling.antt =====
-- policy/scaling.py: the replica target from the requests per pod. `none` is the error that
-- `math.ceil` raises on an infinity or NaN.
pub mod Targets
pub mod Runs
use samsung.Prelude.{
  ℤ, pos, ◌+ℤ◌, ltb_ℤ, leb_ℤ, max_ℤ, min_ℤ, Bool, false, ◌&&◌, Option, none, some, ◌++◌, Text,
  codes, str_int, Float, or_else, ◌>>=◌, if◌then◌else◌,
}

pub data Direction : Type 0 where
  up down hold : Direction

pub record ScaleAssessment (F : Type 0) : Type 0 where
  pub direction : Direction
  pub target_replicas : Option ℤ
  pub current_replicas : Option ℤ
  pub rps_per_pod : Option F
  pub reason : Text

abbrev at_least : Option ℤ → ℤ → ℤ
at_least none v = v
at_least (some low) v = max_ℤ v low

abbrev at_most : Option ℤ → ℤ → ℤ
at_most none v = v
at_most (some high) v = min_ℤ v high

-- `_clamp`
pub clamp : ℤ → Option ℤ → Option ℤ → ℤ
clamp value low high = at_most high (at_least low value)

module _ {F : Type 0} ⦃fl : Float F⦄ where
  open fl use {of_int, div, lt, le, ceil, fixed}

  -- the two cases in which there is no basis for a decision
  missing_input : Option ℤ → ScaleAssessment F
  missing_input current = record {
    direction = hold;
    target_replicas = none;
    current_replicas = current;
    rps_per_pod = none;
    reason = codes "스케일 판단 입력 부족(rps 또는 targetRPSPerPod 결측/0) -> 유지";
  }

  missing_pods : Option ℤ → ScaleAssessment F
  missing_pods current = record {
    direction = hold;
    target_replicas = none;
    current_replicas = current;
    rps_per_pod = none;
    reason = codes "total_ready_pods 결측/0 -> RPS/pod 계산 불가, 추측 스케일링 억제(유지)";
  }

  -- (rps=…, pods=…) -> a->b, and what follows it
  scale_plan : F → ℤ → ℤ → Text
  scale_plan rps current desired =
      codes "(rps="
      ++ (fixed 1 rps
          ++ (codes ", pods="
              ++ (str_int current
                  ++ (codes ") -> " ++ (str_int current ++ (codes "->" ++ str_int desired))))))

  up_reason : F → F → F → ℤ → ℤ → Text
  unfolding scale_plan
  up_reason rps rps_per_pod target current desired =
      codes "RPS/pod="
      ++ (fixed 1 rps_per_pod
          ++ (codes " > targetRPSPerPod="
              ++ (fixed 1 target
                  ++ (codes " " ++ (scale_plan rps current desired ++ codes " 스케일업")))))

  down_reason : F → F → F → ℤ → ℤ → Text
  unfolding scale_plan
  down_reason rps rps_per_pod scale_down current desired =
      codes "RPS/pod="
      ++ (fixed 1 rps_per_pod
          ++ (codes " < scaleDownRPSPerPod="
              ++ (fixed 1 scale_down
                  ++ (codes " " ++ (scale_plan rps current desired ++ codes " 스케일다운")))))

  band_low : Option F → Text
  band_low none = codes "미설정"
  band_low (some d) = fixed 1 d

  hold_reason : F → F → Option F → ℤ → Text
  unfolding band_low
  hold_reason rps_per_pod target scale_down current =
      codes "RPS/pod="
      ++ (fixed 1 rps_per_pod
          ++ (codes " 가 hysteresis 밴드["
              ++ (band_low scale_down
                  ++ (codes ", "
                      ++ (fixed 1 target
                          ++ (codes "] 내 또는 목표==현재(" ++ (str_int current ++ codes ") -> 유지")))))))

  -- the scale-down gate: `scale_down_rps_per_pod is not None and rps_per_pod < …`
  pub below_scale_down : F → Option F → Bool
  below_scale_down x none = false
  below_scale_down x (some d) = lt x d

  -- the three outcomes, once the clamped target is known
  choose : F → ℤ → F → Option F → ℤ → ScaleAssessment F
  choose rps current target scale_down desired =
      let per_pod = div rps (of_int current) in
      if lt target per_pod && ltb_ℤ current desired
      then record {
        direction = up;
        target_replicas = some desired;
        current_replicas = some current;
        rps_per_pod = some per_pod;
        reason = up_reason rps per_pod target current desired;
      }
      else if below_scale_down per_pod scale_down && ltb_ℤ desired current
      then record {
        direction = down;
        target_replicas = some desired;
        current_replicas = some current;
        rps_per_pod = some per_pod;
        reason = down_reason rps per_pod (or_else scale_down target) current desired;
      }
      else record {
        direction = hold;
        target_replicas = none;
        current_replicas = some current;
        rps_per_pod = some per_pod;
        reason = hold_reason per_pod target scale_down current;
      }

  -- from the requests and the target on, which are present and the target positive
  assess_pods : F → Option ℤ → F → Option F → Option ℤ → Option ℤ → Option (ScaleAssessment F)
  unfolding missing_pods choose clamp
  assess_pods rps none target scale_down low high = some (missing_pods none)
  assess_pods rps (some current) target scale_down low high =
      if leb_ℤ current (pos 0) then some (missing_pods (some current)) else do
        desired ← ceil (div rps target)
        some (choose rps current target scale_down (clamp desired low high))

  pub assess_scaling :
      Option F → Option ℤ → Option F → Option F → Option ℤ → Option ℤ → Option (ScaleAssessment F)
  unfolding missing_input assess_pods
  assess_scaling (some rps) current (some target) scale_down low high =
      if le target (of_int (pos 0))
      then some (missing_input current)
      else assess_pods rps current target scale_down low high
  assess_scaling _ current _ scale_down low high = some (missing_input current)

  -- the larger of `candidate` and the target from the requests, if both inputs serve
  rps_candidate : Option F → Option F → ℤ → Option ℤ
  rps_candidate (some rps) (some target) candidate =
      if lt (of_int (pos 0)) target
      then (do by_rps ← ceil (div rps target); some (max_ℤ candidate by_rps))
      else some candidate
  rps_candidate _ _ candidate = some candidate

  -- the outer `none` is an error of `math.ceil`, the inner one the returned None
  pub capacity_target_for_anomaly :
      Option F → Option ℤ → Option F → Option ℤ → Option ℤ → Option (Option ℤ)
  unfolding rps_candidate clamp
  capacity_target_for_anomaly rps none target low high = some none
  capacity_target_for_anomaly rps (some current) target low high =
      if leb_ℤ current (pos 0) then some none else do
        candidate ← rps_candidate rps target (current +ℤ pos 1)
        some (some (clamp candidate low high))
