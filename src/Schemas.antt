-- ===== src/Schemas.antt =====
-- operator/k8s_traffic_operator/schemas.py: the data that metrics, policy and actuator exchange, and
-- the spec of a TrafficPolicy as operator/crds/trafficpolicy.yaml types it.
use samsung.Prelude.{ℤ, Bool, Option, none, List, Text, codes}

pub data SnapshotStatus : Type 0 where
  ok no_data collection_failed : SnapshotStatus

pub data Severity : Type 0 where
  calm warning critical : Severity

-- `other` is a text outside the Literal type, which `apply` guards against.
pub data ActionType : Type 0 where
  noop scale reroute isolate_backend : ActionType
  other : Text → ActionType

-- A value of a weight map: an int, or a value that `int()` refuses, with its `repr`.
pub data Weight : Type 0 where
  int : ℤ → Weight
  not_int : Text → Weight

-- Dict[str, int], in insertion order.
abbrev pub Weights : Type 0
Weights = List (Text × Weight)

pub record BackendTraffic (F : Type 0) : Type 0 where
  pub name : Text
  pub rps : Option F
  pub error_rate : Option F
  pub p99_latency_ms : Option F
  pub ready_pods : Option ℤ

-- `meta` is for logging only and is left out.
pub record TrafficSnapshot (F : Type 0) : Type 0 where
  pub status : SnapshotStatus
  pub timestamp : F
  pub window_seconds : ℤ
  pub rps : Option F
  pub error_rate : Option F
  pub p50_latency_ms : Option F
  pub p95_latency_ms : Option F
  pub p99_latency_ms : Option F
  pub total_ready_pods : Option ℤ
  pub per_backend : List (BackendTraffic F)

pub record Decision (F : Type 0) : Type 0 where
  pub action : ActionType
  pub reason : Text
  pub target_replicas : Option ℤ
  pub backend_weights : Option Weights
  pub severity : Severity
  pub anomaly_score : Option F
  pub cooldown_until : Option F

-- `Decision(action=…, reason=…)`: the fields' defaults
abbrev pub new_decision : {F : Type 0} → ActionType → Text → Decision F
new_decision a r = record {
  action = a;
  reason = r;
  target_replicas = none;
  backend_weights = none;
  severity = calm;
  anomaly_score = none;
  cooldown_until = none;
}

pub record ActuationResult : Type 0 where
  pub applied : Bool
  pub action : ActionType
  pub detail : Text
  pub dry_run : Bool
  pub error : Option Text

pub record Target : Type 0 where
  pub http_route : Option Text
  pub namespace : Option Text
  pub deployment : Option Text

pub record Thresholds (F : Type 0) : Type 0 where
  pub target_rps_per_pod : Option F
  pub scale_down_rps_per_pod : Option F
  pub scale_up_error_rate : Option F
  pub max_p99_latency_ms : Option F

pub record Actions : Type 0 where
  pub min_replicas : Option ℤ
  pub max_replicas : Option ℤ
  pub cooldown_seconds : Option ℤ
  pub max_scale_step : Option ℤ
  pub allow_route_isolation : Option Bool
  pub dry_run : Option Bool

-- A key that is missing or null is `none`.
pub record Spec (F : Type 0) : Type 0 where
  pub target : Option Target
  pub thresholds : Option (Thresholds F)
  pub actions : Option Actions
  pub window : Option Text

abbrev pub no_target : Target
no_target = record { http_route = none; namespace = none; deployment = none }

abbrev pub no_thresholds : {F : Type 0} → Thresholds F
no_thresholds = record {
  target_rps_per_pod = none;
  scale_down_rps_per_pod = none;
  scale_up_error_rate = none;
  max_p99_latency_ms = none;
}

abbrev pub no_actions : Actions
no_actions = record {
  min_replicas = none;
  max_replicas = none;
  cooldown_seconds = none;
  max_scale_step = none;
  allow_route_isolation = none;
  dry_run = none;
}

-- the texts of the Literal types, as the messages show them
unfoldable pub show_severity : Severity → Text
show_severity calm = codes "none"
show_severity warning = codes "warning"
show_severity critical = codes "critical"

unfoldable pub show_status : SnapshotStatus → Text
show_status ok = codes "ok"
show_status no_data = codes "no_data"
show_status collection_failed = codes "collection_failed"

unfoldable pub show_action : ActionType → Text
show_action noop = codes "noop"
show_action scale = codes "scale"
show_action reroute = codes "reroute"
show_action isolate_backend = codes "isolate_backend"
show_action (other t) = t

unfoldable pub is_ok : SnapshotStatus → Bool
is_ok ok = Bool.true
is_ok _ = Bool.false

unfoldable pub is_critical : Severity → Bool
is_critical critical = Bool.true
is_critical _ = Bool.false
