-- ===== src/Metrics/HubbleCollector.antt =====
-- metrics/hubble_collector.py: a snapshot from the flows that Hubble shows, for clusters whose
-- gateway has no metrics. The Kubernetes API that counts ready pods is a parameter.
pub mod Flows
use samsung.Prelude.{
  ℕ, ℤ, pos, Bool, true, false, ◌&&◌, not, Option, none, some, List, [], ◌∷◌, ◌++◌, Text, codes,
  text_eq, is_some, strip_prefix, nonempty, length, suc, Float, if◌then◌else◌,
}
use samsung.Schemas.{SnapshotStatus, ok, no_data, collection_failed, TrafficSnapshot, Target}
use samsung.Actuator.Environment.{present}
use samsung.Metrics.Calls.{Call, return, fail}
use samsung.Hubble.{FlowEvent, FlowEndpoint}
use samsung.Hubble.Lines.{Decoder}
use samsung.Hubble.Fetch.{Command, Fetched, events, unavailable, crashed, fetch_flows}

-- The deployment API: the ready replicas of a deployment, none where loading the client or the read
-- raised; the inner option is the field of the status.
pub record Apps (W : Type 0) : Type 0 where
  pub ready_replicas : Text → Text → W → Option (Option ℤ) × W

pub matches_target : Option Text → Option Text → Text → Bool
matches_target dst_workload dst_pod_name deployment = elim (present dst_workload) [
  | some w ↦ text_eq w deployment
  | none ↦ elim (present dst_pod_name) [
    | some p ↦ is_some (strip_prefix (deployment ++ codes "-") p)
    | none ↦ false
  ]
]

module _ {F : Type 0} where
  -- a snapshot in which every metric is missing
  unfoldable pub empty_snapshot : SnapshotStatus → F → ℤ → TrafficSnapshot F
  empty_snapshot status now window_seconds = record {
    status = status;
    timestamp = now;
    window_seconds = window_seconds;
    rps = none;
    error_rate = none;
    p50_latency_ms = none;
    p95_latency_ms = none;
    p99_latency_ms = none;
    total_ready_pods = none;
    per_backend = [];
  }

  -- the flows whose verdict is not FORWARDED
  pub non_forwarded : List (FlowEvent F) → ℕ
  non_forwarded [] = 0
  non_forwarded (e ∷ es) =
      let rest = non_forwarded es in
      if text_eq e.verdict (codes "FORWARDED") then rest else suc rest

  module _ ⦃fl : Float F⦄ where
    pub is_recent : Option F → F → Bool
    is_recent none cutoff = false
    is_recent (some epoch) cutoff = fl.le cutoff epoch

    -- the flows to the target since the cutoff
    pub windowed : F → Text → List (FlowEvent F) → List (FlowEvent F)
    unfolding is_recent matches_target
    windowed cutoff deployment [] = []
    windowed cutoff deployment (e ∷ es) =
        let rest = windowed cutoff deployment es in
        if is_recent e.epoch cutoff && matches_target e.dst.workload e.dst.pod_name deployment
        then e ∷ rest
        else rest

    unfoldable pub ratio : ℕ → ℕ → F
    ratio part total = fl.div (fl.of_int (pos part)) (fl.of_int (pos total))

    -- the snapshot of flows that are not empty
    unfoldable pub flow_snapshot : List (FlowEvent F) → Option ℤ → F → ℤ → TrafficSnapshot F
    unfolding non_forwarded ratio
    flow_snapshot es ready now window_seconds = record {
      status = ok;
      timestamp = now;
      window_seconds = window_seconds;
      rps = some (fl.div (fl.of_int (pos (length es))) (fl.of_int window_seconds));
      error_rate = some (ratio (non_forwarded es) (length es));
      p50_latency_ms = none;
      p95_latency_ms = none;
      p99_latency_ms = none;
      total_ready_pods = ready;
      per_backend = [];
    }

-- the field of the status, 0 where it is null
ready_of : Option (Option ℤ) → Option ℤ
ready_of none = none
ready_of (some none) = some (pos 0)
ready_of (some (some n)) = some n

namespace_args : Option Text → List Text
namespace_args none = []
namespace_args (some ns) = codes "--to-namespace" ∷ ns ∷ []

module _ {F W : Type 0} ⦃fl : Float F⦄ (d : Decoder F) (h : Command W) (apps : Apps W)
    (last : ℤ) where
  pub hubble_ready_pods : Option Text → Option Text → W → Option ℤ × W
  unfolding ready_of
  hubble_ready_pods namespace deployment w = elim (present namespace) [
    | none ↦ (none, w)
    | some ns ↦ elim (present deployment) [
      | none ↦ (none, w)
      | some dep ↦ let (r, w') = apps.ready_replicas dep ns w in (ready_of r, w')
    ]
  ]

  -- the snapshot of the flows in the window
  pub snapshot_of_flows : Target → Text → ℤ → F → List (FlowEvent F) → Call W (TrafficSnapshot F)
  unfolding empty_snapshot flow_snapshot hubble_ready_pods
  snapshot_of_flows target deployment window_seconds now [] w =
      (some (empty_snapshot no_data now window_seconds), w)
  snapshot_of_flows target deployment window_seconds now (e ∷ es) w =
      let (ready, w') = hubble_ready_pods target.namespace (some deployment) w in
      (some (flow_snapshot (e ∷ es) ready now window_seconds), w')

  after_fetch : Target → Text → ℤ → F → Fetched F → Call W (TrafficSnapshot F)
  unfolding snapshot_of_flows windowed
  after_fetch target deployment window_seconds now unavailable w =
      (some (empty_snapshot collection_failed now window_seconds), w)
  after_fetch target deployment window_seconds now crashed w = (none, w)
  after_fetch target deployment window_seconds now (events es) w =
      snapshot_of_flows target deployment window_seconds now
        (windowed (fl.sub now (fl.of_int window_seconds)) deployment es) w

  -- `collect`; the result is `none` where an exception of the decoding gets out
  pub hubble_collect : Target → ℤ → F → Call W (TrafficSnapshot F)
  unfolding after_fetch namespace_args
  hubble_collect target window_seconds now w = elim (present target.deployment) [
    | none ↦ (some (empty_snapshot collection_failed now window_seconds), w)
    | some deployment ↦
        let (r, w') = fetch_flows d h last (namespace_args (present target.namespace)) w in
        after_fetch target deployment window_seconds now r w'
  ]
