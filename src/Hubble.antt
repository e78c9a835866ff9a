-- ===== src/Hubble.antt =====
-- operator/k8s_traffic_operator/hubble_client.py: the flows that the hubble command prints. The
-- command, the JSON decoder and the reading of an ISO date are parameters.
pub mod Times
pub mod Lines
pub mod Fetch
use samsung.Prelude.{
  ℕ, ℤ, Bool, true, false, Option, none, some, List, [], ◌∷◌, ◌++◌, Text, codes, join, contains,
  nonempty, or_else, sorted, strip_prefix, if◌then◌else◌,
}
use samsung.Actuator.Environment.{present}

-- The source or destination of a flow; a workload is shown by its name.
pub record Side : Type 0 where
  pub namespace : Option Text
  pub pod_name : Option Text
  pub workloads : List (Option Text)
  pub labels : List Text

-- The keys of `l4`; TCP and UDP carry their destination port.
pub record L4 : Type 0 where
  pub tcp : Option (Option ℤ)
  pub udp : Option (Option ℤ)
  pub icmpv4 : Bool
  pub icmpv6 : Bool

pub record Flow : Type 0 where
  pub l4 : Option L4
  pub time : Option Text
  pub verdict : Option Text
  pub traffic_direction : Option Text
  pub source : Option Side
  pub destination : Option Side

-- What a line decodes to: nothing that is JSON, an object without a flow, a flow, or a value that is
-- no object, which has no method `get`.
pub data Line : Type 0 where
  not_json no_flow not_object : Line
  flow : Flow → Line

pub record FlowEndpoint : Type 0 where
  pub label : Text
  pub namespace : Option Text
  pub pod_name : Option Text
  pub workload : Option Text

pub record FlowEvent (F : Type 0) : Type 0 where
  pub time : Text
  pub epoch : Option F
  pub verdict : Text
  pub direction : Option Text
  pub protocol : Text
  pub src : FlowEndpoint
  pub dst : FlowEndpoint
  pub dst_port : Option ℤ

unfoldable pub no_side : Side
no_side = record { namespace = none; pod_name = none; workloads = []; labels = [] }

first_workload : List (Option Text) → Option Text
first_workload [] = none
first_workload (w ∷ ws) = w

-- the labels with the prefix "reserved:", without it
reserved_names : List Text → List Text
reserved_names [] = []
reserved_names (l ∷ ls) = elim (strip_prefix (codes "reserved:") l) [
  | none ↦ reserved_names ls
  | some name ↦ name ∷ reserved_names ls
]

-- `set(names)`
distinct : List Text → List Text
distinct [] = []
distinct (n ∷ ns) = let rest = distinct ns in if contains n ns then rest else n ∷ rest

reserved_label : List Text → Text
unfolding distinct
reserved_label names =
    if nonempty names then join (codes "+") (sorted (distinct names)) else codes "unknown"

unfoldable pub entity_label : Side → FlowEndpoint
unfolding first_workload reserved_names reserved_label
entity_label side = elim (present side.pod_name) [
  | some pod ↦ elim (present side.namespace) [
    | some ns ↦ record {
      label = ns ++ (codes "/" ++ pod);
      namespace = some ns;
      pod_name = some pod;
      workload = first_workload side.workloads;
    }
    | none ↦ record {
      label = pod;
      namespace = none;
      pod_name = some pod;
      workload = first_workload side.workloads;
    }
  ]
  | none ↦ record {
    label = reserved_label (reserved_names side.labels);
    namespace = none;
    pod_name = none;
    workload = none;
  }
]

-- the protocol and the destination port
unfoldable pub protocol_of : L4 → Text × Option ℤ
protocol_of l4 = elim l4.tcp [
  | some port ↦ (codes "TCP", port)
  | none ↦ elim l4.udp [
    | some port ↦ (codes "UDP", port)
    | none ↦
        (if l4.icmpv4 then codes "ICMP" else if l4.icmpv6 then codes "ICMP" else codes "?", none)
  ]
]

unfoldable pub protocol_of_flow : Option L4 → Text × Option ℤ
unfolding protocol_of
protocol_of_flow none = (codes "?", none)
protocol_of_flow (some l4) = protocol_of l4
