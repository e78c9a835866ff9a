-- ===== src/Dashboard/Nodes.antt =====
-- dashboard/hubble_flows.py, the nodes of the graph that `summarize` shows: `_endpoint_kind`, `_note`
-- and the order of the nodes.
use samsung.Prelude.{
  ℕ, Option, none, some, List, [], ◌∷◌, Text, text_eq, text_before, contains, ltb, Bool, true,
  false, if◌then◌else◌,
}
use samsung.Actuator.Environment.{present}
use samsung.Hubble.{FlowEndpoint}
use samsung.Dashboard.Layers.{Edges, Layers, assign_layers}
use samsung.Dashboard.Counters.{sort_by}

pub data Kind : Type 0 where
  app infra reserved : Kind

-- a node of the graph of the pairs
pub record Node : Type 0 where
  pub label : Text
  pub namespace : Option Text
  pub workload : Option Text
  pub kind : Kind
  pub layer : ℕ

-- `_endpoint_kind`
pub endpoint_kind : List Text → FlowEndpoint → Kind
endpoint_kind system_namespaces ep = elim ep.namespace [
  | none ↦ reserved
  | some ns ↦ if contains ns system_namespaces then infra else app
]

-- the endpoints with this label, in the order in which they are noted
pub with_label : Text → List FlowEndpoint → List FlowEndpoint
with_label label [] = []
with_label label (ep ∷ eps) =
    let rest = with_label label eps in if text_eq ep.label label then ep ∷ rest else rest

first_workload : List FlowEndpoint → Option Text
first_workload [] = none
first_workload (ep ∷ eps) = elim (present ep.workload) [
  | none ↦ first_workload eps
  | some w ↦ some w
]

-- the workload that is noted: the first one's, or else the first that is seen later
noted_workload : FlowEndpoint → List FlowEndpoint → Option Text
unfolding first_workload
noted_workload ep eps = elim ep.workload [ none ↦ first_workload eps | some w ↦ some w ]

-- the node of a label, with what is noted of its endpoints
node_of : List Text → Text → ℕ → List FlowEndpoint → Node
unfolding endpoint_kind noted_workload
node_of system_namespaces label layer [] = record {
  label = label;
  namespace = none;
  workload = none;
  kind = app;
  layer = layer;
}
node_of system_namespaces label layer (ep ∷ eps) = record {
  label = label;
  namespace = ep.namespace;
  workload = noted_workload ep eps;
  kind = endpoint_kind system_namespaces ep;
  layer = layer;
}

-- by layer, then by name
layer_before : Text × ℕ → Text × ℕ → Bool
layer_before (a, m) (b, n) = if ltb m n then true else if ltb n m then false else text_before a b

pub nodes_in : List Text → List FlowEndpoint → Layers → List Node
unfolding node_of with_label
nodes_in system_namespaces eps [] = []
nodes_in system_namespaces eps ((label, layer) ∷ ls) =
    node_of system_namespaces label layer (with_label label eps) ∷ nodes_in system_namespaces eps ls

-- `order` is that in which Python iterates over a set
unfoldable pub nodes_of_edges :
    (List Text → List Text) → List Text → List FlowEndpoint → Edges → List Node
unfolding nodes_in layer_before
nodes_of_edges order system_namespaces eps edges =
    nodes_in system_namespaces eps (sort_by layer_before (assign_layers order edges))
