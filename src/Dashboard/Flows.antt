-- ===== src/Dashboard/Flows.antt =====
-- dashboard/hubble_flows.py, `summarize`: which flows are shown, and their counts.
pub mod Counts
use samsung.Prelude.{
  ℕ, ℤ, eqb_ℤ, Bool, true, false, ◌&&◌, ◌||◌, not, Option, none, some, List, [], ◌∷◌, ◌++◌, Text,
  codes, text_eq, text_before, contains, length, ltb, ◌==◌, or_else, if◌then◌else◌,
}
use samsung.Actuator.Environment.{present}
use samsung.Hubble.{FlowEndpoint, FlowEvent}
use samsung.Hubble.Fetch.{Fetched, events, unavailable, crashed}
use samsung.Dashboard.Layers.{Edges}
use samsung.Dashboard.Nodes.{Node, nodes_of_edges}
use samsung.Dashboard.Counters.{bump, count_from, sort_by, most_common}

-- one of the pairs that are shown
pub record Pair : Type 0 where
  pub src : Text
  pub dst : Text
  pub protocol : Text
  pub dst_port : Option ℤ

pub record PairRow : Type 0 where
  pub pair : Pair
  pub count : ℕ
  pub last_seen : Text
  pub verdict : Text

-- `fetch_error` tells whether there is one; its text is left out.
pub record FlowSummary : Type 0 where
  pub total_flows : ℕ
  pub shown : ℕ
  pub scope : Text
  pub app_flows : ℕ
  pub namespace : Option Text
  pub focus : Option Text
  pub namespaces : List (Text × ℕ)
  pub verdicts : List (Text × ℕ)
  pub top_pairs : List PairRow
  pub nodes : List Node
  pub fetch_error : Bool

same_port : Option ℤ → Option ℤ → Bool
same_port none none = true
same_port (some m) (some n) = eqb_ℤ m n
same_port _ _ = false

pub same_pair : Pair → Pair → Bool
unfolding same_port
same_pair p q =
    text_eq p.src q.src
    && (text_eq p.dst q.dst && (text_eq p.protocol q.protocol && same_port p.dst_port q.dst_port))

-- more flows first, then by name
pub namespace_before : Text × ℕ → Text × ℕ → Bool
namespace_before (a, m) (b, n) =
    if ltb n m then true else if ltb m n then false else text_before a b

pub equals : Option Text → Text → Bool
equals none t = false
equals (some s) t = text_eq s t

pub is_system_endpoint : List Text → FlowEndpoint → Bool
is_system_endpoint system_namespaces ep = elim ep.namespace [
  | none ↦ true
  | some ns ↦ contains ns system_namespaces
]

edges_of : List PairRow → Edges
edges_of [] = []
edges_of (r ∷ rs) = (r.pair.src, r.pair.dst) ∷ edges_of rs

first_key : List (Text × ℕ) → Text
first_key [] = []
first_key ((v, n) ∷ r) = v

-- the summary of a failed fetch
pub failed_summary : Text → Option Text → Option Text → FlowSummary
failed_summary scope namespace focus = record {
  total_flows = 0;
  shown = 0;
  scope = scope;
  app_flows = 0;
  namespace = namespace;
  focus = focus;
  namespaces = [];
  verdicts = [];
  top_pairs = [];
  nodes = [];
  fetch_error = true;
}

module _ {F : Type 0} (system_namespaces : List Text) where
  pub is_application_flow : FlowEvent F → Bool
  unfolding is_system_endpoint
  is_application_flow ev =
      not
        (is_system_endpoint system_namespaces ev.src && is_system_endpoint system_namespaces ev.dst)

module _ {F : Type 0} where
  -- the namespaces of both ends, without repetition
  pub flow_namespaces : FlowEvent F → List Text
  flow_namespaces ev = elim (present ev.src.namespace) [
    | none ↦ elim (present ev.dst.namespace) [ none ↦ [] | some b ↦ b ∷ [] ]
    | some a ↦ elim (present ev.dst.namespace) [
      | none ↦ a ∷ []
      | some b ↦ if text_eq a b then a ∷ [] else a ∷ b ∷ []
    ]
  ]

  pub flow_in_namespace : Text → FlowEvent F → Bool
  unfolding equals
  flow_in_namespace namespace ev =
      equals ev.src.namespace namespace || equals ev.dst.namespace namespace

  pub flow_touches : Text → FlowEvent F → Bool
  flow_touches label ev = text_eq ev.src.label label || text_eq ev.dst.label label

  -- `[ev for ev in flows if p(ev)]`
  pub keep : (FlowEvent F → Bool) → List (FlowEvent F) → List (FlowEvent F)
  keep p [] = []
  keep p (ev ∷ evs) = let rest = keep p evs in if p ev then ev ∷ rest else rest

  -- the filter of an optional text, where it is not empty
  pub keep_if_given :
      (Text → FlowEvent F → Bool) → Option Text → List (FlowEvent F) → List (FlowEvent F)
  unfolding keep
  keep_if_given p none evs = evs
  keep_if_given p (some t) evs = keep (p t) evs

  pub all_namespaces : List (FlowEvent F) → List Text
  unfolding flow_namespaces
  all_namespaces [] = []
  all_namespaces (ev ∷ evs) = flow_namespaces ev ++ all_namespaces evs

  pub pair_of : FlowEvent F → Pair
  pair_of ev = record {
    src = ev.src.label;
    dst = ev.dst.label;
    protocol = ev.protocol;
    dst_port = ev.dst_port;
  }

  pub pairs_of : List (FlowEvent F) → List Pair
  unfolding pair_of
  pairs_of [] = []
  pairs_of (ev ∷ evs) = pair_of ev ∷ pairs_of evs

  pub verdicts_of : List (FlowEvent F) → List Text
  verdicts_of [] = []
  verdicts_of (ev ∷ evs) = ev.verdict ∷ verdicts_of evs

  pub endpoints_of : List (FlowEvent F) → List FlowEndpoint
  endpoints_of [] = []
  endpoints_of (ev ∷ evs) = ev.src ∷ ev.dst ∷ endpoints_of evs

  -- `pair_last_seen[key]`: the last flow of the pair
  pub last_seen_of : Pair → Text → List (FlowEvent F) → Text
  unfolding same_pair pair_of
  last_seen_of k seen [] = seen
  last_seen_of k seen (ev ∷ evs) =
      last_seen_of k (if same_pair k (pair_of ev) then ev.time else seen) evs

  -- the verdict that most flows of the pair have, the first one among equals
  pub main_verdict : Pair → List (FlowEvent F) → Text
  unfolding first_key verdicts_of keep same_pair pair_of
  main_verdict k evs = first_key (
      most_common 1
        (count_from text_eq [] (verdicts_of (keep (λ ev. same_pair k (pair_of ev)) evs))))

  pub rows_of : List (FlowEvent F) → List (Pair × ℕ) → List PairRow
  unfolding last_seen_of main_verdict
  rows_of evs [] = []
  rows_of evs ((k, n) ∷ r) =
      (record {
        pair = k;
        count = n;
        last_seen = last_seen_of k [] evs;
        verdict = main_verdict k evs;
      })
      ∷ rows_of evs r

  module _ (system_namespaces : List Text) (top_n : ℕ) (scope : Text)
      (namespace focus : Option Text) where
    -- step 1
    pub scoped : List (FlowEvent F) → List (FlowEvent F)
    unfolding keep is_application_flow
    scoped evs =
        if text_eq scope (codes "all")
        then evs
        else keep (is_application_flow system_namespaces) evs

    -- steps 2 and 3
    pub selected : List (FlowEvent F) → List (FlowEvent F)
    unfolding scoped keep_if_given flow_in_namespace flow_touches
    selected evs =
        keep_if_given flow_touches (present focus)
          (keep_if_given flow_in_namespace (present namespace) (scoped evs))

    -- the pairs with the most flows
    pub top_rows : List (FlowEvent F) → List PairRow
    unfolding pairs_of rows_of same_pair
    top_rows evs = rows_of evs (most_common top_n (count_from same_pair [] (pairs_of evs)))

    -- `order` is that in which Python iterates over a set
    pub summarize : (List Text → List Text) → List (FlowEvent F) → FlowSummary
    unfolding selected all_namespaces namespace_before verdicts_of top_rows endpoints_of
        nodes_of_edges edges_of
    summarize order evs = record {
      total_flows = length evs;
      shown = length (selected evs);
      scope = scope;
      app_flows = length (keep (is_application_flow system_namespaces) evs);
      namespace = namespace;
      focus = focus;
      namespaces = sort_by namespace_before (count_from text_eq [] (all_namespaces (scoped evs)));
      verdicts = count_from text_eq [] (verdicts_of (selected evs));
      top_pairs = top_rows (selected evs);
      nodes =
          nodes_of_edges order system_namespaces (endpoints_of (selected evs))
            (edges_of (top_rows (selected evs)));
      fetch_error = false;
    }

    -- `fetch_summary`, from what the cached fetch gives on: none where an exception gets out
    unfoldable pub summary_of : (List Text → List Text) → Fetched F → Option FlowSummary
    unfolding summarize failed_summary
    summary_of order (events evs) = some (summarize order evs)
    summary_of order unavailable = some (failed_summary scope namespace focus)
    summary_of order crashed = none
