-- ===== src/Metrics/Collector.antt =====
-- metrics/collector.py: one snapshot of the traffic, from Prometheus or from Hubble. The metrics
-- part of the spec, which the CRD does not type, is a record of its own.
pub mod Honest
use samsung.Prelude.{
  ℕ, ℤ, Bool, true, false, Option, none, some, List, [], ◌∷◌, ◌++◌, Text, codes, contains, join,
  text_eq, nonempty, or_else, Float, if◌then◌else◌,
}
use samsung.Schemas.{BackendTraffic, ok, no_data, collection_failed, TrafficSnapshot, Target, Spec}
use samsung.Actuator.Environment.{present, trimmed_lower}
use samsung.Actuator.Executor.{target_of_spec}
use samsung.Metrics.Prometheus.{Session, FloatText, Sample, Try, samples, error, query}
use samsung.Metrics.Adapters.{Impl, get_adapter}
use samsung.Metrics.Adapters.Interface.{
  backend_label, latency_unit, aggregate_queries, backend_queries, map_backend_name,
}
use samsung.Metrics.Window.{parse_window}
use samsung.Metrics.Values.{get, scalar, vector, safe_ratio, to_ms, or_zero, join_backends}
use samsung.Metrics.Calls.{Call, return, fail, ◌>>=◌}
use samsung.Metrics.HubbleCollector.{empty_snapshot}

-- spec.metrics
pub record MetricsConfig : Type 0 where
  pub implementation : Option Text
  pub prometheus_url : Option Text

-- The environment of the process, and what it collects from: the HTTP session of a base URL, the
-- labels of a sample, the Hubble collector.
pub record Sources (F W L : Type 0) : Type 0 where
  pub gateway_implementation : Option Text
  pub prometheus_url_variable : Option Text
  pub session : Text → Session W L
  pub label : L → Text → Option Text
  pub hubble : Target → ℤ → F → Call W (TrafficSnapshot F)

first_present : Option Text → Option Text → Text → Text
first_present a b default = elim (present a) [
  | some t ↦ t
  | none ↦ elim (present b) [ some t ↦ t | none ↦ default ]
]

pub is_hubble_name : Text → Bool
is_hubble_name impl =
    contains (trimmed_lower impl) (codes "cilium-hubble" ∷ codes "hubble" ∷ codes "cilium" ∷ [])

-- `s.labels.get(label, "")`
label_text : {L : Type 0} → (L → Text → Option Text) → Text → Option L → Text
label_text lookup name none = []
label_text lookup name (some labels) = or_else (lookup labels name) []

-- the PromQL of the ready pods
pub ready_query : Text → Option Text → Text
ready_query deployment namespace =
    codes "sum(kube_deployment_status_replicas_ready{"
    ++ (join (codes ",") (
          (codes "deployment=\"" ++ (deployment ++ codes "\"")) ∷ (elim (present namespace) [
            | none ↦ []
            | some ns ↦ (codes "namespace=\"" ++ (ns ++ codes "\"")) ∷ []
          ]))
        ++ codes "})")

module _ {F W L : Type 0} ⦃fl : Float F⦄ ⦃ft : FloatText F⦄ (s : Sources F W L) where
  pub resolve_impl : Option MetricsConfig → Text
  unfolding first_present
  resolve_impl none = first_present s.gateway_implementation none (codes "envoy-gateway")
  resolve_impl (some cfg) =
      first_present s.gateway_implementation cfg.implementation (codes "envoy-gateway")

  pub client_url : Option MetricsConfig → Text
  unfolding first_present
  client_url none =
      first_present s.prometheus_url_variable none
        (codes "http://prometheus-server.monitoring.svc:80")
  client_url (some cfg) =
      first_present s.prometheus_url_variable cfg.prometheus_url
        (codes "http://prometheus-server.monitoring.svc:80")

  -- `client.query(promql)` of a client with one retry; an error raises
  result_of : Try F L × W → Option (List (Sample F L)) × W
  result_of (samples xs, w) = (some xs, w)
  result_of (error e, w) = (none, w)

  pub ask : Text → Text → Call W (List (Sample F L))
  unfolding result_of
  ask url promql w = result_of (query (s.session url) promql 1 w)

  -- `client.query(queries[key])`
  pub ask_for : Text → Text → List (Text × Text) → Call W (List (Sample F L))
  unfolding ask
  ask_for url key queries = elim (get key queries) [ none ↦ fail | some promql ↦ ask url promql ]

  -- the reply about the ready pods: an error is absorbed, `int(round(val))` may raise
  pods_of : Option (List (Sample F L)) × W → Option (Option ℤ) × W
  pods_of (none, w) = (some none, w)
  pods_of (some xs, w) = elim (scalar xs) [
    | none ↦ (some none, w)
    | some val ↦ elim (fl.round val) [ none ↦ (none, w) | some n ↦ (some (some n), w) ]
  ]

  pub query_ready_pods : Text → Option Text → Option Text → Call W (Option ℤ)
  unfolding ask pods_of ready_query
  query_ready_pods url deployment namespace w = elim (present deployment) [
    | none ↦ (some none, w)
    | some dep ↦ pods_of (ask url (ready_query dep namespace) w)
  ]

  pub build_per_backend : Text → Impl → List (Text × Text) → Call W (List (BackendTraffic F))
  unfolding ask_for label_text
  build_per_backend url adapter bk_q =
      let by = vector (label_text s.label (backend_label adapter)) (map_backend_name adapter) in
      do
        rps ← ask_for url (codes "rps") bk_q
        errors ← ask_for url (codes "error_rps") bk_q
        p99 ← ask_for url (codes "p99") bk_q
        return (join_backends (by rps) (by errors) (by p99) (latency_unit adapter))

  -- the rest of `_collect`, from the rate of requests on
  pub observed : Text → Impl → Target → Text → Text → ℤ → F → F → Call W (TrafficSnapshot F)
  unfolding ask_for build_per_backend query_ready_pods
  observed url adapter target route window window_seconds now total_rps =
      let agg_q = aggregate_queries adapter route target.namespace window in
      do
        errors ← ask_for url (codes "error_rps") agg_q
        p50 ← ask_for url (codes "p50") agg_q
        p95 ← ask_for url (codes "p95") agg_q
        p99 ← ask_for url (codes "p99") agg_q
        backends ←
            build_per_backend url adapter (backend_queries adapter route target.namespace window)
        ready ← query_ready_pods url target.deployment target.namespace
        return (record {
          status = ok;
          timestamp = now;
          window_seconds = window_seconds;
          rps = some total_rps;
          error_rate = some (safe_ratio (or_zero (scalar errors)) total_rps);
          p50_latency_ms = to_ms (scalar p50) (latency_unit adapter);
          p95_latency_ms = to_ms (scalar p95) (latency_unit adapter);
          p99_latency_ms = to_ms (scalar p99) (latency_unit adapter);
          total_ready_pods = ready;
          per_backend = backends;
        })

  after_total : Text → Impl → Target → Text → Text → ℤ → F → Option F → Call W (TrafficSnapshot F)
  unfolding observed
  after_total url adapter target route window window_seconds now none =
      return (empty_snapshot no_data now window_seconds)
  after_total url adapter target route window window_seconds now (some total_rps) =
      observed url adapter target route window window_seconds now total_rps

  -- `_collect`
  pub collect_route : Text → Impl → Target → Text → Text → ℤ → F → Call W (TrafficSnapshot F)
  unfolding after_total ask_for
  collect_route url adapter target route window window_seconds now = do
    total ←
        ask_for url (codes "total_rps") (aggregate_queries adapter route target.namespace window)
    after_total url adapter target route window window_seconds now (scalar total)

  -- the body of the `try` of `collect`
  pub attempt : Spec F → Option MetricsConfig → Text → ℤ → F → Call W (TrafficSnapshot F)
  unfolding resolve_impl client_url collect_route
  attempt spec cfg window window_seconds now =
      let target = target_of_spec spec in
      if is_hubble_name (resolve_impl cfg)
      then s.hubble target window_seconds now
      else elim (present target.http_route) [
        | none ↦ return (empty_snapshot collection_failed now window_seconds)
        | some route ↦
            collect_route (client_url cfg) (get_adapter (some (resolve_impl cfg))) target route
              window window_seconds now
      ]

  -- its handlers: whatever was raised, the snapshot is a failed one
  handled : ℤ → F → Option (TrafficSnapshot F) × W → TrafficSnapshot F × W
  handled window_seconds now (none, w) = (empty_snapshot collection_failed now window_seconds, w)
  handled window_seconds now (some snapshot, w) = (snapshot, w)

  -- `collect`, after the reading of the window, which is outside the `try`: `none` where that raised
  pub collect_in :
      Spec F → Option MetricsConfig → F → Option (Text × ℤ) → W → Option (TrafficSnapshot F × W)
  unfolding attempt handled
  collect_in spec cfg now none w = none
  collect_in spec cfg now (some (window, window_seconds)) w =
      some (handled window_seconds now (attempt spec cfg window window_seconds now w))

  pub collect : Spec F → Option MetricsConfig → F → W → Option (TrafficSnapshot F × W)
  unfolding collect_in
  collect spec cfg now w = collect_in spec cfg now (parse_window F spec.window) w
