-- ===== src/Lib.antt =====
-- A Kubernetes operator that watches the traffic of a deployment behind an HTTPRoute and answers by
-- scaling the deployment or by moving the weights of the route (operator/k8s_traffic_operator/).
--
-- How the parts interact. A timer (handlers.py, `reconcile`) takes a snapshot of the traffic
-- (metrics/collector.py, from Prometheus or from Hubble), lets the policy turn it into one decision (`evaluate`), and lets the actuator carry the
-- decision out (`apply`). The decision is written to the status of the TrafficPolicy, and the next
-- `evaluate` reads from there the cooldown, the weights and the state of a recovery.
--
-- Which file models which part:
--   Prelude              shared names; Tests, Integers (Python's int over the native numbers),
--                        Texts (a str as its code points; str, join, repr), Floats
--   Schemas              schemas.py, and the spec as crds/trafficpolicy.yaml types it
--   Policy.Baseline      policy/baseline.py; the module's dict of baselines is a store that is threaded
--   Policy.Anomaly       policy/anomaly.py, `assess_anomaly` and `_find_culprit_backends`
--   Policy.Scaling       policy/scaling.py, `assess_scaling` and `capacity_target_for_anomaly`
--   Policy.Status        policy/engine.py, what it reads from the status, `_cooldown_remaining`
--   Policy.Recovery      policy/engine.py, `_parse_recovery_marker` and `_recovery_state`
--   Policy.Weights       policy/engine.py, `_isolation_weights` and `_current_pods`
--   Policy.Messages      policy/engine.py, the reasons of the decisions
--   Policy.Engine        policy/engine.py, `evaluate`, one function for each stage
--   Actuator.Cluster     the kubernetes client as a parameter; actuator/_result.py
--   Actuator.Scaler      actuator/scaler.py
--   Actuator.Weights     actuator/router.py, the weights and the pass over a route
--   Actuator.Router      actuator/router.py, `_get_route` and `set_backend_weights`
--   Actuator.Environment actuator/executor.py, the clients, the namespace, the dry-run switch
--   Actuator.Executor    actuator/executor.py, `apply`, `_do_scale`, `_do_reroute`
--   Metrics.Prometheus   metrics/prometheus_client.py, `query`, `_parse_vector` and `_to_float`
--   Metrics.Adapters     metrics/adapters/, `get_adapter` and the queries of istio.py, envoy_gateway.py;
--                        Nginx is nginx_gateway_fabric.py, Interface the operations of base.py
--   Metrics.Window       metrics/collector.py, `_parse_window`; handlers.py, `_parse_window_seconds`
--   Metrics.Values       metrics/collector.py, the helpers on values and the join over backends
--   Metrics.Calls        code that calls and may raise, as functions of the world
--   Metrics.Collector    metrics/collector.py, `collect`, `_collect`, `_build_per_backend`
--   Metrics.HubbleCollector  metrics/hubble_collector.py
--   Hubble               hubble_client.py; Times is `_parse_flow_time`, Lines `_parse_flow_line`,
--                        Fetch `fetch_flows`
--   Handlers             handlers.py, `register_policy` and `reconcile`
--   Dashboard.Credentials    dashboard/auth.py, the store, `verify`, `update_credentials`
--   Dashboard.Sessions       dashboard/auth.py, `issue_session` and `session_user`
--   Dashboard.Access         dashboard/app.py, the middleware, the login and the logout
--   Dashboard.Settings       dashboard/app.py, `settings_submit`
--   Dashboard.FlowCache      dashboard/hubble_flows.py, `_fetch_flows_cached`
--   Dashboard.Counters       collections.Counter and `sorted`, as hubble_flows.py uses them
--   Dashboard.Layers         dashboard/hubble_flows.py, `_assign_layers`
--   Dashboard.Nodes          dashboard/hubble_flows.py, `_endpoint_kind`, `_note` and the nodes
--   Dashboard.Flows          dashboard/hubble_flows.py, the filters and `summarize`
--   Dashboard.Summary        dashboard/hubble_flows.py, `fetch_summary`
--   Tests                runs and examples at concrete inputs
-- The modules below these hold the lemmas and the theorems about them.
--
-- What is a parameter. Floats are a record of operations (Prelude.Floats); a theorem that needs a law
-- of them names it: that whole numbers below 2 ^ 53 are exact, that a part divided by its whole stays
-- from 0 to 1. The kubernetes client, the service account file and the environment are the record
-- Cluster, over any type of world; the HTTP session and `float()` are the records Session and
-- FloatText; the hubble command, the JSON decoder and the ISO dates are Command and Decoder; the hash
-- functions, hmac, base64 and hex are Crypto, and the random numbers, the clock and the file of the
-- dashboard are Machine. A theorem that needs it assumes that reads change nothing,
-- that the scale of one deployment is served as written, that floats follow IEEE 754 (Ieee), that base64
-- decodes what it encoded, that signatures tell the secrets of sessions apart, which are drawn once
-- (SeparatesKeys, IsPast), or that iterating over a set gives its elements (Enumerates); the order of
-- that iteration is the argument `order`. The clock is an argument; one request of the dashboard reads it once. The timer
-- takes the snapshot as an argument, which `collect` gives.
--
-- Errors. An ApiException is a reply of a call; any other exception is an attempt that raised, which
-- `apply` catches. `math.ceil` of an infinity or NaN raises, and then `evaluate` has no decision.
-- In the collector and the dashboard the result none stands for an exception that gets out.
--
-- Bounds and fuel. The attempts of `query` are one more than its retries. The loop of `set_backend_weights` runs over the two rounds of the source, and that
-- of `_get_route` over its two versions. The digits of a natural number are printed with the number
-- itself as fuel, which is enough since a quotient by 10 is smaller. The passes of `_assign_layers` are as many as the
-- source allows, one for each node. Integers have no bound, as in
-- Python; the quotient in `rounds_needed` is exact where Python's float quotient is, below 2 ^ 53.
--
-- What is read more narrowly than Python does: the spec has the types of the CRD, with a null field
-- read as an absent one (the API server drops it); white space, lower case, line breaks and digits are ASCII ones;
-- `repr` of a str escapes quotes, backslashes and the control characters of ASCII only; the status is
-- a dict that the operator itself wrote; the meta of a snapshot and the log are left out.
--
-- Not modelled: the pages of the dashboard and their data (dashboard/data.py,
-- the rest of dashboard/app.py), the cache of the Kubernetes client in metrics/hubble_collector.py, the
-- entry point, the choice of the fallbacks for missing modules, and how kopf merges the result of a
-- reconcile into the status.
pub mod Prelude
pub mod Schemas
pub mod Policy
pub mod Actuator
pub mod Metrics
pub mod Handlers
pub mod Hubble
pub mod Dashboard
pub mod Tests
