-- ===== src/Metrics/Adapters.antt =====
-- metrics/adapters/: the choice of an adapter, and the PromQL texts of those of Istio and Envoy Gateway.
pub mod Names
pub mod Runs
pub mod Nginx
pub mod Interface
use samsung.Prelude.{
  true, false, ◌&&◌, ◌==◌, Bool, ◌||◌, Option, none, some, List, [], ◌∷◌, ◌++◌, Text, codes,
  text_eq, join, contains, or_else, if◌then◌else◌,
}
use samsung.Actuator.Environment.{present, strip, trimmed_lower}

-- the registered implementations
pub data Impl : Type 0 where
  envoy_gateway istio nginx_gateway_fabric : Impl

pub impl_name : Impl → Text
impl_name envoy_gateway = codes "envoy-gateway"
impl_name istio = codes "istio"
impl_name nginx_gateway_fabric = codes "nginx-gateway-fabric"

-- `_ALIASES.get(key)`
aliased : Text → Text
aliased key =
    if contains key (codes "envoy" ∷ codes "envoygateway" ∷ codes "envoy_gateway" ∷ [])
    then codes "envoy-gateway"
    else if text_eq key (codes "istio-gateway")
    then codes "istio"
    else if contains key
        (codes "nginx" ∷ codes "ngf" ∷ codes "nginx-gateway" ∷ codes "nginx_gateway_fabric" ∷ [])
    then codes "nginx-gateway-fabric"
    else key

-- `_REGISTRY.get(key)`, with the default for a key that is not there
registered_impl : Text → Impl
registered_impl key =
    if text_eq key (codes "istio")
    then istio
    else if text_eq key (codes "nginx-gateway-fabric")
    then nginx_gateway_fabric
    else envoy_gateway

pub get_adapter : Option Text → Impl
unfolding aliased registered_impl
get_adapter impl = registered_impl (aliased (trimmed_lower (or_else impl [])))

-- rate(name{selector}[window])
pub rate : Text → Text → Text → Text
rate name selector window =
    codes "rate(" ++ (name ++ (codes "{" ++ (selector ++ (codes "}[" ++ (window ++ codes "])")))))

-- the queries of one adapter, from its names, its selector and its test of server errors
pub sum_all : Text → Text
sum_all r = codes "sum(" ++ (r ++ codes ")")

pub sum_by : Text → Text → Text
sum_by label r = codes "sum by (" ++ (label ++ (codes ") (" ++ (r ++ codes ")")))

quantile : Text → Text → Text
quantile q r = codes "histogram_quantile(" ++ (q ++ (codes ", " ++ (r ++ codes ")")))

pub aggregate : Text → Text → Text → Text → Text → List (Text × Text)
unfolding rate sum_all sum_by quantile
aggregate rq bucket errors sel window =
    (codes "total_rps", sum_all (rate rq sel window))
    ∷ (codes "error_rps", sum_all (rate rq (sel ++ errors) window))
    ∷ (codes "p50", quantile (codes "0.5") (sum_by (codes "le") (rate bucket sel window)))
    ∷ (codes "p95", quantile (codes "0.95") (sum_by (codes "le") (rate bucket sel window)))
    ∷ (codes "p99", quantile (codes "0.99") (sum_by (codes "le") (rate bucket sel window)))
    ∷ []

pub per_backend : Text → Text → Text → Text → Text → Text → List (Text × Text)
unfolding rate sum_by quantile
per_backend label rq bucket errors sel window =
    (codes "rps", sum_by label (rate rq sel window))
    ∷ (codes "error_rps", sum_by label (rate rq (sel ++ errors) window))
    ∷ (
      codes "p99",
      quantile (codes "0.99") (sum_by (label ++ codes ", le") (rate bucket sel window)),
    )
    ∷ []

istio_selector : Text → Option Text → Text
istio_selector route namespace = join (codes ",") (
    (codes "destination_service_name=~\"" ++ (route ++ codes ".*\"")) ∷ (elim (present namespace) [
      | none ↦ codes "reporter=\"destination\"" ∷ []
      | some ns ↦
          (codes "destination_service_namespace=\"" ++ (ns ++ codes "\""))
          ∷ codes "reporter=\"destination\""
          ∷ []
    ]))

pub istio_aggregate_queries : Text → Option Text → Text → List (Text × Text)
unfolding istio_selector
istio_aggregate_queries route namespace window =
    aggregate (codes "istio_requests_total") (codes "istio_request_duration_milliseconds_bucket")
      (codes ",response_code=~\"5..\"") (istio_selector route namespace) window

pub istio_backend_queries : Text → Option Text → Text → List (Text × Text)
unfolding istio_selector
istio_backend_queries route namespace window =
    per_backend (codes "destination_workload") (codes "istio_requests_total")
      (codes "istio_request_duration_milliseconds_bucket") (codes ",response_code=~\"5..\"")
      (istio_selector route namespace) window

-- the namespace is not used
envoy_selector : Text → Option Text → Text
envoy_selector route namespace = codes "envoy_http_conn_manager_prefix=\"" ++ (route ++ codes "\"")

pub envoy_aggregate_queries : Text → Option Text → Text → List (Text × Text)
unfolding envoy_selector
envoy_aggregate_queries route namespace window =
    aggregate (codes "envoy_http_downstream_rq_total")
      (codes "envoy_http_downstream_rq_time_bucket") (codes ",envoy_response_code_class=\"5\"")
      (envoy_selector route namespace) window

pub envoy_backend_queries : Text → Option Text → Text → List (Text × Text)
unfolding envoy_selector
envoy_backend_queries route namespace window =
    per_backend (codes "envoy_cluster_name") (codes "envoy_http_downstream_rq_total")
      (codes "envoy_http_downstream_rq_time_bucket") (codes ",envoy_response_code_class=\"5\"")
      (envoy_selector route namespace) window

starts_with : Text → Text → Bool
starts_with [] s = true
starts_with (c ∷ p) [] = false
starts_with (c ∷ p) (d ∷ s) = (c == d) && starts_with p s

-- `part in s`
contains_text : Text → Text → Bool
unfolding starts_with
contains_text part [] = starts_with part []
contains_text part (c ∷ s) = starts_with part (c ∷ s) || contains_text part s

-- `s.rsplit("/", 1)[-1]`; `last` is what stands before `s`
after_slash : Text → Text → Text
after_slash last [] = last
after_slash last (c ∷ s) =
    let cut = after_slash [] s in
    let kept = after_slash (last ++ c ∷ []) s in if c == b'/' then cut else kept

-- `map_backend_name` of Envoy Gateway
pub envoy_map_backend_name : Text → Text
unfolding contains_text after_slash
envoy_map_backend_name label =
    let val = strip label in
    if starts_with (codes "httproute/") val
      || (contains_text (codes "/rule/") val || contains_text (codes "/backend/") val)
    then val
    else after_slash [] val
