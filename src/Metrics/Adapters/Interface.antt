-- ===== src/Metrics/Adapters/Interface.antt =====
-- metrics/adapters/base.py: the interface of an adapter, with the operation of each implementation.
use samsung.Prelude.{Option, List, Text, codes}
use samsung.Metrics.Adapters.{
  Impl, envoy_gateway, istio, nginx_gateway_fabric, istio_aggregate_queries, istio_backend_queries,
  envoy_aggregate_queries, envoy_backend_queries, envoy_map_backend_name,
}
use samsung.Metrics.Adapters.Nginx.{
  nginx_aggregate_queries, nginx_backend_queries, nginx_map_backend_name,
}

pub backend_label : Impl → Text
backend_label envoy_gateway = codes "envoy_cluster_name"
backend_label istio = codes "destination_workload"
backend_label nginx_gateway_fabric = codes "upstream"

pub latency_unit : Impl → Text
latency_unit envoy_gateway = codes "ms"
latency_unit istio = codes "ms"
latency_unit nginx_gateway_fabric = codes "ms"

pub aggregate_queries : Impl → Text → Option Text → Text → List (Text × Text)
aggregate_queries envoy_gateway = envoy_aggregate_queries
aggregate_queries istio = istio_aggregate_queries
aggregate_queries nginx_gateway_fabric = nginx_aggregate_queries

pub backend_queries : Impl → Text → Option Text → Text → List (Text × Text)
backend_queries envoy_gateway = envoy_backend_queries
backend_queries istio = istio_backend_queries
backend_queries nginx_gateway_fabric = nginx_backend_queries

-- the identity in the base class, which Istio keeps
pub map_backend_name : Impl → Text → Text
map_backend_name envoy_gateway label_value = envoy_map_backend_name label_value
map_backend_name istio label_value = label_value
map_backend_name nginx_gateway_fabric label_value = nginx_map_backend_name label_value
