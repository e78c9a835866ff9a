-- ===== src/Metrics.antt =====
-- operator/k8s_traffic_operator/metrics/: the queries to Prometheus.
pub mod Prometheus
pub mod Adapters
pub mod Window
pub mod Calls
pub mod Values
pub mod HubbleCollector
pub mod Collector
