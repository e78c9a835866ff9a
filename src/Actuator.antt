-- ===== src/Actuator.antt =====
-- operator/k8s_traffic_operator/actuator/: what carries a decision out on the cluster.
pub mod Cluster
pub mod Scaler
pub mod Weights
pub mod Router
pub mod Environment
pub mod Executor
