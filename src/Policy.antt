-- ===== src/Policy.antt =====
-- operator/k8s_traffic_operator/policy/: baselines, anomaly detection, scaling, and the engine.
pub mod Baseline
pub mod Anomaly
pub mod Scaling
pub mod Status
pub mod Recovery
pub mod Messages
pub mod Weights
pub mod Engine
