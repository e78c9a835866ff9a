-- ===== src/Dashboard.antt =====
-- operator/k8s_traffic_operator/dashboard/: the login, the settings, and the flows that are shown.
pub mod Credentials
pub mod Sessions
pub mod Access
pub mod Settings
pub mod FlowCache
pub mod Layers
pub mod Counters
pub mod Nodes
pub mod Flows
pub mod Summary
