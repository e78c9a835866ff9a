-- ===== src/Tests.antt =====
-- Runs and examples at concrete inputs, for every part.
pub mod Fixtures
pub mod HubbleFixtures
pub mod Codec
mod Policy
mod Actuator
mod Handlers
mod Metrics
mod Dashboard
mod Collection
mod Flows
