-- ===== src/Core.antt =====
-- The platform-independent application core, crates/xray-manager-core.
pub mod Ports
pub mod Error
pub mod Config
pub mod Profiles
pub mod Json
pub mod Routing
pub mod Domain
pub mod Events
pub mod Backends
pub mod Application
pub mod Operations
pub mod Plans
pub mod Subscription
pub mod Render
pub mod Protocols
pub mod Execution
pub mod Queries
pub mod Probe
