-- ===== src/Tests.antt =====
-- Theorems at concrete inputs.
mod Core
mod Registry
mod Application
mod Operations
mod Portable
mod Probe
mod Owned
mod Protocols
mod Execution
mod Queries
mod Linux
