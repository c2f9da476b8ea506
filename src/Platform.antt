-- ===== src/Platform.antt =====
-- The operating-system integration, crates/xray-manager-platform.
pub mod Registry
pub mod Unsupported
pub mod Fake
pub mod Portable
pub mod Linux
