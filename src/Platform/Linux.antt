-- ===== src/Platform/Linux.antt =====
-- crates/xray-manager-platform/src/linux: what the adapters of Linux do to the network. The programs
-- that they run, the file of the rules and the clock are arguments.
pub mod Commands
pub mod Nftables
pub mod Tun
pub mod Kernel
pub mod Routes
pub mod Policy
pub mod Internal
pub mod Fulfilled
pub mod Closed
pub mod Obeys
pub mod Adapters
