-- ===== src/Network/Bridge.antt =====
-- `src/network/bridge.rs`: the interfaces of the bridge driver. Its options, and the driver
-- itself with its calls of the firewall, are in the modules below.
pub mod Options
pub mod Links
pub mod Firewall
pub mod Driver
pub mod Namespace
pub mod Addresses
pub mod Outcome
