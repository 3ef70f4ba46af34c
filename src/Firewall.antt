-- ===== src/Firewall.antt =====
-- The firewall drivers, `src/firewall`.
pub mod Tables
pub mod Helpers
pub mod Chain
pub mod NetworkChains
pub mod PortChains
pub mod Bus
pub mod Firewalld
pub mod Driver
pub mod Interface
