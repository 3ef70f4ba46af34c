-- ===== src/Firewall/Firewalld.antt =====
-- The firewalld driver, `src/firewall/firewalld.rs`.
pub mod Zones
pub mod Ports
pub mod Networks
