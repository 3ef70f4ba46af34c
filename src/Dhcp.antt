-- ===== src/Dhcp.antt =====
-- The DHCP proxy, `src/dhcp_proxy`.
pub mod Cache
pub mod Lease
pub mod Address
pub mod Service
pub mod Requests
pub mod Paths
