-- ===== src/Network/Vlan.antt =====
-- `src/network/vlan.rs`: the driver for macvlan and ipvlan interfaces, with the leases that it asks
-- the DHCP proxy for, `src/network/macvlan_dhcp.rs`.
pub mod Options
pub mod Creation
pub mod Links
pub mod Dhcp
pub mod Driver
