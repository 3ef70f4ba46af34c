-- ===== src/Network.antt =====
-- The network types of `src/network`, and the functions that read the network options.
pub mod Types
pub mod Internal
pub mod Text
pub mod Ipam
pub mod Netlink
pub mod Kernel
pub mod CoreUtils
pub mod Machine
pub mod Bridge
pub mod Vlan
pub mod Plugin
pub mod Drivers
