-- ===== src/Tests.antt =====
-- Test data, and the theorems at concrete inputs.
mod Data
mod Networks
mod Chains
mod Ports
mod Firewalld
mod Commands
mod Cache
mod Ipam
mod Kernel
mod Bridge
mod Links
mod Netlink
mod Dns
mod Dhcp
