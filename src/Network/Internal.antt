-- ===== src/Network/Internal.antt =====
-- What the drivers hand to the firewall, `src/network/internal_types.rs`.
use netavark.Prelude.{ℕ, String, Bool, Option, List}
use netavark.Network.Types.{IpAddr, IpNet, Network, NetAddress, PortMapping}

pub record PortForwardConfig : Type 0 where
  pub container_id : String
  pub port_mappings : Option (List PortMapping)
  pub network_name : String
  pub network_hash_name : String
  pub container_ip_v4 : Option IpAddr
  pub subnet_v4 : Option IpNet
  pub container_ip_v6 : Option IpAddr
  pub subnet_v6 : Option IpNet
  pub dns_port : ℕ
  pub dns_server_ips : List IpAddr

pub record TeardownPortForward : Type 0 where
  pub config : PortForwardConfig
  pub complete_teardown : Bool

pub record SetupNetwork : Type 0 where
  pub net : Network
  pub network_hash_name : String
  pub isolation : Bool

pub record TearDownNetwork : Type 0 where
  pub config : SetupNetwork
  pub complete_teardown : Bool

pub record IpamAddresses : Type 0 where
  pub container_addresses : List IpNet
  pub dhcp_enabled : Bool
  pub gateway_addresses : List IpNet
  pub ipv6_enabled : Bool
  pub net_addresses : List NetAddress
  pub nameservers : List IpAddr
