-- ===== src/Network/Types.antt =====
-- The types that the program reads and answers with, `src/network/types.rs`. A `HashMap` is a
-- `Dict`. `IpAddr` is `std::net::IpAddr` with the address as a number, and `IpNet` is
-- `ipnet::IpNet`, an address with a prefix length.
use netavark.Prelude.{ℕ, String, Bool, true, false, Option, List}
use netavark.Prelude.Dict.{Dict}

pub data IpAddr : Type 0 where
  v4 : ℕ → IpAddr
  v6 : ℕ → IpAddr

abbrev pub is_ipv6 : IpAddr → Bool
is_ipv6 (v4 _) = false
is_ipv6 (v6 _) = true

pub record IpNet : Type 0 where
  pub addr : IpAddr
  pub prefix_len : ℕ

pub record LeaseRange : Type 0 where
  pub end_ip : Option String
  pub start_ip : Option String

pub record Subnet : Type 0 where
  pub gateway : Option IpAddr
  pub lease_range : Option LeaseRange
  pub subnet : IpNet

pub record Network : Type 0 where
  pub dns_enabled : Bool
  pub driver : String
  pub id : String
  pub internal : Bool
  pub ipv6_enabled : Bool
  pub name : String
  pub network_interface : Option String
  pub options : Option (Dict String)
  pub ipam_options : Option (Dict String)
  pub subnets : Option (List Subnet)
  pub network_dns_servers : Option (List IpAddr)

-- The ports and the range are `u16` in the source.
pub record PortMapping : Type 0 where
  pub container_port : ℕ
  pub host_ip : String
  pub host_port : ℕ
  pub protocol : String
  pub range : ℕ

pub record PerNetworkOptions : Type 0 where
  pub aliases : Option (List String)
  pub interface_name : String
  pub static_ips : Option (List IpAddr)
  pub static_mac : Option String

pub record NetworkOptions : Type 0 where
  pub container_id : String
  pub container_name : String
  pub networks : Dict PerNetworkOptions
  pub network_info : Dict Network
  pub port_mappings : Option (List PortMapping)
  pub dns_servers : Option (List IpAddr)

pub record NetAddress : Type 0 where
  pub gateway : Option IpAddr
  pub ipnet : IpNet

pub record NetInterface : Type 0 where
  pub mac_address : String
  pub subnets : Option (List NetAddress)

pub record StatusBlock : Type 0 where
  pub dns_search_domains : Option (List String)
  pub dns_server_ips : Option (List IpAddr)
  pub interfaces : Option (Dict NetInterface)
