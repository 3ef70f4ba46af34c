-- ===== src/Network/Machine.antt =====
-- The state that the network drivers work on: the kernel, as the netlink sockets, sysctls and
-- namespaces show it, the firewall, and the two `Once` cells of `src/network/bridge.rs`.
use netavark.Prelude.{ℕ, String, Bool, Option, List}
use netavark.Action.{Action}
use netavark.Network.Types.{IpAddr, Network, PerNetworkOptions, PortMapping}
use netavark.Network.Kernel.{Kernel}

-- `DriverInfo` of `src/network/driver.rs`, without the firewall driver.
pub record DriverInfo : Type 0 where
  pub container_id : String
  pub container_name : String
  pub container_dns_servers : Option (List IpAddr)
  pub netns_host : ℕ
  pub netns_container : ℕ
  pub netns_path : String
  pub network : Network
  pub per_network_opts : PerNetworkOptions
  pub port_mappings : Option (List PortMapping)
  pub dns_port : ℕ

pub record Machine (K : Kernel) (S : Type 0) : Type 0 where
  pub kernel : K.State
  pub firewall : S
  pub ipv4_forward_once : Bool
  pub ipv6_forward_once : Bool

module _ {K : Kernel} {S : Type 0} where
  abbrev pub on_kernel : {A : Type 0} → Action K.State A → Action (Machine K S) A
  on_kernel m h = let (r, k) = m h.kernel in (r, record h { kernel = k })

  abbrev pub on_firewall : {A : Type 0} → Action S A → Action (Machine K S) A
  on_firewall m h = let (r, f) = m h.firewall in (r, record h { firewall = f })
