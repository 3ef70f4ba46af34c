-- ===== src/Network/Vlan/Dhcp.antt =====
-- `src/network/macvlan_dhcp.rs`: a lease is asked of the DHCP proxy, and given back.
use netavark.Prelude.{
  ℕ, zero, suc, String, ◌<>◌, ◌+◌, ◌/◌, ◌%◌, Option, none, some, List, [], ◌∷◌, Result, ok, err,
}
use netavark.Error.{NetavarkResult, msg, message}
use netavark.Action.{Action}
use netavark.Network.Types.{IpAddr, NetAddress}
use netavark.Network.Text.{NetText}
use netavark.Network.Bridge.Options.{and_then}
use netavark.Dhcp.Cache.{Lease}

-- `NetworkConfig` of `src/proto/proxy.proto`. The version is 0 for IPv4.
pub record NetworkConfig : Type 0 where
  pub host_iface : String
  pub domain_name : String
  pub host_name : String
  pub version : ℕ
  pub ns_path : String
  pub container_iface : String
  pub container_mac_addr : String

-- The asynchronous runtime, the calls of the proxy over its socket, and the parsing of addresses,
-- which the standard library does.
pub record DhcpClient (S : Type 0) : Type 0 where
  pub build_runtime : S → Result String Unit
  pub get_lease : NetworkConfig → S → Result String Lease × S
  pub drop_lease : NetworkConfig → S → Result String Lease × S
  pub parse_ip : String → Result String IpAddr
  pub parse_ipv4 : String → Result String ℕ

-- `count_ones`, of a number of as many bits as the first argument.
abbrev pub count_ones : ℕ → ℕ → ℕ
count_ones zero n = 0
count_ones (suc bits) n = n % 2 + count_ones bits (n / 2)

abbrev pub lease_config : String → String → String → String → NetworkConfig
lease_config host_network_interface container_network_interface ns_path container_macvlan_mac =
    record {
      host_iface = host_network_interface;
      domain_name = "";
      host_name = "";
      version = 0;
      ns_path = ns_path;
      container_iface = container_network_interface;
      container_mac_addr = container_macvlan_mac;
    }

module _ {S : Type 0} (dhcp : DhcpClient S) where
  -- The addresses of a lease with this first gateway.
  unfoldable pub read_lease : NetText → Lease → String → NetavarkResult (List NetAddress)
  read_lease net_text lease gateway =
      and_then (dhcp.parse_ip gateway) (λ e. err (msg ("bad gateway address: " <> e)))
        λ gw.
          and_then (dhcp.parse_ip lease.yiaddr) (λ e. err (message e))
            λ ip_addr.
              and_then (dhcp.parse_ipv4 lease.subnet_mask) (λ e. err (message e))
                λ subnet_mask.
                  and_then (net_text.new_net ip_addr (count_ones 32 subnet_mask)) (λ e. err (msg e))
                    λ ip. ok (record { gateway = some gw; ipnet = ip } ∷ [])

  -- `none` is the panic of `lease.gateways[0]` on a lease without gateways.
  unfoldable pub addresses_of_lease : NetText → Lease → Option (NetavarkResult (List NetAddress))
  unfolding read_lease
  addresses_of_lease net_text lease = elim lease.gateways [
    | [] ↦ none
    | gateway ∷ _ ↦ some (read_lease net_text lease gateway)
  ]

  unfoldable pub get_dhcp_lease :
      NetText → NetworkConfig → S → Option (NetavarkResult (List NetAddress) × S)
  unfolding addresses_of_lease
  get_dhcp_lease net_text nvp_config s = elim (dhcp.build_runtime s) [
    | err e ↦ some (err (msg ("unable to build thread: " <> e)), s)
    | ok _ ↦
        let (r, s') = dhcp.get_lease nvp_config s in
        elim r [
          | err e ↦ some (err (msg ("unable to obtain lease: " <> e)), s')
          | ok lease ↦ elim (addresses_of_lease net_text lease) [
            | none ↦ none
            | some subnets ↦ some (subnets, s')
          ]
        ]
  ]

  unfoldable pub release_dhcp_lease : NetworkConfig → Action S Unit
  release_dhcp_lease nvp_config s = elim (dhcp.build_runtime s) [
    | err e ↦ (err (msg ("unable to build thread: " <> e)), s)
    | ok _ ↦
        let (r, s') = dhcp.drop_lease nvp_config s in
        elim r [ err e ↦ (err (message e), s') | ok _ ↦ (ok tt, s') ]
  ]
