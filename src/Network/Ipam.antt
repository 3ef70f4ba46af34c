-- ===== src/Network/Ipam.antt =====
-- `get_ipam_addresses` of `src/network/core_utils.rs`, with the names of the IPAM drivers of
-- `src/network/constants.rs`. An index out of range is a panic, `none`.
pub mod HostLocal
pub mod Zipped
use netavark.Prelude.{
  ℕ, suc, String, ◌<>◌, Bool, true, false, ◌||◌, Option, none, some, List, [], ◌∷◌, ◌++◌, Result,
  ok, err, get_elem?, show_ℕ, str_eq, if◌then◌else◌,
}
use netavark.Prelude.Dict.{Dict, lookup}
use netavark.Error.{IoError, other}
use netavark.Network.Types.{IpAddr, is_ipv6, IpNet, Subnet, Network, PerNetworkOptions, NetAddress}
use netavark.Network.Internal.{IpamAddresses}
use netavark.Network.Text.{NetText}

abbrev pub ipam_hostlocal : String
ipam_hostlocal = "host-local"

abbrev pub ipam_dhcp : String
ipam_dhcp = "dhcp"

abbrev pub ipam_none : String
ipam_none = "none"

abbrev pub other_error : String → IoError
other_error text = record { kind = other; text = text }

abbrev pub no_addresses : Bool → IpamAddresses
no_addresses dhcp = record {
  container_addresses = [];
  dhcp_enabled = dhcp;
  gateway_addresses = [];
  ipv6_enabled = false;
  net_addresses = [];
  nameservers = [];
}

abbrev pub subnets_of : Option (List Subnet) → List Subnet
subnets_of none = []
subnets_of (some subnets) = subnets

-- The value of the option `driver`.
abbrev pub ipam_driver : Option (Dict String) → Option String
ipam_driver none = none
ipam_driver (some options) = lookup "driver" options

module _ (text : NetText) where
  -- The gateway of a subnet is also a nameserver.
  abbrev pub with_gateway : Option IpAddr → ℕ → IpamAddresses → Result IoError IpamAddresses
  with_gateway none subnet_mask_cidr acc = ok acc
  with_gateway (some gw) subnet_mask_cidr acc = elim (text.new_net gw subnet_mask_cidr) [
    | err e ↦ err (
        other_error (
          "failed to parse address "
          <> (text.show_ip gw <> ("/" <> (show_ℕ subnet_mask_cidr <> (": " <> e))))))
    | ok gw_net ↦ ok (record acc {
      gateway_addresses = acc.gateway_addresses ++ (gw_net ∷ []);
      nameservers = acc.nameservers ++ (gw ∷ []);
    })
  ]

  abbrev pub with_ipv6 : Subnet → IpamAddresses → IpamAddresses
  with_ipv6 subnet acc = record acc {
    ipv6_enabled = if is_ipv6 subnet.subnet.addr then true else acc.ipv6_enabled;
  }

  abbrev pub with_address : Subnet → IpNet → IpamAddresses → IpamAddresses
  with_address subnet container_address acc = record acc {
    container_addresses = acc.container_addresses ++ (container_address ∷ []);
    net_addresses =
        acc.net_addresses ++ (record { gateway = subnet.gateway; ipnet = container_address } ∷ []);
  }

  -- The body of the loop, with the index of the subnet.
  unfoldable pub add_subnet :
      List IpAddr → ℕ → Subnet → IpamAddresses → Option (Result IoError IpamAddresses)
  add_subnet static_ips idx subnet acc =
      elim (with_gateway subnet.gateway subnet.subnet.prefix_len acc) [
        | err e ↦ some (err e)
        | ok acc' ↦ elim (get_elem? static_ips idx) [
          | none ↦ none
          | some ip ↦
              elim (text.parse_net (text.show_ip ip <> ("/" <> show_ℕ subnet.subnet.prefix_len))) [
                | err e ↦ some (err (other_error e))
                | ok container_address ↦
                    some (ok (with_address subnet container_address (with_ipv6 subnet acc')))
              ]
        ]
      ]

  unfoldable pub add_subnets :
      List IpAddr → ℕ → List Subnet → IpamAddresses → Option (Result IoError IpamAddresses)
  add_subnets static_ips idx [] acc = some (ok acc)
  add_subnets static_ips idx (subnet ∷ subnets) acc = elim (add_subnet static_ips idx subnet acc) [
    | none ↦ none
    | some (err e) ↦ some (err e)
    | some (ok acc') ↦ add_subnets static_ips (suc idx) subnets acc'
  ]

  unfoldable pub host_local : PerNetworkOptions → Network → Option (Result IoError IpamAddresses)
  unfolding add_subnets
  host_local per_network_opts network = elim per_network_opts.static_ips [
    | none ↦ some (err (other_error "no static ips provided"))
    | some static_ips ↦ add_subnets static_ips 0 (subnets_of network.subnets) (no_addresses false)
  ]

  unfoldable pub get_ipam_addresses :
      PerNetworkOptions → Network → Option (Result IoError IpamAddresses)
  get_ipam_addresses per_network_opts network = elim (ipam_driver network.ipam_options) [
    | none ↦ host_local per_network_opts network
    | some driver ↦
        if str_eq driver ipam_hostlocal
        then host_local per_network_opts network
        else if str_eq driver ipam_none
        then some (ok (no_addresses false))
        else if str_eq driver ipam_dhcp
        then some (ok (no_addresses true))
        else some (err (other_error ("unsupported ipam driver " <> driver)))
  ]
