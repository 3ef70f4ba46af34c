-- ===== src/Network/Bridge/Firewall.antt =====
-- The firewall part of the bridge driver: `get_firewall_conf`, `setup_firewall` and
-- `teardown_firewall`. `IpNet::new` does not fail there, its prefix length being that of a network.
use netavark.Prelude.{
  ◌<>◌, Bool, true, false, Option, none, some, List, [], ◌∷◌, ok, err, if◌then◌else◌,
}
use netavark.Error.{NetavarkResult}
use netavark.Action.{Action, pure, ◌>>◌}
use netavark.Network.Types.{IpAddr, is_ipv6, IpNet, PortMapping}
use netavark.Network.Internal.{PortForwardConfig, SetupNetwork}
use netavark.Network.Text.{NetText}
use netavark.Network.Ipam.{get_ipam_addresses}
use netavark.Network.Kernel.{Kernel, TextLib}
use netavark.Network.CoreUtils.{apply_sysctl, create_network_hash, parse_option}
use netavark.Network.Machine.{DriverInfo, Machine, on_kernel, on_firewall}
use netavark.Network.Bridge.Options.{InternalData}
use netavark.Firewall.Interface.{FirewallDriver}

-- The variables of the loop.
pub record Addresses : Type 0 where
  pub has_ipv4 : Bool
  pub has_ipv6 : Bool
  pub addr_v4 : Option IpAddr
  pub addr_v6 : Option IpAddr
  pub net_v4 : Option IpNet
  pub net_v6 : Option IpNet

abbrev pub no_addresses : Addresses
no_addresses = record {
  has_ipv4 = false;
  has_ipv6 = false;
  addr_v4 = none;
  addr_v6 = none;
  net_v4 = none;
  net_v6 = none;
}

abbrev pub has_mappings : Option (List PortMapping) → Bool
has_mappings none = false
has_mappings (some _) = true

module _ (text : TextLib) where
  -- One round.
  abbrev pub see_address : IpNet → Addresses → Addresses
  see_address net found =
      if is_ipv6 net.addr
      then if found.has_ipv6 then found else record found {
        addr_v6 = some net.addr;
        net_v6 = some (text.network net);
        has_ipv6 = true;
      }
      else if found.has_ipv4
      then found
      else record found {
        addr_v4 = some net.addr;
        net_v4 = some (text.network net);
        has_ipv4 = true;
      }

  unfoldable pub find_addresses : List IpNet → Addresses → Addresses
  find_addresses [] found = found
  find_addresses (net ∷ nets) found = find_addresses nets (see_address net found)

  unfoldable pub get_firewall_conf :
      DriverInfo → List IpNet → List IpAddr → Bool → SetupNetwork × PortForwardConfig
  unfolding find_addresses
  get_firewall_conf info container_addresses nameservers isolate =
      let id_network_hash = create_network_hash text info.network.name 13 in
      let found = find_addresses container_addresses no_addresses in
      (
        record { net = info.network; network_hash_name = id_network_hash; isolation = isolate },
        record {
          container_id = info.container_id;
          port_mappings = info.port_mappings;
          network_name = info.network.name;
          network_hash_name = id_network_hash;
          container_ip_v4 = found.addr_v4;
          subnet_v4 = found.net_v4;
          container_ip_v6 = found.addr_v6;
          subnet_v6 = found.net_v6;
          dns_port = info.dns_port;
          dns_server_ips = nameservers;
        },
      )

-- `isolate` of the teardown: an option that is not read counts as false.
abbrev pub ok_or_false : NetavarkResult Bool → Bool
ok_or_false (ok b) = b
ok_or_false (err _) = false

-- What the teardown takes from the options if `validate` was not called: an error is only logged.
-- `none` is the panic of `get_ipam_addresses`.
unfoldable pub teardown_options :
    NetText
    → TextLib
    → DriverInfo
    → Option InternalData
    → Option (List IpNet × (List IpAddr × Bool))
teardown_options net_text text info (some d) =
    some (d.ipam.container_addresses, (d.ipam.nameservers, d.isolate))
teardown_options net_text text info none =
    let isolate = ok_or_false (parse_option text.parse_bool info.network.options "isolate" false) in
    elim (get_ipam_addresses net_text info.per_network_opts info.network) [
      | none ↦ none
      | some (ok i) ↦ some (i.container_addresses, (i.nameservers, isolate))
      | some (err _) ↦ some ([], ([], isolate))
    ]

module _ (K : Kernel) {S : Type 0} (fw : FirewallDriver S) (text : TextLib) where
  unfoldable pub setup_firewall : DriverInfo → InternalData → Action (Machine K S) Unit
  unfolding get_firewall_conf
  setup_firewall info data_ = do
    let (sn, spf) =
        get_firewall_conf text info data_.ipam.container_addresses data_.ipam.nameservers
          data_.isolate
    on_firewall (fw.setup_network sn)
    if has_mappings spf.port_mappings
        then on_kernel (
            apply_sysctl K ("net.ipv4.conf." <> (data_.bridge_interface_name <> ".route_localnet"))
              "1")
        else pure tt
    on_firewall (fw.setup_port_forward spf)

  -- From the options on.
  unfoldable pub remove_firewall :
      DriverInfo → Bool → List IpNet × (List IpAddr × Bool) → Action S Unit
  unfolding get_firewall_conf
  remove_firewall info complete_teardown (container_addresses, (nameservers, isolate)) = do
    let (sn, spf) = get_firewall_conf text info container_addresses nameservers isolate
    if complete_teardown
        then fw.teardown_network (record { config = sn; complete_teardown = complete_teardown })
        else pure tt
    fw.teardown_port_forward (record { config = spf; complete_teardown = complete_teardown })

  unfoldable pub teardown_firewall :
      NetText → DriverInfo → Option InternalData → Bool → S → Option (NetavarkResult Unit × S)
  unfolding teardown_options remove_firewall
  teardown_firewall net_text info data_ complete_teardown s =
      elim (teardown_options net_text text info data_) [
        | none ↦ none
        | some options ↦ some (remove_firewall info complete_teardown options s)
      ]
