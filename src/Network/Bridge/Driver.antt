-- ===== src/Network/Bridge/Driver.antt =====
-- `setup` and `teardown` of the bridge driver. The network is set up only after `validate`; it is
-- torn down as far as possible, and the errors are collected.
use netavark.Prelude.{
  String, ◌<>◌, Bool, true, false, not, Option, none, some, List, [], ◌∷◌, map, ok, err,
  if◌then◌else◌,
}
use netavark.Error.{NetavarkErrorList, NetavarkResult, list, push, new_list, is_empty, msg}
use netavark.Action.{Action, pure, raise, ◌>>=◌, ◌>>◌}
use netavark.Network.Types.{IpAddr, is_ipv6, IpNet, StatusBlock}
use netavark.Network.Text.{NetText}
use netavark.Network.Kernel.{Kernel, TextLib}
use netavark.Network.CoreUtils.{apply_sysctl}
use netavark.Network.Machine.{DriverInfo, Machine, on_kernel}
use netavark.Network.Bridge.Options.{InternalData, get_interface_name}
use netavark.Network.Bridge.Links.{create_interfaces, remove_link}
use netavark.Network.Bridge.Firewall.{setup_firewall, teardown_firewall}
use netavark.Firewall.Interface.{FirewallDriver}
use netavark.Commands.{AardvarkEntry}

abbrev pub or_no_names : Option (List String) → List String
or_no_names none = []
or_no_names (some ns) = ns

-- The addresses of a family, in their order.
abbrev pub addresses_of : Bool → List IpNet → List IpAddr
addresses_of is_v6 [] = []
addresses_of true (net ∷ nets) =
    let rest = addresses_of true nets in if is_ipv6 net.addr then net.addr ∷ rest else rest
addresses_of false (net ∷ nets) =
    let rest = addresses_of false nets in if is_ipv6 net.addr then rest else net.addr ∷ rest

-- The answer of `setup`, for the MAC address of the container's interface.
unfoldable pub response_of : DriverInfo → InternalData → String → StatusBlock
response_of info data_ mac =
    let interfaces = some (
      (
        data_.container_interface_name,
        record { mac_address = mac; subnets = some data_.ipam.net_addresses },
      )
      ∷ []) in
    if info.network.dns_enabled
    then record {
      dns_search_domains = some ("dns.podman" ∷ []);
      dns_server_ips = some data_.ipam.nameservers;
      interfaces = interfaces;
    }
    else record {
      dns_search_domains = some [];
      dns_server_ips = elim info.container_dns_servers [
        | none ↦ some []
        | some servers ↦ some servers
      ];
      interfaces = interfaces;
    }

unfoldable pub aardvark_entry_of : DriverInfo → InternalData → Option AardvarkEntry
aardvark_entry_of info data_ =
    if info.network.dns_enabled
    then some (record {
      network_name = info.network.name;
      network_gateways = map (λ (ipnet : IpNet). ipnet.addr) data_.ipam.gateway_addresses;
      network_dns_servers = info.network.network_dns_servers;
      container_id = info.container_id;
      container_ips_v4 = addresses_of false data_.ipam.container_addresses;
      container_ips_v6 = addresses_of true data_.ipam.container_addresses;
      container_names = info.container_name ∷ or_no_names info.per_network_opts.aliases;
      container_dns_servers = info.container_dns_servers;
    })
    else none

abbrev pub list_or_unit : NetavarkErrorList → NetavarkResult Unit
list_or_unit errors = if not (is_empty errors) then err (list errors) else ok tt

abbrev pub push_error : {A : Type 0} → NetavarkErrorList → NetavarkResult A → NetavarkErrorList
push_error errors (ok _) = errors
push_error errors (err e) = push errors e

module _ (K : Kernel) {S : Type 0} (fw : FirewallDriver S) (text : TextLib) where
  -- `Once::call_once`: the cell is used up even if the sysctl fails.
  unfoldable pub setup_ipv4_fw_sysctl : Action (Machine K S) Unit
  setup_ipv4_fw_sysctl h =
      if h.ipv4_forward_once
      then (ok tt, h)
      else on_kernel (apply_sysctl K "net.ipv4.ip_forward" "1")
          (record h { ipv4_forward_once = true })

  unfoldable pub setup_ipv6_fw_sysctl : Action (Machine K S) Unit
  setup_ipv6_fw_sysctl h =
      if h.ipv6_forward_once
      then (ok tt, h)
      else on_kernel (apply_sysctl K "net.ipv6.conf.all.forwarding" "1")
          (record h { ipv6_forward_once = true })

  abbrev pub unless : Bool → Action (Machine K S) Unit → Action (Machine K S) Unit
  unless b m = if b then pure tt else m

  -- The routing is blocked.
  unfoldable pub block_forwarding : InternalData → Action K.State Unit
  block_forwarding data_ = do
    apply_sysctl K ("/proc/sys/net/ipv4/conf/" <> (data_.bridge_interface_name <> "/forwarding"))
        "0"
    if data_.ipam.ipv6_enabled
        then apply_sysctl K
            ("/proc/sys/net/ipv6/conf/" <> (data_.bridge_interface_name <> "/forwarding")) "0"
        else pure tt

  unfoldable pub setup_validated :
      DriverInfo → InternalData → Action (Machine K S) (StatusBlock × Option AardvarkEntry)
  setup_validated info data_ = do
    setup_ipv4_fw_sysctl
    unless (not data_.ipam.ipv6_enabled) setup_ipv6_fw_sysctl
    mac ←
        on_kernel (
          create_interfaces K text data_ info.network.internal info.netns_host info.netns_container)
    if info.network.internal
        then on_kernel (block_forwarding data_)
        else setup_firewall K fw text info data_
    pure (response_of info data_ mac, aardvark_entry_of info data_)

  unfoldable pub setup :
      DriverInfo → Option InternalData → Action (Machine K S) (StatusBlock × Option AardvarkEntry)
  unfolding setup_validated
  setup info none = raise (msg "must call validate() before setup()")
  setup info (some data_) = setup_validated info data_

  abbrev pub ok_or_incomplete : NetavarkResult Bool → Bool
  ok_or_incomplete (ok complete) = complete
  ok_or_incomplete (err _) = false

  -- `none` is a panic.
  unfoldable pub teardown :
      NetText
      → DriverInfo
      → Option InternalData
      → Machine K S
      → Option (NetavarkResult Unit × Machine K S)
  teardown net_text info data_ h = elim (get_interface_name info.network.network_interface) [
    | err e ↦ some (err e, h)
    | ok br_name ↦
        let (r, h') =
          on_kernel {A = Bool} (remove_link K text br_name info.per_network_opts.interface_name)
            h in
        let errors = push_error new_list r in
        if info.network.internal
        then some (list_or_unit errors, h')
        else elim (teardown_firewall K fw text net_text info data_ (ok_or_incomplete r)
            h'.firewall) [
              | none ↦ none
              | some (r', f) ↦
                  some (list_or_unit (push_error errors r'), record h' { firewall = f })
            ]
  ]
