-- ===== src/Network/Vlan/Driver.antt =====
-- `setup` and `teardown` of the vlan driver. `none` is a panic.
use netavark.Prelude.{ℕ, String, ◌<>◌, Option, none, some, List, [], ◌∷◌, ok, err, if◌then◌else◌}
use netavark.Error.{NetavarkResult, msg, io}
use netavark.Action.{Action, pure, ◌>>=◌, ◌>>◌, lift}
use netavark.Network.Types.{NetAddress, StatusBlock}
use netavark.Network.Text.{NetText}
use netavark.Network.Ipam.{get_ipam_addresses}
use netavark.Network.Netlink.Types.{name_of}
use netavark.Network.Kernel.{Kernel, netns_side, TextLib}
use netavark.Network.CoreUtils.{wrapped}
use netavark.Network.Machine.{DriverInfo}
use netavark.Network.Vlan.Options.{InternalData, or_empty}
use netavark.Network.Vlan.Links.{setup_link, get_mac_address}
use netavark.Network.Vlan.Dhcp.{DhcpClient, lease_config, get_dhcp_lease, release_dhcp_lease}
use netavark.Commands.{AardvarkEntry}

abbrev pub vlan_response : String → String → List NetAddress → StatusBlock
vlan_response if_name mac subnets = record {
  dns_search_domains = some [];
  dns_server_ips = some [];
  interfaces = some ((if_name, record { mac_address = mac; subnets = some subnets }) ∷ []);
}

module _ (K : Kernel) (dhcp : DhcpClient K.State) (net_text : NetText) (text : TextLib) where
  -- The addresses, from the proxy or as configured.
  unfoldable pub lease_subnets :
      DriverInfo
      → InternalData
      → String
      → K.State
      → Option (NetavarkResult (List NetAddress) × K.State)
  lease_subnets info data_ mac s =
      if data_.ipam.dhcp_enabled
      then get_dhcp_lease dhcp net_text
          (lease_config data_.host_interface_name data_.container_interface_name info.netns_path
            mac)
          s
      else some (ok data_.ipam.net_addresses, s)

  unfoldable pub setup :
      (ℕ → String)
      → DriverInfo
      → Option InternalData
      → K.State
      → Option (NetavarkResult (StatusBlock × Option AardvarkEntry) × K.State)
  unfolding lease_subnets
  setup random info none s = some (err (msg "must call validate() before setup()"), s)
  setup random info (some data_) s =
      let if_name = info.per_network_opts.interface_name in
      let (r, s') = setup_link K text random if_name data_ info.netns_host info.netns_container s in
      elim r [
        | err e ↦ some (err e, s')
        | ok mac ↦ elim (lease_subnets info data_ mac s') [
          | none ↦ none
          | some (err e, t) ↦ some (err e, t)
          | some (ok subnets, t) ↦ some (ok (vlan_response if_name mac subnets, none), t)
        ]
      ]

  unfoldable pub release : DriverInfo → Action K.State Unit
  unfolding release_dhcp_lease get_mac_address
  release info = do
    let if_name = info.per_network_opts.interface_name
    dev ← wrapped ("get macvlan interface " <> if_name) (K.get_link netns_side (name_of if_name))
    container_mac_address ← lift (get_mac_address dev.nlas)
    release_dhcp_lease dhcp (
        lease_config (or_empty info.network.network_interface) if_name info.netns_path
          container_mac_address)

  unfoldable pub teardown : DriverInfo → K.State → Option (NetavarkResult Unit × K.State)
  unfolding release
  teardown info s = elim (get_ipam_addresses net_text info.per_network_opts info.network) [
    | none ↦ none
    | some (err e) ↦ some (err (io e), s)
    | some (ok ipam) ↦ some (
        ((if ipam.dhcp_enabled then release info else pure tt)
            >> K.del_link netns_side (name_of info.per_network_opts.interface_name))
          s)
  ]
