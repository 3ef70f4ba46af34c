-- ===== src/Network/Vlan/Options.antt =====
-- The data of the vlan driver, and its `validate`.
use netavark.Prelude.{
  ℕ, String, ◌<>◌, Option, none, some, List, [], ok, err, str_eq, if◌then◌else◌, map_ok,
}
use netavark.Error.{NetavarkResult, msg, io}
use netavark.Network.Internal.{IpamAddresses}
use netavark.Network.Text.{NetText}
use netavark.Network.Ipam.{get_ipam_addresses}
use netavark.Network.Kernel.{TextLib}
use netavark.Network.CoreUtils.{
  parse_option, get_macvlan_mode_from_string, get_ipvlan_mode_from_string,
}
use netavark.Network.Machine.{DriverInfo}
use netavark.Network.Bridge.Options.{no_container_interface_error, and_then, read_mac}

-- A MAC address with a mode, or a mode.
pub data KindData : Type 0 where
  mac_vlan : Option (List ℕ) → ℕ → KindData
  ip_vlan : ℕ → KindData

abbrev pub show_kind_data : KindData → String
show_kind_data (mac_vlan _ _) = "macvlan"
show_kind_data (ip_vlan _) = "ipvlan"

pub record InternalData : Type 0 where
  pub container_interface_name : String
  pub host_interface_name : String
  pub ipam : IpamAddresses
  pub mtu : ℕ
  pub metric : Option ℕ
  pub kind : KindData

abbrev pub or_empty : Option String → String
or_empty none = ""
or_empty (some text) = text

module _ (net_text : NetText) (text : TextLib) where
  unfoldable pub read_kind : DriverInfo → String → NetavarkResult KindData
  read_kind info mode =
      if str_eq info.network.driver "ipvlan"
      then map_ok ip_vlan (get_ipvlan_mode_from_string mode)
      else if str_eq info.network.driver "macvlan"
      then (and_then (get_macvlan_mode_from_string mode) err λ m.
          map_ok (λ mac. mac_vlan mac m) (read_mac net_text text info.per_network_opts.static_mac))
      else err (msg ("unsupported VLAN type " <> info.network.driver))

  -- What follows the reading of the addresses. An internal network has no gateways.
  unfoldable pub read_options : DriverInfo → String → IpamAddresses → NetavarkResult InternalData
  unfolding read_kind
  read_options info mode ipam =
      let options = info.network.options in
      and_then (parse_option text.parse_u32 options "mtu" 0) err λ mtu.
        and_then (parse_option text.parse_u32 options "metric" 100) err λ metric.
          and_then (read_kind info mode) err λ kind. ok (record {
            container_interface_name = info.per_network_opts.interface_name;
            host_interface_name = or_empty info.network.network_interface;
            ipam = if info.network.internal then record ipam { gateway_addresses = [] } else ipam;
            mtu = mtu;
            metric = some metric;
            kind = kind;
          })

  -- `none` is the panic of `get_ipam_addresses`.
  unfoldable pub validate : DriverInfo → Option (NetavarkResult InternalData)
  unfolding read_options
  validate info =
      if str_eq info.per_network_opts.interface_name ""
      then some (err (msg no_container_interface_error))
      else elim (parse_option ok info.network.options "mode" "") [
        | err e ↦ some (err e)
        | ok mode ↦ elim (get_ipam_addresses net_text info.per_network_opts info.network) [
          | none ↦ none
          | some (err e) ↦ some (err (io e))
          | some (ok ipam) ↦ some (read_options info mode ipam)
        ]
      ]
