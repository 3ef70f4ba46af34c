-- ===== src/Dhcp/Address.antt =====
-- `src/dhcp_proxy/ip.rs`: the addresses of a lease are given to the interface of the container. A
-- `ProxyError` is its text.
use netavark.Prelude.{
  ℕ, String, ◌<>◌, none, List, [], ◌∷◌, Result, ok, err, map_ok, map_err, try_ok,
}
use netavark.Error.{show_error}
use netavark.Action.{Action, ◌>>=◌}
use netavark.Network.Types.{IpAddr, v4, IpNet}
use netavark.Network.Text.{NetText}
use netavark.Network.Netlink.Types.{name_of}
use netavark.Network.Kernel.{Kernel, netns_side, TextLib}
use netavark.Network.CoreUtils.{add_default_routes}
use netavark.Network.CoreUtils.Sockets.{Opening, open_netlink_sockets}
use netavark.Network.Vlan.Dhcp.{count_ones}
use netavark.Dhcp.Cache.{Lease}
use netavark.Dhcp.Lease.{Ipv4Text}

pub record MacVlan : Type 0 where
  pub address : IpAddr
  pub gateways : List IpNet
  pub interface : String
  pub prefix_length : ℕ

-- `IpAddr::from_str` as well.
pub record AddressText : Type 0 where
  pub ipv4 : Ipv4Text
  pub parse_ip : String → Result String IpAddr
  pub net : NetText

module _ (text : AddressText) where
  unfoldable pub get_prefix_length_v4 : String → Result String ℕ
  get_prefix_length_v4 netmask = map_ok (count_ones 32) (text.ipv4.parse_ipv4 netmask)

  unfoldable pub handle_gws : List String → String → Result String (List IpNet)
  handle_gws [] netmask = ok []
  handle_gws (route ∷ routes) netmask = try_ok (text.ipv4.parse_ipv4 netmask) λ sub_mask.
      try_ok (text.ipv4.parse_ipv4 route) λ ip.
        try_ok
          (map_err (λ e. e <> (":'" <> (route <> "'")))
            (text.net.new_net (v4 ip) (count_ones 32 sub_mask)))
          λ gw. map_ok (λ gws. gw ∷ gws) (handle_gws routes netmask)

  -- `MacVLAN::new`
  unfoldable pub new_mac_vlan : Lease → String → Result String MacVlan
  new_mac_vlan l interface =
      try_ok (map_err (λ e. "bad address: " <> e) (text.parse_ip l.yiaddr)) λ address.
        try_ok (map_err (λ e. "bad gateways: " <> e) (handle_gws l.gateways l.subnet_mask)) λ gws.
          try_ok (get_prefix_length_v4 l.subnet_mask) λ prefix_length. ok (record {
            address = address;
            gateways = gws;
            interface = interface;
            prefix_length = prefix_length;
          })

module _ (K : Kernel) (O : Opening K) (text : AddressText) (lib : TextLib) where
  -- An action with the text of its error.
  abbrev pub shown : {A : Type 0} → Action K.State A → K.State → Result String A × K.State
  shown m s = let (r, s') = m s in (map_err show_error r, s')

  unfoldable pub add_ip : MacVlan → K.State → Result String Unit × K.State
  add_ip vlan s = elim (text.net.new_net vlan.address vlan.prefix_length) [
    | err e ↦ (err e, s)
    | ok ip ↦
        shown
          (K.get_link netns_side (name_of vlan.interface) >>= λ dev.
            K.add_addr netns_side dev.index ip)
          s
  ]

  unfoldable pub add_gws : MacVlan → K.State → Result String Unit × K.State
  add_gws vlan s = shown (add_default_routes K lib netns_side vlan.gateways none) s

  unfoldable pub setup_address : Lease → String → String → K.State → Result String Unit × K.State
  setup_address lease interface ns_path s = elim (new_mac_vlan text lease interface) [
    | err e ↦ (err e, s)
    | ok vlan ↦
        let (r, s1) = shown (open_netlink_sockets K O ns_path) s in
        elim r [
          | err e ↦ (err e, s1)
          | ok _ ↦
              let (r', s2) = add_ip vlan s1 in
              elim r' [ err e ↦ (err e, s2) | ok _ ↦ add_gws vlan s2 ]
        ]
  ]
