-- ===== src/Network/Vlan/Links.antt =====
-- The creation and the configuration of a vlan interface: `setup`, `get_mac_address` and
-- `get_default_route_interface` of `src/network/vlan.rs`.
use netavark.Prelude.{
  ℕ, zero, suc, String, ◌<>◌, Bool, true, false, not, ◌&&◌, Option, none, some, List, [], ◌∷◌, ok,
  err, ltb, ◌==◌, str_eq, if◌then◌else◌,
}
use netavark.Error.{NetavarkResult, msg, wrap_error, show_error}
use netavark.Action.{Action, pure, ◌>>=◌, ◌>>◌, for_each, lift}
use netavark.Network.Netlink.Types.{
  ip_vlan, mac_vlan, ip_vlan_mode, mac_vlan_mode, address, if_name, Nlas, nil, cons,
  CreateLinkOptions, new_options, id, name_of, RouteNla, destination, oif,
}
use netavark.Network.Kernel.{Kernel, host_side, netns_side, TextLib}
use netavark.Network.CoreUtils.{
  wrapped, encode_address_to_hex, exec_netns, disable_ipv6_autoconf, add_default_routes,
}
use netavark.Network.Bridge.Links.{eexist, is_netlink, or_no_bytes}
use netavark.Network.Vlan.Options.{
  KindData, mac_vlan as kind_mac_vlan, ip_vlan as kind_ip_vlan, show_kind_data, InternalData,
}

-- The first address among the attributes.
unfoldable pub get_mac_address : Nlas → NetavarkResult String
get_mac_address nil = err (msg "failed to get the the container mac address")
get_mac_address (cons (address bytes) ns) = ok (encode_address_to_hex bytes)
get_mac_address (cons _ ns) = get_mac_address ns

-- The first name among the attributes.
abbrev pub find_name : Nlas → Option String
find_name nil = none
find_name (cons (if_name name) ns) = some name
find_name (cons _ ns) = find_name ns

-- Whether a route has a destination, and its output interface, the last of its attributes.
abbrev pub read_route : List RouteNla → Bool × ℕ → Bool × ℕ
read_route [] found = found
read_route (destination _ ∷ ns) (dest, out_if) = read_route ns (true, out_if)
read_route (oif i ∷ ns) (dest, out_if) = read_route ns (dest, i)
read_route (_ ∷ ns) found = read_route ns found

abbrev pub link_options : String → InternalData → ℕ → ℕ → CreateLinkOptions
link_options name data_ netns_fd index = elim data_.kind [
  | kind_ip_vlan mode ↦ record (new_options name ip_vlan) {
    mtu_of = data_.mtu;
    netns = some netns_fd;
    link_of = index;
    info_data = some (ip_vlan_mode mode);
  }
  | kind_mac_vlan mac mode ↦ record (new_options name mac_vlan) {
    mac = or_no_bytes mac;
    mtu_of = data_.mtu;
    netns = some netns_fd;
    link_of = index;
    info_data = some (mac_vlan_mode mode);
  }
]

module _ (K : Kernel) where
  -- The name of the output interface of the first default route.
  unfoldable pub default_route_in : List (List RouteNla) → Action K.State String
  default_route_in [] s = (err (msg "failed to get default route interface"), s)
  default_route_in (route ∷ routes) s =
      let (dest, out_if) = read_route route (false, 0) in
      if not dest && ltb 0 out_if
      then (let (r, s') = K.get_link host_side (id out_if) s in
          elim r [
            | err e ↦ (err e, s')
            | ok found ↦ elim (find_name found.nlas) [
              | some name ↦ (ok name, s')
              | none ↦ default_route_in routes s'
            ]
          ])
      else default_route_in routes s

  unfoldable pub get_default_route_interface : Action K.State String
  unfolding default_route_in
  get_default_route_interface = do
    routes ← wrapped "dump routes" (K.dump_routes host_side)
    default_route_in routes

  -- The link with the temporary name gets its own one; if it cannot, it is deleted, and a failure
  -- of that is only logged.
  unfoldable pub rename_link : KindData → String → String → Action K.State Unit
  rename_link kind tmp_name new_name s =
      let (r, s') =
        wrapped ("get tmp " <> (show_kind_data kind <> " interface"))
          (K.get_link netns_side (name_of tmp_name)) s in
      elim r [
        | err e ↦ (err e, s')
        | ok found ↦
            let (q, t) =
              wrapped ("rename tmp " <> (show_kind_data kind <> " interface"))
                (K.set_link_name netns_side found.index new_name) s' in
            elim q [
              | ok _ ↦ (ok tt, t)
              | err e ↦ (err e, (K.del_link netns_side (id found.index) t).1)
            ]
      ]

  -- The rounds of the loop that are left, `i` being two less the later ones, with the result of
  -- the creation before. The random names are those of the rounds.
  unfoldable pub create_rounds :
      ℕ → (ℕ → String) → KindData → CreateLinkOptions → NetavarkResult Unit → Action K.State Unit
  unfolding rename_link
  create_rounds zero random kind opts result s = (ok tt, s)
  create_rounds (suc later) random kind opts (ok _) s = (ok tt, s)
  create_rounds (suc later) random kind opts (err e) s =
      if is_netlink eexist e
      then (let tmp_name = "mv-" <> random later in
          let (r, s') = K.create_link host_side (record opts { name = tmp_name }) s in
          elim r [
            | ok _ ↦ rename_link kind tmp_name opts.name s'
            | err e' ↦
                let rest = create_rounds later random kind opts (err e') s' in
                if later == 0
                then (
                  err (
                      msg
                        ("create " <> (show_kind_data kind <> (" interface: " <> show_error e')))),
                  s',
                )
                else rest
          ])
      else (err (wrap_error ("create " <> (show_kind_data kind <> " interface")) e), s)

  unfoldable pub create : (ℕ → String) → KindData → CreateLinkOptions → Action K.State Unit
  unfolding create_rounds
  create random kind opts s =
      let (result, s') = K.create_link host_side opts s in
      create_rounds 3 random kind opts result s'

  unfoldable pub setup_link :
      TextLib → (ℕ → String) → String → InternalData → ℕ → ℕ → Action K.State String
  unfolding get_default_route_interface create get_mac_address
  setup_link text random container_if data_ hostns_fd netns_fd = do
    let kind = show_kind_data data_.kind
    primary_ifname ←
        (if str_eq data_.host_interface_name ""
          then get_default_route_interface
          else pure data_.host_interface_name)
    primary ← K.get_link host_side (name_of primary_ifname)
    create random data_.kind (link_options container_if data_ netns_fd primary.index)
    exec_netns K hostns_fd netns_fd (disable_ipv6_autoconf K container_if)
    dev ← wrapped ("get " <> (kind <> " interface")) (K.get_link netns_side (name_of container_if))
    for_each (λ addr. wrapped ("add ip addr to " <> kind) (K.add_addr netns_side dev.index addr))
        data_.ipam.container_addresses
    wrapped ("set " <> (kind <> " up")) (K.set_up netns_side (id dev.index))
    add_default_routes K text netns_side data_.ipam.gateway_addresses data_.metric
    lift (get_mac_address dev.nlas)
