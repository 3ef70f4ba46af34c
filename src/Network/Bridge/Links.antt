-- ===== src/Network/Bridge/Links.antt =====
-- The interfaces of the bridge driver: `create_interfaces`, `create_veth_pair`,
-- `check_link_is_bridge` and `remove_link`.
use netavark.Prelude.{
  ℕ, String, ◌<>◌, Bool, true, false, not, Option, none, some, List, [], ◌∷◌, ok, err, ◌==◌, str_eq,
  if◌then◌else◌,
}
use netavark.Error.{NetavarkError, NetavarkResult, message, netlink, wrap_error, unwrap}
use netavark.Action.{Action, pure, raise, ◌>>=◌, ◌>>◌, for_each}
use netavark.Network.Netlink.Types.{
  InfoKind, bridge, veth, address, link, if_name, info, master, Nlas, nil, cons, kind, veth_peer,
  Infos, info_nil, info_cons, LinkMessage, default_link, CreateLinkOptions, new_options, id,
  name_of, parse_create_link_options,
}
use netavark.Network.Kernel.{Kernel, host_side, netns_side, TextLib}
use netavark.Network.CoreUtils.{
  wrapped, encode_address_to_hex, apply_sysctl, join_netns, disable_ipv6_autoconf,
  add_default_routes,
}
use netavark.Network.Bridge.Options.{InternalData}

-- ENODEV and EEXIST
abbrev pub enodev : ℕ
enodev = 19

abbrev pub eexist : ℕ
eexist = 17

abbrev pub is_netlink : ℕ → NetavarkError → Bool
is_netlink errno (netlink e) = e.errno == errno
is_netlink errno _ = false

-- Whether the innermost error is a netlink error at all.
abbrev pub is_any_netlink : NetavarkError → Bool
is_any_netlink (netlink e) = true
is_any_netlink _ = false

abbrev pub or_no_bytes : Option (List ℕ) → List ℕ
or_no_bytes none = []
or_no_bytes (some mac) = mac

-- The MAC address and the peer's index that the attributes give, the last of each.
abbrev pub read_veth : Nlas → String × ℕ → String × ℕ
read_veth nil found = found
read_veth (cons (address a) ns) (mac, l) = read_veth ns (encode_address_to_hex a, l)
read_veth (cons (link l') ns) (mac, l) = read_veth ns (mac, l')
read_veth (cons _ ns) found = read_veth ns found

abbrev pub is_bridge : InfoKind → Bool
is_bridge bridge = true
is_bridge _ = false

-- The first kind among the attributes.
abbrev pub kind_in : Infos → Option InfoKind
kind_in info_nil = none
kind_in (info_cons (kind k) is) = some k
kind_in (info_cons _ is) = kind_in is

abbrev pub or_kind : Option InfoKind → Option InfoKind → Option InfoKind
or_kind (some k) later = some k
or_kind none later = later

abbrev pub kind_of_link : Nlas → Option InfoKind
kind_of_link nil = none
kind_of_link (cons (info is) ns) = or_kind (kind_in is) (kind_of_link ns)
kind_of_link (cons _ ns) = kind_of_link ns

unfoldable pub check_link_is_bridge : TextLib → LinkMessage → String → NetavarkResult LinkMessage
check_link_is_bridge text m br_name = elim (kind_of_link m.nlas) [
  | none ↦ err (message ("could not determine namespace link kind for bridge " <> br_name))
  | some k ↦
      if is_bridge k
      then ok m
      else err (
          message (
            "bridge interface "
            <> (br_name <> (" already exists but is a " <> (text.show_kind k <> " interface")))))
]

module _ (K : Kernel) (text : TextLib) where
  abbrev pub when_ : Bool → Action K.State Unit → Action K.State Unit
  when_ b m = if b then m else pure tt

  -- `map_err` on the creation of the pair.
  abbrev pub veth_error : String → NetavarkError → NetavarkError
  veth_error name e =
      if is_netlink eexist e
      then wrap_error
          ("create veth pair: interface " <> (name <> " already exists on container namespace")) e
      else wrap_error "create veth pair" e

  abbrev pub peer_options : InternalData → ℕ → CreateLinkOptions
  peer_options data_ netns_fd = record (new_options data_.container_interface_name veth) {
    mac = or_no_bytes data_.mac_address;
    mtu_of = data_.mtu;
    netns = some netns_fd;
  }

  abbrev pub veth_options : InternalData → ℕ → ℕ → CreateLinkOptions
  veth_options data_ primary_index netns_fd = record (new_options "" veth) {
    mtu_of = data_.mtu;
    primary_index = primary_index;
    info_data =
        some
          (veth_peer (parse_create_link_options default_link (peer_options data_ netns_fd)).nlas);
  }

  unfoldable pub create_pair : InternalData → ℕ → ℕ → Action K.State Unit
  create_pair data_ primary_index netns_fd s =
      let (r, s') = K.create_link host_side (veth_options data_ primary_index netns_fd) s in
      elim r [
        | ok _ ↦ (ok tt, s')
        | err e ↦ (err (veth_error data_.container_interface_name e), s')
      ]

  -- The code in the container's namespace. A `?` in it returns from the function, past the step
  -- back into the namespace of the host.
  unfoldable pub in_container : InternalData → ℕ → ℕ → Action K.State Unit
  in_container data_ hostns_fd netns_fd = do
    join_netns K netns_fd
    disable_ipv6_autoconf K data_.container_interface_name
    when_ data_.ipam.ipv6_enabled (
        apply_sysctl K
          ("/proc/sys/net/ipv6/conf/" <> (data_.container_interface_name <> "/accept_dad")) "0")
    join_netns K hostns_fd

  -- For each name of the host's end.
  unfoldable pub disable_dad : Nlas → Action K.State Unit
  disable_dad nil s = (ok tt, s)
  disable_dad (cons (if_name name) ns) s =
      let (r, s') = apply_sysctl K ("/proc/sys/net/ipv6/conf/" <> (name <> "/accept_dad")) "0" s in
      elim r [ ok _ ↦ disable_dad ns s' | err e ↦ (err e, s') ]
  disable_dad (cons _ ns) s = disable_dad ns s

  unfoldable pub host_dad : ℕ → Action K.State Unit
  host_dad host_link = do
    host_veth ← K.get_link host_side (id host_link)
    disable_dad host_veth.nlas

  unfoldable pub create_veth_pair : InternalData → ℕ → Bool → ℕ → ℕ → Action K.State String
  unfolding create_pair in_container host_dad
  create_veth_pair data_ primary_index internal hostns_fd netns_fd = do
    create_pair data_ primary_index netns_fd
    peer ←
        wrapped "get container veth"
          (K.get_link netns_side (name_of data_.container_interface_name))
    let (mac, host_link) = read_veth peer.nlas ("", 0)
    if str_eq mac ""
        then raise (message "failed to get the mac address from the container veth interface")
        else pure tt
    in_container data_ hostns_fd netns_fd
    when_ data_.ipam.ipv6_enabled (host_dad host_link)
    wrapped "failed to set host veth up" (K.set_up host_side (id host_link))
    for_each
        (λ addr. wrapped "add ip addr to container veth" (K.add_addr netns_side peer.index addr))
        data_.ipam.container_addresses
    wrapped "set container veth up" (K.set_up netns_side (id peer.index))
    when_ (not internal)
        (add_default_routes K text netns_side data_.ipam.gateway_addresses data_.metric)
    pure mac

  -- The bridge that is not there is made.
  unfoldable pub create_bridge : InternalData → Action K.State LinkMessage
  create_bridge data_ = do
    let name = data_.bridge_interface_name
    wrapped "create bridge"
        (K.create_link host_side (record (new_options name bridge) { mtu_of = data_.mtu }))
    when_ data_.ipam.ipv6_enabled (
        apply_sysctl K ("/proc/sys/net/ipv6/conf/" <> (name <> "/accept_dad")) "0"
        >> apply_sysctl K ("net/ipv6/conf/" <> (name <> "/accept_ra")) "0")
    made ← wrapped "get bridge interface" (K.get_link host_side (name_of name))
    for_each (λ addr. wrapped "add ip addr to bridge" (K.add_addr host_side made.index addr))
        data_.ipam.gateway_addresses
    wrapped "set bridge up" (K.set_up host_side (id made.index))
    pure made

  unfoldable pub get_bridge : InternalData → Action K.State LinkMessage
  unfolding create_bridge
  get_bridge data_ s =
      let name = data_.bridge_interface_name in
      let (r, s') = K.get_link host_side (name_of name) s in
      elim r [
        | ok found ↦ (check_link_is_bridge text found name, s')
        | err e ↦
            if is_any_netlink (unwrap e)
            then (if is_netlink enodev (unwrap e)
                then create_bridge data_ s'
                else (err (wrap_error "get bridge interface" e), s'))
            else (err e, s')
      ]

  unfoldable pub create_interfaces : InternalData → Bool → ℕ → ℕ → Action K.State String
  unfolding get_bridge create_veth_pair
  create_interfaces data_ internal hostns_fd netns_fd = do
    br ← get_bridge data_
    create_veth_pair data_ br.index internal hostns_fd netns_fd

  abbrev pub is_empty_links : List LinkMessage → Bool
  is_empty_links [] = true
  is_empty_links (_ ∷ _) = false

  -- Whether the bridge went too, being the last container's. The error of its deletion names the
  -- container's interface, as the source does.
  unfoldable pub remove_link : String → String → Action K.State Bool
  remove_link br_name container_veth_name = do
    wrapped ("failed to delete container veth " <> container_veth_name)
        (K.del_link netns_side (name_of container_veth_name))
    br ← wrapped "failed to get bridge interface" (K.get_link host_side (name_of br_name))
    links ←
        wrapped "failed to get connected bridge interfaces"
          (K.dump_links host_side (cons (master br.index) nil))
    if is_empty_links links
        then (wrapped ("failed to delete bridge " <> container_veth_name)
              (K.del_link host_side (id br.index))
            >> pure true)
        else pure false
