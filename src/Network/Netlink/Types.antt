-- ===== src/Network/Netlink/Types.antt =====
-- The messages of `netlink_packet_route`, as far as the program looks into them, with the types
-- and the options of `src/network/netlink.rs`. A file descriptor that is -1 is `none`.
use netavark.Prelude.{
  ℕ, String, Bool, true, false, not, Option, none, some, List, [], ◌∷◌, ◌==◌, str_eq, if◌then◌else◌,
}
use netavark.Network.Types.{IpAddr, IpNet}

pub data InfoKind : Type 0 where
  bridge veth ip_vlan mac_vlan : InfoKind
  other_kind : String → InfoKind

-- Attributes of a link. The peer of a veth pair is a message with a header of zeros.
mutual
  pub data Nla : Type 0 where
    address : List ℕ → Nla
    link : ℕ → Nla
    if_name : String → Nla
    info : Infos → Nla
    mtu : ℕ → Nla
    master : ℕ → Nla
    net_ns_fd : ℕ → Nla
    other_nla : Nla

  pub data Nlas : Type 0 where
    nil : Nlas
    cons : Nla → Nlas → Nlas

  pub data InfoData : Type 0 where
    veth_peer : Nlas → InfoData
    ip_vlan_mode : ℕ → InfoData
    mac_vlan_mode : ℕ → InfoData

  pub data Info : Type 0 where
    kind : InfoKind → Info
    data_of : InfoData → Info
    other_info : Info

  pub data Infos : Type 0 where
    info_nil : Infos
    info_cons : Info → Infos → Infos

-- `up` stands for IFF_UP in the flags and in the change mask.
pub record LinkMessage : Type 0 where
  pub index : ℕ
  pub up : Bool
  pub nlas : Nlas

abbrev pub default_link : LinkMessage
default_link = record { index = 0; up = false; nlas = nil }

abbrev pub push_nla : Nlas → Nla → Nlas
push_nla nil n = cons n nil
push_nla (cons m ns) n = cons m (push_nla ns n)

abbrev pub append_nlas : Nlas → Nlas → Nlas
append_nlas nil ms = ms
append_nlas (cons n ns) ms = cons n (append_nlas ns ms)

pub record CreateLinkOptions : Type 0 where
  pub name : String
  pub kind_of : InfoKind
  pub info_data : Option InfoData
  pub mtu_of : ℕ
  pub primary_index : ℕ
  pub link_of : ℕ
  pub mac : List ℕ
  pub netns : Option ℕ

-- `CreateLinkOptions::new`
abbrev pub new_options : String → InfoKind → CreateLinkOptions
new_options name k = record {
  name = name;
  kind_of = k;
  info_data = none;
  mtu_of = 0;
  primary_index = 0;
  link_of = 0;
  mac = [];
  netns = none;
}

pub data LinkId : Type 0 where
  id : ℕ → LinkId
  name_of : String → LinkId

pub data Route : Type 0 where
  ipv4 : IpNet → IpAddr → Option ℕ → Route
  ipv6 : IpNet → IpAddr → Option ℕ → Route

-- A route of a dump: whether it has a destination, and its output interface, in the order of its
-- attributes.
pub data RouteNla : Type 0 where
  destination : List ℕ → RouteNla
  gateway : List ℕ → RouteNla
  priority : ℕ → RouteNla
  oif : ℕ → RouteNla
  other_route_nla : RouteNla

pub data AddressNla : Type 0 where
  broadcast : List ℕ → AddressNla
  local : List ℕ → AddressNla

-- The family is 2 for IPv4 and 10 for IPv6.
pub record AddressMessage : Type 0 where
  pub family : ℕ
  pub prefix_len : ℕ
  pub index : ℕ
  pub nlas : List AddressNla

pub record RouteMessage : Type 0 where
  pub address_family : ℕ
  pub table : ℕ
  pub protocol : ℕ
  pub scope : ℕ
  pub kind_of : ℕ
  pub destination_prefix_length : ℕ
  pub nlas : List RouteNla

abbrev pub is_empty_list {ℓ} : {A : Type ℓ} → List A → Bool
is_empty_list [] = true
is_empty_list (_ ∷ _) = false

-- Push an attribute if a condition holds.
abbrev pub push_if : Bool → Nla → Nlas → Nlas
push_if b n ns = if b then push_nla ns n else ns

abbrev pub push_netns : Option ℕ → Nlas → Nlas
push_netns none ns = ns
push_netns (some fd) ns = push_nla ns (net_ns_fd fd)

abbrev pub link_infos : InfoKind → Option InfoData → Infos
link_infos k none = info_cons (kind k) info_nil
link_infos k (some d) = info_cons (kind k) (info_cons (data_of d) info_nil)

unfoldable pub parse_create_link_options : LinkMessage → CreateLinkOptions → LinkMessage
parse_create_link_options msg options =
    let infos = push_nla msg.nlas (info (link_infos options.kind_of options.info_data)) in
    let name = push_if (not (str_eq options.name "")) (if_name options.name) infos in
    let mtu_ = push_if (not (options.mtu_of == 0)) (mtu options.mtu_of) name in
    let mac = push_if (not (is_empty_list options.mac)) (address options.mac) mtu_ in
    let primary = push_if (not (options.primary_index == 0)) (master options.primary_index) mac in
    let device = push_if (not (options.link_of == 0)) (link options.link_of) primary in
    record msg { nlas = push_netns options.netns device }
