-- ===== src/Network/Netlink/Messages.antt =====
-- The messages of the route protocol, and those that `src/network/netlink.rs` builds.
use netavark.Prelude.{
  ℕ, zero, suc, ◌/◌, ◌%◌, Option, none, some, List, [], ◌∷◌, ◌++◌, if◌then◌else◌,
}
use netavark.Network.Types.{IpAddr, v4, v6, is_ipv6, IpNet}
use netavark.Network.Netlink.Types.{
  if_name, nil, cons, LinkMessage, default_link, LinkId, id, name_of, Route, ipv4, ipv6,
  destination, gateway, priority, broadcast, local, AddressMessage, RouteMessage,
}

pub data RtnlMessage : Type 0 where
  new_link del_link get_link set_link : LinkMessage → RtnlMessage
  new_address del_address get_address : AddressMessage → RtnlMessage
  new_route del_route get_route : RouteMessage → RtnlMessage
  other_message : ℕ → RtnlMessage

-- `octets`: the bytes of a number, the first being the most significant.
abbrev pub octets_of : ℕ → ℕ → List ℕ
octets_of zero n = []
octets_of (suc k) n = octets_of k (n / 256) ++ (n % 256 ∷ [])

abbrev pub octets : IpAddr → List ℕ
octets (v4 n) = octets_of 4 n
octets (v6 n) = octets_of 16 n

-- AF_INET and AF_INET6
abbrev pub family_of : IpAddr → ℕ
family_of (v4 _) = 2
family_of (v6 _) = 10

abbrev pub default_address : AddressMessage
default_address = record { family = 0; prefix_len = 0; index = 0; nlas = [] }

abbrev pub default_route_message : RouteMessage
default_route_message = record {
  address_family = 0;
  table = 0;
  protocol = 0;
  scope = 0;
  kind_of = 0;
  destination_prefix_length = 0;
  nlas = [];
}

-- The message that names a link.
abbrev pub link_named : LinkId → LinkMessage
link_named (id index) = record default_link { index = index }
link_named (name_of name) = record default_link { nlas = cons (if_name name) nil }

-- The broadcast address is computed by the `ipnet` crate.
unfoldable pub create_addr_msg : (IpNet → IpAddr) → ℕ → IpNet → AddressMessage
create_addr_msg broadcast_of link_id net = record {
  family = family_of net.addr;
  prefix_len = net.prefix_len;
  index = link_id;
  nlas =
      if is_ipv6 net.addr
      then local (octets net.addr) ∷ []
      else broadcast (octets (broadcast_of net)) ∷ local (octets net.addr) ∷ [];
}

-- DEFAULT_METRIC
abbrev pub metric_or_default : Option ℕ → ℕ
metric_or_default none = 100
metric_or_default (some m) = m

-- RT_TABLE_MAIN, RTPROT_STATIC, RT_SCOPE_UNIVERSE and RTN_UNICAST
abbrev pub route_message : ℕ → IpNet → IpAddr → Option ℕ → RouteMessage
route_message family dest gw metric = record {
  address_family = family;
  table = 254;
  protocol = 4;
  scope = 0;
  kind_of = 1;
  destination_prefix_length = dest.prefix_len;
  nlas =
      destination (octets dest.addr)
      ∷ gateway (octets gw)
      ∷ priority (metric_or_default metric)
      ∷ [];
}

unfoldable pub create_route_msg : Route → RouteMessage
create_route_msg (ipv4 dest gw metric) = route_message 2 dest gw metric
create_route_msg (ipv6 dest gw metric) = route_message 10 dest gw metric
