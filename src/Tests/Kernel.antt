-- ===== src/Tests/Kernel.antt =====
-- A kernel in memory, and texts, for the tests of the network drivers.
use netavark.Prelude.{
  ℕ, String, ◌≡◌, Bool, true, false, none, some, List, [], ◌∷◌, ok, err, contains, str_eq, eq_refl,
  arith, if◌then◌else◌, inl, inr, Bool-cases,
}
use netavark.Error.{netlink, message}
use netavark.Network.Types.{v4, v6, is_ipv6, IpNet, PerNetworkOptions}
use netavark.Network.Internal.{IpamAddresses}
use netavark.Network.Netlink.Types.{
  LinkMessage, address, info, kind as kind_info, bridge as bridge_kind, nil, cons, info_nil,
  info_cons, CreateLinkOptions,
}
use netavark.Network.Kernel.{Kernel, host_side, TextLib, failed}
use netavark.Network.Machine.{DriverInfo}
use netavark.Network.Bridge.Options.{InternalData}
use netavark.Network.Vlan.Creation.{LinkNames}
use netavark.Tests.Data.{podman, container_ip, http}

-- A link that is a bridge, with an address.
abbrev pub some_link : LinkMessage
some_link = record {
  index = 7;
  up = false;
  nlas = cons (info (info_cons (kind_info bridge_kind) info_nil)) (cons (address (1 ∷ 2 ∷ [])) nil);
}

-- The namespace of the process, and the names of the links in the container's. `eth0` is taken on
-- the host. If sysctls are denied, or links cannot be deleted, the arguments say so.
abbrev pub small_kernel : Bool → Bool → Kernel
small_kernel denied kept = record {
  State = ℕ × List String;
  get_link = λ side i s. (ok some_link, s);
  create_link = λ side opts s.
      if str_eq opts.name "eth0"
      then (err (netlink (record { errno = 17; text = "File exists" })), s)
      else (ok tt, (s.0, opts.name ∷ s.1));
  set_link_name = λ side i name s. (ok tt, (s.0, name ∷ s.1));
  del_link = λ side i s. if kept then (err (message "busy"), s) else (ok tt, s);
  add_addr = λ side i net s. (ok tt, s);
  add_route = λ side r s. (ok tt, s);
  dump_routes = λ side s. (ok [], s);
  dump_links = λ side nlas s. (ok [], s);
  set_up = λ side i s. (ok tt, s);
  setns = λ fd s. (ok tt, (fd, s.1));
  sysctl_new = λ name s. if denied then err (failed "denied") else ok tt;
  sysctl_value = λ name s. ok "1";
  sysctl_set = λ name val s. (ok val, s);
}

pub contains_created :
    (opts : CreateLinkOptions) (s : ℕ × List String)
    → ((small_kernel false false).create_link host_side opts s).0 ≡ ok tt
    → contains opts.name ((small_kernel false false).create_link host_side opts s).1.1 ≡ true
contains_created opts s h = elim (Bool-cases (str_eq opts.name "eth0")) [
  | inl e ↦ ground (arith, e, h)
  | inr e ↦ ground (arith, e, eq_refl opts.name)
]

pub contains_first : (name : String) (names : List String) → contains name (name ∷ names) ≡ true
contains_first name names = ground (arith, eq_refl name)

abbrev pub small-LinkNames : LinkNames (small_kernel false false)
small-LinkNames = record {
  has_link = λ name s. contains name s.1;
  create_law = λ opts fd s net h. contains_created opts s h;
  rename_law = λ index name s h. contains_first name s.1;
}

-- Texts for the tests.
abbrev pub small_text : TextLib
small_text = record {
  parse_u32 = λ s. ok 0;
  parse_bool = λ s. ok true;
  sha512 = λ s. s;
  prefix = λ s n. s;
  show_kind = λ k. "bridge";
  show_route = λ r. "route";
  network = λ net. record net { addr = if is_ipv6 net.addr then v6 0 else v4 173539328 };
}

abbrev pub two_families : List IpNet
two_families =
    record { addr = v6 5; prefix_len = 64 }
    ∷ record { addr = container_ip; prefix_len = 16 }
    ∷ record { addr = v6 6; prefix_len = 64 }
    ∷ []

abbrev pub options : PerNetworkOptions
options = record { aliases = none; interface_name = "eth0"; static_ips = none; static_mac = none }

abbrev pub driver_info : Bool → DriverInfo
driver_info internal = record {
  container_id = "0a1b2c";
  container_name = "web";
  container_dns_servers = none;
  netns_host = 3;
  netns_container = 4;
  netns_path = "/run/netns/web";
  network = record podman { internal = internal };
  per_network_opts = options;
  port_mappings = some (http ∷ []);
  dns_port = 53;
}

abbrev pub addresses : IpamAddresses
addresses = record {
  container_addresses = two_families;
  dhcp_enabled = false;
  gateway_addresses = [];
  ipv6_enabled = true;
  net_addresses = [];
  nameservers = [];
}

abbrev pub driver_data : InternalData
driver_data = record {
  container_interface_name = "eth0";
  bridge_interface_name = "podman0";
  mac_address = none;
  ipam = addresses;
  mtu = 1500;
  isolate = false;
  metric = some 100;
}
