-- ===== src/Tests/Dhcp.antt =====
-- The DHCP proxy, with a client and a cache in memory, at concrete inputs.
use netavark.Prelude.{
  ℕ, zero, suc, String, ◌<>◌, ◌≡◌, refl, true, false, none, some, List, [], ◌∷◌, ok, err, str_eq,
  arith, if◌then◌else◌,
}
use Prim.Native.String.{count}
use text.Mathlib.TextLemmas.{length-append}
use netavark.Prelude.Dict.{lookup}
use netavark.Network.Types.{v4}
use netavark.Network.Kernel.{Kernel}
use netavark.Network.CoreUtils.{exec_netns, join_netns, add_default_routes, add_routes}
use netavark.Network.CoreUtils.Sockets.{Opening, open_netlink_socket, open_netlink_sockets}
use netavark.Network.Vlan.Dhcp.{NetworkConfig}
use netavark.Dhcp.Cache.Clear.{clear_cursor}
use netavark.Dhcp.Cache.{Lease, blank_lease, add_lease, save_memory_to_fs}
use netavark.Dhcp.Lease.{DhcpV4Lease, Ipv4Text, to_mozim, from_mozim}
use netavark.Dhcp.Lease.RoundTrip.{ReadsBack, to_mozim-from_mozim}
use netavark.Dhcp.Address.{
  AddressText, get_prefix_length_v4, handle_gws, new_mac_vlan, add_ip, add_gws, setup_address,
}
use netavark.Dhcp.Service.{
  internal, Mozim, new_service, create_client, get_service_lease, get_v4_lease,
}
use netavark.Dhcp.Requests.{
  Proxy, configure, cache_lease, find_lease, activity, channel_closed, time_out, process_setup,
  teardown_request, handle_wakeup,
}
use netavark.Dhcp.Requests.Cached.{
  process_setup-IsCached, teardown_request-unknown, handle_wakeup_lem,
}
use netavark.Tests.Cache.{cursor}
use netavark.Tests.Kernel.{small_kernel, small_text}

-- An address is as many strokes as its number.
abbrev strokes : ℕ → String
strokes zero = ""
strokes (suc n) = "1" <> strokes n

count-strokes : (n : ℕ) → count (strokes n) ≡ n
count-strokes zero = refl
count-strokes (suc n) = omega (arith, length-append "1" (strokes n), count-strokes n)

abbrev stroke_text : Ipv4Text
stroke_text = record {
  parse_ipv4 = λ t. ok (count t);
  show_ipv4 = strokes;
  no_u16 = "out of range";
}

stroke_text-ReadsBack : ReadsBack stroke_text
stroke_text-ReadsBack n = rw (count-strokes n) refl

abbrev mozim_lease : DhcpV4Lease
mozim_lease = record {
  siaddr = 1;
  yiaddr = 2;
  t1 = 1800;
  t2 = 3150;
  lease_time = 3600;
  srv_id = 1;
  subnet_mask = 3;
  broadcast_addr = some 9;
  dns_srvs = some [];
  gateways = some (1 ∷ []);
  ntp_srvs = none;
  mtu = none;
  host_name = some "web";
  domain_name = some "";
}

to_mozim-from_mozim_example :
    to_mozim stroke_text (from_mozim stroke_text mozim_lease)
    ≡ ok (record mozim_lease {
      broadcast_addr = none;
      dns_srvs = none;
      mtu = some 0;
      domain_name = none;
    })
to_mozim-from_mozim_example =
    to_mozim-from_mozim stroke_text stroke_text-ReadsBack mozim_lease (omega arith)

abbrev host : Kernel
host = small_kernel false false

abbrev opening : Opening host
opening = record { open_file = λ path s. (ok 3, s); new_socket = λ side s. (ok tt, s) }

abbrev mozim : Mozim (ℕ × List String)
mozim = record {
  Client = Unit;
  init = λ iface mac wait s. (ok tt, s);
  next = λ c s. (some (ok mozim_lease), s);
  show_invalid = λ e. e;
  show_bug = λ e. e;
}

-- The texts of two addresses are known.
abbrev address_text : AddressText
address_text = record {
  ipv4 = record stroke_text {
    parse_ipv4 = λ t. if str_eq t "" then err "invalid IPv4 address syntax" else ok (count t);
  };
  parse_ip = λ t. ok (v4 2);
  net = record {
    show_ip = λ ip. "";
    new_net = λ ip n. ok (record { addr = ip; prefix_len = n });
    parse_net = λ t. err "unknown";
  };
}

abbrev config : NetworkConfig
config = record {
  host_iface = "eth1";
  domain_name = "dns.podman";
  host_name = "";
  version = 0;
  ns_path = "/run/netns/web";
  container_iface = "eth0";
  container_mac_addr = "aa:bb:cc:dd:ee:ff";
}

abbrev proxy : Proxy host cursor
proxy = record {
  host = (3, []);
  cache = record { mem = []; writer = record { inner = []; pos = 0 } };
}

abbrev answer : Lease
answer = record blank_lease {
  t1 = 1800;
  t2 = 3150;
  lease_time = 3600;
  domain_name = "dns.podman";
  mac_address = "aa:bb:cc:dd:ee:ff";
  siaddr = "1";
  yiaddr = "11";
  srv_id = "1";
  subnet_mask = "111";
  gateways = "1" ∷ [];
  host_name = "web";
}

abbrev after : Proxy host cursor
after = record {
  host = (3, []);
  cache = record {
    mem = (("aa:bb:cc:dd:ee:ff", answer ∷ [])) ∷ [];
    writer = record { inner = 123 ∷ 1 ∷ 125 ∷ []; pos = 3 };
  };
}

process_setup-IsCached_example : lookup "aa:bb:cc:dd:ee:ff" after.cache.mem ≡ some (answer ∷ [])
unfolding process_setup find_lease cache_lease configure new_service create_client get_service_lease
    get_v4_lease from_mozim add_lease save_memory_to_fs setup_address new_mac_vlan handle_gws
    get_prefix_length_v4 open_netlink_sockets open_netlink_socket exec_netns join_netns add_ip
    add_gws add_default_routes add_routes clear_cursor
process_setup-IsCached_example =
    process_setup-IsCached host cursor opening mozim address_text small_text (λ t. true) config 8
      answer proxy after refl

teardown_request-unknown_example :
    teardown_request host cursor opening mozim address_text small_text (λ t. true) config 8 proxy
    ≡ some (err (record { code = internal; text = "invalid IPv4 address syntax" }), proxy)
unfolding new_service create_client
teardown_request-unknown_example =
    teardown_request-unknown host cursor opening mozim address_text small_text (λ t. true) config 8
      tt (3, []) "invalid IPv4 address syntax" proxy refl refl refl

handle_wakeup_lem_example :
    (handle_wakeup host cursor opening mozim address_text small_text
        (λ t. true)
        ((activity, proxy.cache) ∷ (time_out, after.cache) ∷ [])
      ≡ none)
    × (handle_wakeup host cursor opening mozim address_text small_text
          (λ t. true)
          ((activity, proxy.cache)
            ∷ (time_out, after.cache)
            ∷ (time_out, proxy.cache)
            ∷ (channel_closed, proxy.cache)
            ∷ [])
        ≡ some ((channel_closed, proxy.cache) ∷ []))
handle_wakeup_lem_example =
    handle_wakeup_lem host cursor opening mozim address_text small_text (λ t. true)
      ((activity, proxy.cache) ∷ (time_out, after.cache) ∷ []) ((channel_closed, proxy.cache) ∷ [])
      (time_out, proxy.cache) (tt, ((λ h. ground (arith, h)), tt)) refl
