-- ===== src/Tests/Bridge.antt =====
-- The bridge driver on the kernel in memory.
use mathlib.Core.Option as Option
use netavark.Prelude.{ℕ, suc, ◌≡◌, refl, true, false, some, [], ok, err, str_eq, if◌then◌else◌}
use netavark.Error.{push, wrap_error, sysctl, message, list, cons, nil}
use netavark.Network.Types.{v4, v6}
use netavark.Network.CoreUtils.{apply_sysctl_value, apply_sysctl, join_netns, disable_ipv6_autoconf}
use netavark.Network.Kernel.{Kernel, failed}
use netavark.Network.Machine.{Machine}
use netavark.Network.Bridge.Links.{in_container, remove_link}
use netavark.Network.Bridge.Namespace.{Namespaces, in_container-current}
use netavark.Network.Bridge.Addresses.{get_firewall_conf_lem}
use netavark.Network.Bridge.Firewall.{find_addresses, get_firewall_conf, teardown_options}
use netavark.Network.Bridge.Driver.{setup, teardown}
use netavark.Network.Bridge.Outcome.{setup-internal, teardown-error}
use netavark.Firewall.Interface.{FirewallDriver}
use netavark.Tests.Kernel.{small_kernel, small_text, two_families, driver_info, driver_data}
use netavark.Tests.Ipam.{net_text}

-- The number of calls.
abbrev pub counting : FirewallDriver ℕ
counting = record {
  setup_network = λ c n. (ok tt, suc n);
  teardown_network = λ c n. (ok tt, suc n);
  setup_port_forward = λ c n. (ok tt, suc n);
  teardown_port_forward = λ c n. (err (message "no rules"), suc n);
}

abbrev pub machine : Machine (small_kernel false true) ℕ
machine = record {
  kernel = (3, []);
  firewall = 0;
  ipv4_forward_once = false;
  ipv6_forward_once = false;
}

-- IPv6 is on, and the sysctl for the detection of duplicate addresses cannot be read.
abbrev dad_denied : Kernel
dad_denied = record (small_kernel false false) {
  sysctl_value = λ name s.
      if str_eq name "/proc/sys/net/ipv6/conf/eth0/accept_dad"
      then err (failed "denied")
      else ok "0";
}

abbrev dad_denied-Namespaces : Namespaces dad_denied
dad_denied-Namespaces = record {
  current = λ s. s.0;
  setns_law = λ fd s h. refl;
  sysctl_law = λ name val s. refl;
}

in_container-current_example :
    (in_container dad_denied small_text driver_data 3 4 (3, [])).0 ≡ err (sysctl "denied")
    × ((in_container dad_denied small_text driver_data 3 4 (3, [])).1.0 ≡ 4)
unfolding join_netns disable_ipv6_autoconf apply_sysctl apply_sysctl_value
in_container-current_example =
    in_container-current dad_denied dad_denied-Namespaces small_text driver_data 3 4 (3, [])
      (sysctl "denied") refl refl

get_firewall_conf_lem_example :
    let spf = (get_firewall_conf small_text (driver_info false) two_families [] true).1 in
    (spf.container_ip_v4 ≡ some (v4 173539333))
    × ((spf.subnet_v4 ≡ some (record { addr = v4 173539328; prefix_len = 16 }))
        × ((spf.container_ip_v6 ≡ some (v6 5))
            × (spf.subnet_v6 ≡ some (record { addr = v6 0; prefix_len = 64 }))))
get_firewall_conf_lem_example =
    get_firewall_conf_lem small_text (driver_info false) two_families [] true

setup-internal_example :
    (setup
      (small_kernel false true)
      counting
      small_text
      (driver_info true)
      (some driver_data)
      machine).1.firewall
    ≡ 0
setup-internal_example =
    setup-internal (small_kernel false true) counting small_text (driver_info true)
      (some driver_data) machine refl

teardown-error_example :
    teardown
      (small_kernel false true)
      counting
      small_text
      net_text
      (driver_info false)
      (some driver_data)
      machine
    ≡ some (
      err (
          list (
            cons
              (wrap_error "failed to delete container veth eth0" (message "busy"))
              (cons (message "no rules") nil))),
      record machine { firewall = 1 },
    )
unfolding remove_link teardown_options push find_addresses
teardown-error_example =
    teardown-error (small_kernel false true) counting small_text net_text (driver_info false)
      (some driver_data) machine "podman0"
      (wrap_error "failed to delete container veth eth0" (message "busy")) two_families [] false
      refl refl refl refl
