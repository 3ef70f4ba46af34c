-- ===== src/Tests/Commands.antt =====
-- The commands over a host in memory, at concrete inputs: a driver is the name of its network,
-- and the state is the log of what was done. The network `bad` fails at its setup and teardown.
use netavark.Prelude.{
  String, ◌<>◌, ◌≡◌, refl, ◌⊎◌, true, false, none, List, [], ◌∷◌, ok, err, str_eq, if◌then◌else◌,
  Option-cases, inl, inr, arith,
}
use mathlib.Core.Path.{subst}
use netavark.Prelude.Dict.{lookup}
use netavark.Error.{NetavarkError, message, nil, is_empty}
use netavark.Error.Flat.{IsFlat, IsPushable}
use netavark.Network.Types.{Network, PerNetworkOptions, NetworkOptions, StatusBlock}
use netavark.Commands.{
  System, setup_drivers, undo, teardown_one, teardown_networks, exec_setup, get_drivers, get_driver,
  commit_dns,
}
use netavark.Commands.Rollback.{IsComplete, IsUndone, setup_drivers_lem}
use netavark.Commands.Removal.{is_something, teardown_networks_lem, teardown_networks-IsFlat}
use netavark.Tests.Data.{podman}

abbrev no_status : StatusBlock
no_status = record { dns_search_domains = none; dns_server_ips = none; interfaces = none }

abbrev pub options_of : PerNetworkOptions
options_of = record {
  aliases = none;
  interface_name = "eth0";
  static_ips = none;
  static_mac = none;
}

abbrev pub two_networks : NetworkOptions
two_networks = record {
  container_id = "0a1b2c";
  container_name = "web";
  networks = ("podman", options_of) ∷ ("bad", options_of) ∷ [];
  network_info = ("podman", podman) ∷ ("bad", record podman { name = "bad" }) ∷ [];
  port_mappings = none;
  dns_servers = none;
}

abbrev pub log_system : System
log_system = record {
  State = List String;
  Driver = String;
  get_network_driver = λ options network opts s. ok network.name;
  validate = λ driver s. (ok driver, s);
  setup = λ driver s.
      if str_eq driver "bad"
      then (err (message "setup"), ("failed " <> driver) ∷ s)
      else (ok (no_status, none), ("up " <> driver) ∷ s);
  teardown = λ driver s.
      if str_eq driver "bad"
      then (err (message "teardown"), s)
      else (ok tt, ("down " <> driver) ∷ s);
  network_name = λ driver. driver;
  ns_checks = λ s. ok tt;
  load = λ s. ok two_networks;
  get_supported_firewall_driver = λ s. ok tt;
  get_netavark_dns_port = λ s. ok 53;
  open_netlink_sockets = λ s. (ok tt, s);
  set_up_loopback = λ s. (ok tt, s);
  aardvark_exists = λ s. false;
  create_dir = λ s. (ok tt, s);
  is_path_text = true;
  commit_netavark_entries = λ entries s. (ok tt, s);
  delete_from_netavark_entries = λ options s. (ok tt, s);
  print_json = λ response s. (ok tt, "printed" ∷ s);
}

setup_drivers_lem_example :
    IsComplete log_system [] ("podman" ∷ "bad" ∷ []) [] [] []
    ⊎ IsUndone log_system [] ("podman" ∷ "bad" ∷ []) [] [] []
setup_drivers_lem_example = setup_drivers_lem log_system [] ("podman" ∷ "bad" ∷ []) [] [] []

-- The whole command: the network that was set up is down again, and nothing is printed.
exec_setup_undone :
    exec_setup log_system []
    ≡ (err (message "setup"), "down podman" ∷ "failed bad" ∷ "up podman" ∷ [])
unfolding exec_setup get_drivers get_driver setup_drivers undo commit_dns
exec_setup_undone = refl

is_something-message :
    {e : NetavarkError} (text : String) → message text ≡ e → is_something e ≡ true
is_something-message text h = subst (λ e. is_something e ≡ true) h refl

message-IsPushable : {e : NetavarkError} (text : String) → message text ≡ e → IsPushable e
message-IsPushable text h = subst IsPushable h tt

-- Every failure of a teardown is a message.
teardown_one-message :
    (name : String) (network : Network) (t : List String) (e : NetavarkError)
    → (teardown_one log_system two_networks name network t).0 ≡ err e
    → (text : String) × (message text ≡ e)
unfolding teardown_one
teardown_one-message name network t e h = elim (Option-cases (lookup name two_networks.networks)) [
  | inl n ↦ ("network options for network " <> (name <> " not found"), ground (arith, h, n))
  | inr (o, n) ↦ ("teardown", ground (arith, h, n))
]

teardown_one-is_something :
    (name : String) (network : Network) (t : List String) (e : NetavarkError)
    → (teardown_one log_system two_networks name network t).0 ≡ err e
    → is_something e ≡ true
teardown_one-is_something name network t e h =
    let (text, m) = teardown_one-message name network t e h in is_something-message text m

teardown_one-IsPushable :
    (name : String) (network : Network) (t : List String) (e : NetavarkError)
    → (teardown_one log_system two_networks name network t).0 ≡ err e
    → IsPushable e
teardown_one-IsPushable name network t e h =
    let (text, m) = teardown_one-message name network t e h in message-IsPushable text m

teardown_networks_lem_example :
    ((teardown_networks log_system two_networks two_networks.network_info nil []).1
      ≡ "down podman" ∷ [])
    × (is_empty (teardown_networks log_system two_networks two_networks.network_info nil []).0
        ≡ false)
unfolding teardown_networks teardown_one
teardown_networks_lem_example =
    teardown_networks_lem log_system two_networks two_networks.network_info nil []
      teardown_one-is_something

teardown_networks-IsFlat_example :
    IsFlat (teardown_networks log_system two_networks two_networks.network_info nil []).0
teardown_networks-IsFlat_example =
    teardown_networks-IsFlat log_system two_networks two_networks.network_info nil []
      teardown_one-IsPushable tt
