-- ===== src/Commands/Drivers.antt =====
-- The commands over the drivers of networks: `System` with the bridge, vlan and plugin drivers. A
-- panic stops the program: the state is `none` from then on, and every call fails. A plugin is
-- another program, which may change the whole machine, the firewall too.
use netavark.Prelude.{ℕ, String, Bool, false, Option, none, some, List, Result, ok, err}
use netavark.Prelude.Dict.{Dict}
use netavark.Error.{NetavarkError, NetavarkResult, message, IoError, other}
use netavark.Action.{Action, pure}
use netavark.Network.Types.{Network, PerNetworkOptions, NetworkOptions, StatusBlock}
use netavark.Network.Text.{NetText}
use netavark.Network.Kernel.{Kernel, TextLib}
use netavark.Network.Machine.{DriverInfo, Machine}
use netavark.Network.Drivers.{
  NetworkDriver, bridge_driver, vlan_driver, plugin_driver, PluginFiles, get_network_driver,
}
use netavark.Network.Bridge.Options as BridgeOptions
use netavark.Network.Bridge.Driver as Bridge
use netavark.Network.Vlan.Options as VlanOptions
use netavark.Network.Vlan.Driver as Vlan
use netavark.Network.Vlan.Dhcp.{DhcpClient}
use netavark.Network.Plugin as Plugin
use netavark.Network.Plugin.{Processes}
use netavark.Firewall.Interface.{FirewallDriver}
use netavark.Commands.{AardvarkEntry, System}

abbrev pub panicked : NetavarkError
panicked = message "panic"

module _ {M : Type 0} where
  abbrev pub running : {A : Type 0} → Action M A → Action (Option M) A
  running m none = (err panicked, none)
  running m (some h) = let (r, h') = m h in (r, some h')

  abbrev pub after_call : {A : Type 0} → Option (NetavarkResult A × M) → NetavarkResult A × Option M
  after_call none = (err panicked, none)
  after_call (some (r, h)) = (r, some h)

  abbrev pub may_panic : {A : Type 0} → (M → Option (NetavarkResult A × M)) → Action (Option M) A
  may_panic m none = (err panicked, none)
  may_panic m (some h) = after_call (m h)

  abbrev pub asked : {A : Type 0} → (M → NetavarkResult A) → Option M → NetavarkResult A
  asked m none = err panicked
  asked m (some h) = m h

  abbrev pub known : (M → Bool) → Option M → Bool
  known m none = false
  known m (some h) = m h

  abbrev pub io_call : (M → Result IoError Unit × M) → Option M → Result IoError Unit × Option M
  io_call m none = (err (record { kind = other; text = "panic" }), none)
  io_call m (some h) = let (r, h') = m h in (r, some h')

-- What the commands call besides the drivers, as in `System`.
pub record Others (M : Type 0) : Type 0 where
  pub ns_checks : M → NetavarkResult Unit
  pub load : M → NetavarkResult NetworkOptions
  pub get_supported_firewall_driver : M → NetavarkResult Unit
  pub get_netavark_dns_port : M → NetavarkResult ℕ
  pub open_netlink_sockets : Action M Unit
  pub set_up_loopback : Action M Unit
  pub aardvark_exists : M → Bool
  pub create_dir : M → Result IoError Unit × M
  pub is_path_text : Bool
  pub commit_netavark_entries : List AardvarkEntry → M → Result IoError Unit × M
  pub delete_from_netavark_entries : NetworkOptions → M → Result IoError Unit × M
  pub print_json : Dict StatusBlock → Action M Unit

-- What the drivers are made with: the descriptors of the namespaces, the path of the container's,
-- the port of the DNS server, and the directories of plugins.
pub record Invocation : Type 0 where
  pub netns_host : ℕ
  pub netns_container : ℕ
  pub netns_path : String
  pub dns_port : ℕ
  pub plugin_directories : Option (List String)
  pub random : ℕ → String

abbrev pub info_of : Invocation → NetworkOptions → Network → PerNetworkOptions → DriverInfo
info_of inv options network per_network_opts = record {
  container_id = options.container_id;
  container_name = options.container_name;
  container_dns_servers = options.dns_servers;
  netns_host = inv.netns_host;
  netns_container = inv.netns_container;
  netns_path = inv.netns_path;
  network = network;
  per_network_opts = per_network_opts;
  port_mappings = options.port_mappings;
  dns_port = inv.dns_port;
}

module _ (K : Kernel) {S : Type 0} (fw : FirewallDriver S) (dhcp : DhcpClient K.State)
    (P : Processes (Machine K S)) (net_text : NetText) (text : TextLib) (inv : Invocation) where
  -- Code that works on the kernel only.
  abbrev pub kernel_result :
      {A : Type 0}
      → Machine K S
      → Option (NetavarkResult A × K.State)
      → Option (NetavarkResult A × Machine K S)
  kernel_result h none = none
  kernel_result h (some (r, k)) = some (r, record h { kernel = k })

  abbrev pub kernel_part :
      {A : Type 0}
      → (K.State → Option (NetavarkResult A × K.State))
      → Machine K S
      → Option (NetavarkResult A × Machine K S)
  kernel_part m h = kernel_result h (m h.kernel)

  abbrev pub with_data :
      {D : Type 0} → (D → NetworkDriver) → NetavarkResult D → NetavarkResult NetworkDriver
  with_data f (ok d) = ok (f d)
  with_data f (err e) = err e

  abbrev pub validated :
      {D : Type 0}
      → (D → NetworkDriver)
      → Option (NetavarkResult D)
      → Machine K S
      → Option (NetavarkResult NetworkDriver × Machine K S)
  validated f none h = none
  validated f (some r) h = some (with_data f r, h)

  unfoldable pub validate_driver : NetworkDriver → Action (Option (Machine K S)) NetworkDriver
  validate_driver (bridge_driver info _) =
      may_panic
        (validated (λ d. bridge_driver info (some d)) (BridgeOptions.validate net_text text info))
  validate_driver (vlan_driver info _) =
      may_panic
        (validated (λ d. vlan_driver info (some d)) (VlanOptions.validate net_text text info))
  validate_driver (plugin_driver path info) = running (pure (plugin_driver path info))

  unfoldable pub setup_driver :
      NetworkDriver → Action (Option (Machine K S)) (StatusBlock × Option AardvarkEntry)
  setup_driver (bridge_driver info data_) = running (Bridge.setup K fw text info data_)
  setup_driver (vlan_driver info data_) =
      may_panic (kernel_part (Vlan.setup K dhcp net_text text inv.random info data_))
  setup_driver (plugin_driver path info) = may_panic (Plugin.setup P path info)

  unfoldable pub teardown_driver : NetworkDriver → Action (Option (Machine K S)) Unit
  teardown_driver (bridge_driver info data_) =
      may_panic (Bridge.teardown K fw text net_text info data_)
  teardown_driver (vlan_driver info data_) =
      may_panic (kernel_part (Vlan.teardown K dhcp net_text text info))
  teardown_driver (plugin_driver path info) = running (Plugin.teardown P path info)

  abbrev pub driver_network_name : NetworkDriver → String
  driver_network_name (bridge_driver info _) = info.network.name
  driver_network_name (vlan_driver info _) = info.network.name
  driver_network_name (plugin_driver path info) = info.network.name

  abbrev pub get_driver_of :
      PluginFiles
      → NetworkOptions
      → Network
      → PerNetworkOptions
      → Option (Machine K S)
      → NetavarkResult NetworkDriver
  get_driver_of F options network opts none = err panicked
  get_driver_of F options network opts (some h) =
      get_network_driver F (info_of inv options network opts) inv.plugin_directories

  abbrev pub driver_system : PluginFiles → Others (Machine K S) → System
  driver_system F O = record {
    State = Option (Machine K S);
    Driver = NetworkDriver;
    get_network_driver = get_driver_of F;
    validate = validate_driver;
    setup = setup_driver;
    teardown = teardown_driver;
    network_name = driver_network_name;
    ns_checks = asked O.ns_checks;
    load = asked O.load;
    get_supported_firewall_driver = asked O.get_supported_firewall_driver;
    get_netavark_dns_port = asked O.get_netavark_dns_port;
    open_netlink_sockets = running O.open_netlink_sockets;
    set_up_loopback = running O.set_up_loopback;
    aardvark_exists = known O.aardvark_exists;
    create_dir = io_call O.create_dir;
    is_path_text = O.is_path_text;
    commit_netavark_entries = λ entries. io_call (O.commit_netavark_entries entries);
    delete_from_netavark_entries = λ options. io_call (O.delete_from_netavark_entries options);
    print_json = λ response. running (O.print_json response);
  }
