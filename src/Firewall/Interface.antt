-- ===== src/Firewall/Interface.antt =====
-- `src/firewall/mod.rs`: the trait of the firewall drivers and the choice among them, with the
-- driver that does nothing, `src/firewall/fwnone.rs`.
use netavark.Prelude.{String, ◌<>◌, Option, none, some, Result, ok, err, str_eq, if◌then◌else◌}
use netavark.Error.{NetavarkResult, message, msg, dbus, wrap_error}
use netavark.Action.{Action, pure}
use netavark.Network.Internal.{
  PortForwardConfig, TeardownPortForward, SetupNetwork, TearDownNetwork,
}
use netavark.Network.Text.{AddrText}
use netavark.Firewall.Tables.{Iptables}
use netavark.Firewall.Bus.{Bus}
use netavark.Firewall.Driver
use netavark.Firewall.Driver.{Host}
use netavark.Firewall.Firewalld.Networks
use netavark.Firewall.Firewalld.Ports

-- The trait, for drivers that work on one state.
pub record FirewallDriver (S : Type 0) : Type 0 where
  pub setup_network : SetupNetwork → Action S Unit
  pub teardown_network : TearDownNetwork → Action S Unit
  pub setup_port_forward : PortForwardConfig → Action S Unit
  pub teardown_port_forward : TeardownPortForward → Action S Unit

pub data FirewallImpl : Type 0 where
  iptables firewalld nftables fwnone : FirewallImpl

module _ (T : Iptables) (B : Bus) (text : AddrText) where
  abbrev pub iptables_driver : FirewallDriver (Host T B)
  iptables_driver = record {
    setup_network = Driver.setup_network T B text;
    teardown_network = Driver.teardown_network T B text;
    setup_port_forward = Driver.setup_port_forward T B text;
    teardown_port_forward = Driver.teardown_port_forward T B text;
  }

  -- What only touches firewalld.
  abbrev pub on_bus : {A : Type 0} → Action B.State A → Action (Host T B) A
  on_bus m h = let (r, b) = m h.bus in (r, record h { bus = b })

  abbrev pub firewalld_driver : FirewallDriver (Host T B)
  firewalld_driver = record {
    setup_network = λ config. on_bus (Networks.setup_network B text config);
    teardown_network = λ tear. on_bus (Networks.teardown_network B text tear);
    setup_port_forward = λ config. on_bus (Ports.setup_port_forward text B config);
    teardown_port_forward = λ tear. on_bus (Ports.teardown_port_forward text B tear);
  }

  abbrev pub fwnone_driver : FirewallDriver (Host T B)
  fwnone_driver = record {
    setup_network = λ config. pure tt;
    teardown_network = λ tear. pure tt;
    setup_port_forward = λ config. pure tt;
    teardown_port_forward = λ tear. pure tt;
  }

  -- The variable NETAVARK_FW, if it is set, in lower case; and the connection to the system bus.
  unfoldable pub get_firewall_impl :
      Option String → Result String Unit → NetavarkResult FirewallImpl
  get_firewall_impl none system = ok iptables
  get_firewall_impl (some var) system =
      if str_eq var "firewalld"
      then elim system [
        | ok _ ↦ ok firewalld
        | err e ↦
            err (
              wrap_error "Error retrieving dbus connection for requested firewall backend" (dbus e))
      ]
      else if str_eq var "iptables"
      then ok iptables
      else if str_eq var "nftables"
      then ok nftables
      else if str_eq var "none"
      then ok fwnone
      else err (message ("Must provide a valid firewall backend, got " <> var))

  -- `new` of the iptables driver opens two connections, which may fail.
  abbrev pub new_iptables : Result String Unit → NetavarkResult (FirewallDriver (Host T B))
  new_iptables (ok _) = ok iptables_driver
  new_iptables (err e) = err (message e)

  unfoldable pub get_supported_firewall_driver :
      Option String
      → Result String Unit
      → Result String Unit
      → NetavarkResult (FirewallDriver (Host T B))
  unfolding get_firewall_impl
  get_supported_firewall_driver var system opened = elim (get_firewall_impl var system) [
    | err e ↦ err e
    | ok iptables ↦ new_iptables opened
    | ok firewalld ↦ ok firewalld_driver
    | ok nftables ↦ err (msg "nftables support presently not available")
    | ok fwnone ↦ ok fwnone_driver
  ]
