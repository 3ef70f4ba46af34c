-- ===== src/Firewall/Driver.antt =====
-- The iptables driver, `src/firewall/iptables.rs`. The host is the kernel's tables and, beside
-- them, firewalld with a state of its own.
pub mod Cycle
pub mod Networks
pub mod Ports
use netavark.Prelude.{
  ℕ, String, Bool, true, false, not, ◌&&◌, ◌||◌, Option, none, some, List, [], ◌∷◌, ok, err,
  if◌then◌else◌,
}
use netavark.Error.{NetavarkError, NetavarkResult, IoError, other, io}
use netavark.Action.{Action, pure, raise, ◌>>=◌, ◌>>◌, for_each, lift}
use netavark.Network.Types.{IpAddr, is_ipv6, IpNet, Subnet, Network}
use netavark.Network.Internal.{
  PortForwardConfig, TeardownPortForward, SetupNetwork, TearDownNetwork,
}
use netavark.Network.Text.{AddrText}
use netavark.Firewall.Tables.{Iptables, Conn, conn, conn6}
use netavark.Firewall.Chain.{VarkChain, is_on_complete, create_network_chains, remove_rules, remove}
use netavark.Firewall.NetworkChains.{get_network_chains}
use netavark.Firewall.PortChains.{get_port_forwarding_chains}
use netavark.Firewall.Bus.{Bus}
use netavark.Firewall.Firewalld.Zones.{add_source_subnets_to_zone}

-- `io::Error::new(ErrorKind::Other, ...)`
abbrev pub io_other : String → NetavarkError
io_other text = io (record { kind = other; text = text })

abbrev pub no_interface : NetavarkError
no_interface = io_other "failed to get interface"

abbrev pub no_subnet_v4 : NetavarkError
no_subnet_v4 = io_other "ipv4 address but provided but no v4 subnet provided"

abbrev pub no_subnet_v6 : NetavarkError
no_subnet_v6 = io_other "ipv6 address but provided but no v6 subnet provided"

-- `if let Some(items) = ... { for item in items { ... } }`
abbrev pub items {ℓ} : {A : Type ℓ} → Option (List A) → List A
items none = []
items (some xs) = xs

abbrev pub connection : Bool → Conn
connection is_v6 = if is_v6 then conn6 else conn

pub record Host (T : Iptables) (B : Bus) : Type 0 where
  pub tables : T.State
  pub bus : B.State

-- The chains of one subnet of a network.
unfoldable pub subnet_chains : AddrText → SetupNetwork → String → Subnet → List VarkChain
subnet_chains text config interface network =
    let is_v6 = is_ipv6 network.subnet.addr in
    get_network_chains text (connection is_v6) network.subnet config.network_hash_name is_v6
      interface config.isolation

module _ (T : Iptables) (B : Bus) (text : AddrText) where
  -- What only touches the tables.
  abbrev pub on_tables : {A : Type 0} → Action T.State A → Action (Host T B) A
  on_tables m h = let (r, t) = m h.tables in (r, record h { tables = t })

  unfoldable pub is_firewalld_running : Host T B → Bool
  is_firewalld_running h = B.has_owner h.bus

  -- Every error is ignored.
  unfoldable pub add_firewalld_if_possible : Subnet → Action (Host T B) Unit
  unfolding is_firewalld_running
  add_firewalld_if_possible net h =
      if B.has_system h.bus && is_firewalld_running h
      then (
        ok tt,
        record h { bus = (add_source_subnets_to_zone B text "trusted" (net ∷ []) h.bus).1 },
      )
      else (ok tt, h)

  unfoldable pub rm_firewalld_if_possible : Subnet → Action (Host T B) Unit
  unfolding is_firewalld_running
  rm_firewalld_if_possible net h =
      if B.has_system h.bus && is_firewalld_running h
      then (
        ok tt,
        record h { bus = (B.remove_source "trusted" (text.show_net net.subnet) h.bus).1 },
      )
      else (ok tt, h)

  -- The body of the loop over the subnets.
  unfoldable pub setup_subnet : SetupNetwork → String → Subnet → Action (Host T B) Unit
  setup_subnet config interface network = do
    on_tables (create_network_chains T (subnet_chains text config interface network))
    add_firewalld_if_possible network

  unfoldable pub setup_network : SetupNetwork → Action (Host T B) Unit
  setup_network config = elim config.net.network_interface [
    | none ↦ raise no_interface
    | some interface ↦ for_each (setup_subnet config interface) (items config.net.subnets)
  ]

  -- A chain goes with the network if its policy says so.
  unfoldable pub remove_network_chain : Bool → VarkChain → Action T.State Unit
  remove_network_chain complete_teardown c =
      if complete_teardown && is_on_complete c.td_policy then remove T c else pure tt

  unfoldable pub teardown_subnet : TearDownNetwork → String → Subnet → Action (Host T B) Unit
  unfolding remove_network_chain
  teardown_subnet tear interface network =
      let chains = subnet_chains text tear.config interface network in
      do
        on_tables (for_each (remove_rules T tear.complete_teardown) chains)
        on_tables (for_each (remove_network_chain tear.complete_teardown) chains)
        if tear.complete_teardown then rm_firewalld_if_possible network else pure tt

  unfoldable pub teardown_network : TearDownNetwork → Action (Host T B) Unit
  teardown_network tear = elim tear.config.net.network_interface [
    | none ↦ raise no_interface
    | some interface ↦ for_each (teardown_subnet tear interface) (items tear.config.net.subnets)
  ]

  -- The part of `setup_port_forward` for one address family.
  unfoldable pub setup_family :
      PortForwardConfig → Bool → NetavarkError → Option IpAddr → Option IpNet → Action T.State Unit
  setup_family config is_v6 no_subnet none subnet = pure tt
  setup_family config is_v6 no_subnet (some ip) none = raise no_subnet
  setup_family config is_v6 no_subnet (some ip) (some subnet) = do
    chains ← lift (get_port_forwarding_chains text (connection is_v6) config ip subnet is_v6)
    create_network_chains T chains

  unfoldable pub setup_port_forward : PortForwardConfig → Action (Host T B) Unit
  unfolding setup_family
  setup_port_forward config = do
    on_tables (setup_family config false no_subnet_v4 config.container_ip_v4 config.subnet_v4)
    on_tables (setup_family config true no_subnet_v6 config.container_ip_v6 config.subnet_v6)

  unfoldable pub remove_port_chain : Bool → VarkChain → Action T.State Unit
  remove_port_chain complete_teardown c =
      if not complete_teardown || not c.create
      then pure tt
      else if is_on_complete c.td_policy
      then remove T c
      else pure tt

  -- The part of `teardown_port_forward` for one address family.
  unfoldable pub teardown_family :
      TeardownPortForward
      → Bool
      → NetavarkError
      → Option IpAddr
      → Option IpNet
      → Action T.State Unit
  unfolding remove_port_chain
  teardown_family tear is_v6 no_subnet none subnet = pure tt
  teardown_family tear is_v6 no_subnet (some ip) none = raise no_subnet
  teardown_family tear is_v6 no_subnet (some ip) (some subnet) = do
    chains ← lift (get_port_forwarding_chains text (connection is_v6) tear.config ip subnet is_v6)
    for_each (remove_rules T tear.complete_teardown) chains
    for_each (remove_port_chain tear.complete_teardown) chains

  unfoldable pub teardown_port_forward : TeardownPortForward → Action (Host T B) Unit
  unfolding teardown_family
  teardown_port_forward tear =
      let config = tear.config in
      do
        on_tables (teardown_family tear false no_subnet_v4 config.container_ip_v4 config.subnet_v4)
        on_tables (teardown_family tear true no_subnet_v6 config.container_ip_v6 config.subnet_v6)
