-- ===== src/Firewall/Driver/Cycle.antt =====
-- What the iptables driver promises for a network: its setup, a second setup, and a setup that
-- is followed by the complete teardown.
use netavark.Prelude.{
  ◌≤◌, String, ◌<>◌, ◌≡◌, refl, Bool, true, false, ◌&&◌, some, List, [], ◌∷◌, is_ok, str_eq, arith,
  if◌then◌else◌,
}
use netavark.Action.{for_each}
use netavark.Network.Types.{Subnet}
use netavark.Network.Internal.{SetupNetwork, TearDownNetwork}
use netavark.Network.Text.{AddrText}
use netavark.Firewall.Tables.{Place, Iptables, IsLawful}
use netavark.Firewall.Tables.Counts.{tally}
use netavark.Firewall.Bus.{Bus}
use netavark.Firewall.NetworkChains.{forward, filter, netavark_forward, get_network_chains}
use netavark.Firewall.Chain.Setup.{at_least_once, wants}
use netavark.Firewall.Chain.Teardown.{drops}
use netavark.Firewall.Driver.{
  Host, items, subnet_chains, setup_subnet, setup_network, teardown_subnet, teardown_network,
}
use netavark.Firewall.Driver.Networks.{
  network_wants, network_drops, setup_subnets-tally, setup_subnets-has_chain, setup_subnets_still,
  teardown_subnets-tally,
}

-- The jump from the chain FORWARD to the chain of the program, which is never taken out.
abbrev pub is_forward_jump : Place → String → Bool
is_forward_jump q x =
    (str_eq filter q.table && str_eq forward q.chain)
    && str_eq ("-m comment --comment 'netavark firewall plugin rules' -j " <> netavark_forward) x

-- A subnet's teardown takes out all that its setup puts in, but for that jump.
subnet_chains-drops :
    (text : AddrText) (config : SetupNetwork) (interface : String) (n : Subnet) (q : Place)
    (x : String)
    → is_forward_jump q x ≡ false
    → drops true (subnet_chains text config interface n) q x
      ≡ wants (subnet_chains text config interface n) q x
unfolding subnet_chains get_network_chains
subnet_chains-drops text config interface n q x h = ground arith

network_drops-eq-wants :
    (text : AddrText) (config : SetupNetwork) (interface : String) (ns : List Subnet) (q : Place)
    (x : String)
    → is_forward_jump q x ≡ false
    → network_drops text config interface true ns q x ≡ network_wants text config interface ns q x
network_drops-eq-wants text config interface [] q x h = refl
network_drops-eq-wants text config interface (n ∷ ns) q x h = ground (
  arith,
  subnet_chains-drops text config interface n q x h,
  network_drops-eq-wants text config interface ns q x h,
)

abbrev pub complete_teardown : SetupNetwork → TearDownNetwork
complete_teardown config = record { config = config; complete_teardown = true }

module _ (T : Iptables) (L : IsLawful T) (B : Bus) (text : AddrText) (config : SetupNetwork)
    {interface : String} (named : config.net.network_interface ≡ some interface) where
  setup_network_subnets :
      (h : Host T B)
      → setup_network T B text config h
        ≡ for_each (setup_subnet T B text config interface) (items config.net.subnets) h
  unfolding setup_network
  setup_network_subnets h = ground arith

  teardown_network_subnets :
      (h : Host T B)
      → let tear : TearDownNetwork = record { config = config; complete_teardown = true } in
        teardown_network T B text tear h
        ≡ for_each (teardown_subnet T B text tear interface) (items config.net.subnets) h
  unfolding teardown_network
  teardown_network_subnets h = ground arith

  -- However the setup of a network with an interface name ends, no rule leaves a chain.
  pub setup_network_keeps :
      (q : Place) (x : String) (h : Host T B)
      → tally T L q x h.tables ≤ tally T L q x (setup_network T B text config h).1.tables
  setup_network_keeps q x h =
      rw (setup_network_subnets h)
        (setup_subnets-tally T B text config interface L q x (items config.net.subnets) h).0

  -- Where the setup of a network with an interface name succeeds, every rule that one of the
  -- network's subnets lists for a chain stands in that chain, once if it is new; a rule that none
  -- lists stands there as often as before.
  pub setup_network-tally :
      (q : Place) (x : String) (h : Host T B)
      → is_ok (setup_network T B text config h).0 ≡ true
      → tally T L q x (setup_network T B text config h).1.tables
        ≡ at_least_once
            (network_wants text config interface (items config.net.subnets) q x)
            (tally T L q x h.tables)
  setup_network-tally q x h =
      rw (setup_network_subnets h)
        (setup_subnets-tally T B text config interface L q x (items config.net.subnets) h).1

  -- Once the setup of a network with an interface name has succeeded, a second setup of it,
  -- whether it succeeds or not, changes nothing in the tables.
  pub setup_network_again :
      (h : Host T B)
      → is_ok (setup_network T B text config h).0 ≡ true
      → (setup_network T B text config (setup_network T B text config h).1).1.tables
        ≡ (setup_network T B text config h).1.tables
  setup_network_again h =
      let ns = items config.net.subnets in
      let h' = (for_each (setup_subnet T B text config interface) ns h).1 in
      rw (setup_network_subnets h, setup_network_subnets h')
        λ done.
          setup_subnets_still T B text config interface L ns h'
            (λ q e. ground (arith, setup_subnets-has_chain T B text config interface L q ns h done))
            (λ q x e.
              ground (arith, (setup_subnets-tally T B text config interface L q x ns h).1 done))

  -- The setup and then the complete teardown of a network with an interface name, where both
  -- succeed and where a rule stood in its chain at most once before: a rule of the network is
  -- gone, also one that was there before, and any other stands there as before. The jump from
  -- FORWARD to the chain of the program is not spoken of.
  pub setup_teardown :
      (q : Place) (x : String) (h : Host T B)
      → is_forward_jump q x ≡ false
      → tally T L q x h.tables ≤ 1
      → is_ok (setup_network T B text config h).0 ≡ true
      → is_ok
          (teardown_network T B text
            (complete_teardown config)
            (setup_network T B text config h).1).0
        ≡ true
      → tally T L q x
          (teardown_network T B text
            (complete_teardown config)
            (setup_network T B text config h).1).1.tables
        ≡ (if network_wants text config interface (items config.net.subnets) q x
            then 0
            else tally T L q x h.tables)
  setup_teardown q x h foreign once =
      let ns = items config.net.subnets in
      let h' = (for_each (setup_subnet T B text config interface) ns h).1 in
      rw (setup_network_subnets h, teardown_network_subnets h')
        λ done gone. ground (
          arith,
          network_drops-eq-wants text config interface ns q x foreign,
          (setup_subnets-tally T B text config interface L q x ns h).1 done,
          (teardown_subnets-tally T B text config interface L true q x ns h').1 gone,
        )
