-- ===== src/Firewall/Driver/Networks.antt =====
-- About the setup and the teardown of a network by the iptables driver.
use netavark.Prelude.{
  ◌≤◌, ◌<◌, String, ◌≡◌, refl, ◌∙◌, Bool, true, false, ◌||◌, List, [], ◌∷◌, is_ok, inl, inr, arith,
  if◌then◌else◌, Result-cases,
}
use netavark.Action.{for_each}
use netavark.Network.Types.{Subnet}
use netavark.Network.Internal.{SetupNetwork, TearDownNetwork}
use netavark.Network.Text.{AddrText}
use netavark.Firewall.Tables.{Place, Iptables, IsLawful}
use netavark.Firewall.Tables.Counts.{tally}
use netavark.Firewall.Bus.{Bus}
use netavark.Firewall.Chain.{VarkChain, create_network_chains, remove_rules}
use netavark.Firewall.Chain.Setup.{wants, at_least_once, create_network_chains-tally}
use netavark.Firewall.Chain.Made.{creates, create_network_chains-has_chain}
use netavark.Firewall.Chain.Again.{create_network_chains_still}
use netavark.Firewall.Chain.Teardown.{drops, remove_chains-tally, remove-tally}
use netavark.Firewall.Driver.{
  Host, subnet_chains, add_firewalld_if_possible, rm_firewalld_if_possible, setup_subnet,
  remove_network_chain, teardown_subnet,
}

module _ (text : AddrText) (config : SetupNetwork) (interface : String) where
  -- Whether the network puts the rule at the place, for one of its subnets.
  abbrev pub network_wants : List Subnet → Place → String → Bool
  network_wants [] q x = false
  network_wants (n ∷ ns) q x =
      wants (subnet_chains text config interface n) q x || network_wants ns q x

  -- Whether the network needs the chain to be made.
  abbrev pub network_creates : List Subnet → Place → Bool
  network_creates [] q = false
  network_creates (n ∷ ns) q =
      creates (subnet_chains text config interface n) q || network_creates ns q

  -- Whether the teardown of the network takes the rule out at the place.
  abbrev pub network_drops : Bool → List Subnet → Place → String → Bool
  network_drops complete [] q x = false
  network_drops complete (n ∷ ns) q x =
      drops complete (subnet_chains text config interface n) q x || network_drops complete ns q x

module _ (T : Iptables) (B : Bus) (text : AddrText) (config : SetupNetwork)
    (interface : String) where
  -- One subnet: firewalld has no say in the tables, nor in whether the setup succeeds.
  setup_subnet-create :
      (n : Subnet) (h : Host T B)
      → let (result, h') = setup_subnet T B text config interface n h in
        let (result', t) =
          create_network_chains T (subnet_chains text config interface n) h.tables in
        (is_ok result ≡ is_ok result') × (h'.tables ≡ t)
  unfolding setup_subnet add_firewalld_if_possible
  setup_subnet-create n h = ground arith

  module _ (L : IsLawful T) where
    pub setup_subnets-tally :
        (q : Place) (x : String) (ns : List Subnet) (h : Host T B)
        → let (result, h') = for_each (setup_subnet T B text config interface) ns h in
          (tally T L q x h.tables ≤ tally T L q x h'.tables)
          × (is_ok result ≡ true
              → tally T L q x h'.tables
                ≡ at_least_once
                    (network_wants text config interface ns q x)
                    (tally T L q x h.tables))
    unfolding for_each
    setup_subnets-tally q x [] h = ground arith
    setup_subnets-tally q x (n ∷ ns) h = ground (
      arith,
      setup_subnet-create n h,
      create_network_chains-tally T L q x (subnet_chains text config interface n) h.tables,
      setup_subnets-tally q x ns (setup_subnet T B text config interface n h).1,
    )

    pub setup_subnets-has_chain :
        (q : Place) (ns : List Subnet) (h : Host T B)
        → let (result, h') = for_each (setup_subnet T B text config interface) ns h in
          is_ok result ≡ true
          → L.has_chain h'.tables q
            ≡ (L.has_chain h.tables q || network_creates text config interface ns q)
    unfolding for_each
    setup_subnets-has_chain q [] h e = ground arith
    setup_subnets-has_chain q (n ∷ ns) h e = ground (
      arith,
      setup_subnet-create n h,
      create_network_chains-has_chain T L q (subnet_chains text config interface n) h.tables,
      setup_subnets-has_chain q ns (setup_subnet T B text config interface n h).1,
    )

    -- The subnets leave the tables alone once they hold what the subnets want.
    pub setup_subnets_still :
        (ns : List Subnet) (h : Host T B)
        → ((q : Place)
            → network_creates text config interface ns q ≡ true
            → L.has_chain h.tables q ≡ true)
        → ((q : Place) (x : String)
            → network_wants text config interface ns q x ≡ true
            → 0 < tally T L q x h.tables)
        → (for_each (setup_subnet T B text config interface) ns h).1.tables ≡ h.tables
    unfolding for_each
    setup_subnets_still [] h f g = refl
    setup_subnets_still (n ∷ ns) h f g =
        let (result, h') = setup_subnet T B text config interface n h in
        let same : h'.tables ≡ h.tables =
          (setup_subnet-create n h).1
          ∙ create_network_chains_still T L h.tables (subnet_chains text config interface n)
              (λ q e. f q (ground arith)) (λ q x e. g q x (ground arith)) in
        let rest : (for_each (setup_subnet T B text config interface) ns h').1.tables ≡ h'.tables =
          setup_subnets_still ns h' (λ q e. rw same (f q (ground arith)))
            (λ q x e. rw same (g q x (ground arith))) in
        elim (Result-cases result) [
          | inl (u, e) ↦ ground (arith, rest, same)
          | inr (u, e) ↦ ground (arith, same)
        ]

    remove_network_chains-tally :
        (complete : Bool) (q : Place) (x : String) (cs : List VarkChain) (t : T.State)
        → tally T L q x (for_each (remove_network_chain T B text complete) cs t).1 ≡ tally T L q x t
    unfolding for_each remove_network_chain
    remove_network_chains-tally complete q x [] t = refl
    remove_network_chains-tally complete q x (c ∷ cs) t = ground (
      arith,
      remove-tally T L complete q x c t,
      remove_network_chains-tally complete q x cs (remove_network_chain T B text complete c t).1,
    )

    module _ (complete : Bool) where
      abbrev tear : TearDownNetwork
      tear = record { config = config; complete_teardown = complete }

      teardown_subnet-tally :
          (q : Place) (x : String) (n : Subnet) (h : Host T B)
          → let (result, h') = teardown_subnet T B text tear interface n h in
            (tally T L q x h'.tables ≤ tally T L q x h.tables)
            × (is_ok result ≡ true
                → tally T L q x h.tables ≤ 1
                → tally T L q x h'.tables ≡ (
                    if drops complete (subnet_chains text config interface n) q x
                    then 0
                    else tally T L q x h.tables))
      unfolding teardown_subnet rm_firewalld_if_possible
      teardown_subnet-tally q x n h =
          let cs = subnet_chains text config interface n in
          ground (
            arith,
            remove_chains-tally T L complete q x cs h.tables,
            remove_network_chains-tally complete q x cs
                (for_each (remove_rules T complete) cs h.tables).1,
          )

      pub teardown_subnets-tally :
          (q : Place) (x : String) (ns : List Subnet) (h : Host T B)
          → let (result, h') = for_each (teardown_subnet T B text tear interface) ns h in
            (tally T L q x h'.tables ≤ tally T L q x h.tables)
            × (is_ok result ≡ true
                → tally T L q x h.tables ≤ 1
                → tally T L q x h'.tables ≡ (
                    if network_drops text config interface complete ns q x
                    then 0
                    else tally T L q x h.tables))
      unfolding for_each
      teardown_subnets-tally q x [] h = ground arith
      teardown_subnets-tally q x (n ∷ ns) h = ground (
        arith,
        teardown_subnet-tally q x n h,
        teardown_subnets-tally q x ns (teardown_subnet T B text tear interface n h).1,
      )
