-- ===== src/Firewall/Driver/Ports.antt =====
-- About the ports of one container: their setup, and their teardown while the network stays.
use netavark.Prelude.{
  ℕ, ◌≤◌, String, ◌≡◌, refl, ap, Bool, true, false, ◌&&◌, ◌||◌, Option, some, List, [], ◌∷◌, ◌++◌,
  ok, is_ok, ◌==◌, str_eq, inl, inr, arith, if◌then◌else◌, Option-cases,
}
use netavark.Error.{NetavarkError, NetavarkResult}
use netavark.Action.{for_each}
use netavark.Network.Types.{IpAddr, IpNet, PortMapping}
use netavark.Network.Internal.{PortForwardConfig, TeardownPortForward}
use netavark.Network.Text.{AddrText}
use netavark.Firewall.Tables.{Place, same_place, Iptables, IsLawful}
use netavark.Firewall.Tables.Counts.{tally}
use netavark.Firewall.Bus.{Bus}
use netavark.Firewall.Chain.{VarkRule, VarkChain, remove_rules}
use netavark.Firewall.Chain.Setup.{has_rule, wants, at_least_once, create_network_chains-tally}
use netavark.Firewall.Chain.Teardown.{drops_rule, drops, remove_chains-tally}
use netavark.Firewall.PortChains.{ports_of, hostport_rule, all_chains}
use netavark.Firewall.PortChains.Spec.{
  first_invalid, forwarded, dns_rules, hostport_rules, port_rules, hostport_spec, hashed_spec,
  get_port_forwarding_chains_lem,
}
use netavark.Firewall.Driver.{connection, setup_family, remove_port_chain, teardown_family}

has_rule-append :
    (x : String) (rs ss : List VarkRule) → has_rule x (rs ++ ss) ≡ (has_rule x rs || has_rule x ss)
has_rule-append x [] ss = refl
has_rule-append x (r ∷ rs) ss = ground (arith, has_rule-append x rs ss)

drops_rule-append :
    (complete : Bool) (x : String) (rs ss : List VarkRule)
    → drops_rule complete x (rs ++ ss) ≡ (drops_rule complete x rs || drops_rule complete x ss)
drops_rule-append complete x [] ss = refl
drops_rule-append complete x (r ∷ rs) ss = ground (arith, drops_rule-append complete x rs ss)

at_least_once-le : (b : Bool) (n : ℕ) → n ≤ 1 → at_least_once b n ≤ 1
at_least_once-le true n h = omega arith
at_least_once-le false n h = h

module _ (text : AddrText) (is_v6 : Bool) where
  -- The rules for DNS stay as long as the network.
  dns_rules-kept :
      (x : String) (dns_port : ℕ) (ips : List IpAddr)
      → drops_rule false x (dns_rules text is_v6 dns_port ips) ≡ false
  dns_rules-kept x dns_port [] = refl
  dns_rules-kept x dns_port (ip ∷ ips) = ground (arith, dns_rules-kept x dns_port ips)

  module _ (pfwd : PortForwardConfig) (ip : IpAddr) (net : IpNet) where
    hostport_rules-dropped :
        (complete : Bool) (x : String) (ports : List (Option IpAddr × PortMapping))
        → drops_rule complete x (hostport_rules text is_v6 pfwd ip net ports)
          ≡ has_rule x (hostport_rules text is_v6 pfwd ip net ports)
    hostport_rules-dropped complete x [] = refl
    hostport_rules-dropped complete x ((h, i) ∷ ports) =
        ap (λ b. str_eq (hostport_rule text is_v6 pfwd i).rule x || b)
          (hostport_rules-dropped complete x ports)

    port_rules-dropped :
        (complete : Bool) (x : String) (ports : List (Option IpAddr × PortMapping))
        → drops_rule complete x (port_rules text is_v6 pfwd ip net ports)
          ≡ has_rule x (port_rules text is_v6 pfwd ip net ports)
    port_rules-dropped complete x [] = refl
    port_rules-dropped complete x ((h, i) ∷ ports) = rw (port_rules-dropped complete x ports) refl

    -- Whether a rule at a place is one for a port of the container.
    abbrev pub is_port_rule : Place → String → Bool
    is_port_rule q x =
        let driver = connection is_v6 in
        let ports = forwarded text is_v6 (ports_of pfwd.port_mappings) in
        (same_place (hashed_spec text driver pfwd ip net is_v6).place q
          && has_rule x (port_rules text is_v6 pfwd ip net ports))
        || (same_place (hostport_spec text driver pfwd ip net is_v6).place q
            && has_rule x (hostport_rules text is_v6 pfwd ip net ports))

    all_chains-dropped :
        (q : Place) (x : String)
        → drops false
            (all_chains (connection is_v6) (
              hostport_spec text (connection is_v6) pfwd ip net is_v6,
              hashed_spec text (connection is_v6) pfwd ip net is_v6,
            ))
            q
            x
          ≡ is_port_rule q x
    all_chains-dropped q x =
        let ports = forwarded text is_v6 (ports_of pfwd.port_mappings) in
        let dns : List VarkRule =
          if pfwd.dns_port == 53
          then []
          else dns_rules text is_v6 pfwd.dns_port pfwd.dns_server_ips in
        ground (
          arith,
          drops_rule-append false x dns (hostport_rules text is_v6 pfwd ip net ports),
          dns_rules-kept x pfwd.dns_port pfwd.dns_server_ips,
          hostport_rules-dropped false x ports,
          port_rules-dropped false x ports,
        )

module _ (T : Iptables) (L : IsLawful T) (B : Bus) (text : AddrText) (is_v6 : Bool)
    (no_subnet : NetavarkError) (config : PortForwardConfig) (ip : IpAddr) (net : IpNet) (q : Place)
    (x : String) where
  abbrev chains : List VarkChain
  chains = all_chains (connection is_v6) (
    hostport_spec text (connection is_v6) config ip net is_v6,
    hashed_spec text (connection is_v6) config ip net is_v6,
  )

  setup_family-tally :
      (s : T.State)
      → let (result, s') = setup_family T B text config is_v6 no_subnet (some ip) (some net) s in
        is_ok result ≡ true → tally T L q x s' ≡ at_least_once (wants chains q x) (tally T L q x s)
  unfolding setup_family
  setup_family-tally s =
      rw (get_port_forwarding_chains_lem text (connection is_v6) config ip net is_v6)
        (elim (Option-cases (first_invalid text is_v6 (ports_of config.port_mappings))) [
          | inl e ↦ rw e (λ h. (create_network_chains-tally T L q x chains s).1 h)
          | inr (i, e) ↦ rw e (λ h. cc)
        ])

  remove_port_chains_kept :
      (cs : List VarkChain) (s : T.State)
      → for_each (remove_port_chain T B text false) cs s ≡ (ok tt, s)
  unfolding for_each remove_port_chain
  remove_port_chains_kept [] s = refl
  remove_port_chains_kept (c ∷ cs) s = remove_port_chains_kept cs s

  teardown_family-tally :
      (s : T.State)
      → let tear : TeardownPortForward = record { config = config; complete_teardown = false } in
        let (result, s') = teardown_family T B text tear is_v6 no_subnet (some ip) (some net) s in
        is_ok result ≡ true
        → tally T L q x s ≤ 1
        → tally T L q x s'
          ≡ (if is_port_rule text is_v6 config ip net q x then 0 else tally T L q x s)
  unfolding teardown_family
  teardown_family-tally s =
      rw (get_port_forwarding_chains_lem text (connection is_v6) config ip net is_v6)
        (elim (Option-cases (first_invalid text is_v6 (ports_of config.port_mappings))) [
          | inl e ↦ rw e (λ h once. ground (
            arith,
            remove_chains-tally T L false q x chains s,
            remove_port_chains_kept chains (for_each (remove_rules T false) chains s).1,
            all_chains-dropped text is_v6 config ip net q x,
          ))
          | inr (i, e) ↦ rw e (λ h. cc)
        ])

  abbrev set_up : T.State → NetavarkResult Unit × T.State
  set_up = setup_family T B text config is_v6 no_subnet (some ip) (some net)

  abbrev tear_down : T.State → NetavarkResult Unit × T.State
  tear_down =
      teardown_family T B text (record { config = config; complete_teardown = false }) is_v6
        no_subnet (some ip) (some net)

  -- The ports of a container, for one of its addresses and that address's subnet, are set up, and
  -- taken down again while the network stays, both with success; a rule stood in its chain at most
  -- once before. Then the rules for the ports of the container are gone, also one that was there
  -- before, and any other rule that the setup put in stays in, once if it was new; a rule of
  -- neither kind stands where it stood.
  pub port_cycle :
      (s : T.State)
      → tally T L q x s ≤ 1
      → is_ok (set_up s).0 ≡ true
      → is_ok (tear_down (set_up s).1).0 ≡ true
      → tally T L q x (tear_down (set_up s).1).1 ≡ (
          if is_port_rule text is_v6 config ip net q x
          then 0
          else at_least_once (wants chains q x) (tally T L q x s))
  port_cycle s once done gone =
      let first = setup_family-tally s done in
      rw (← first) (teardown_family-tally (set_up s).1 gone (rw first (at_least_once-le _ _ once)))
