-- ===== src/Firewall/PortChains/Spec.antt =====
-- About the chains that forward the ports of a container: which mappings they hold.
use netavark.Prelude.{
  ℕ, ◌≡◌, refl, ◌∙◌, Bool, true, false, Option, none, some, List, [], ◌∷◌, ◌++◌, ok, err, inl, inr,
  ◌==◌, str_eq, arith, if◌then◌else◌, Bool-cases, Option-cases,
}
use mathlib.Core.List.{append-nil, append_assoc}
use netavark.Error.{NetavarkResult}
use netavark.Network.Types.{IpAddr, v4, v6, is_ipv6, IpNet, PortMapping}
use netavark.Network.Internal.{PortForwardConfig}
use netavark.Network.Text.{AddrText, is_unspecified}
use netavark.Firewall.Tables.{Conn}
use netavark.Firewall.Chain.{VarkRule, VarkChain, new_chain, build_rule}
use netavark.Firewall.NetworkChains.{nat}
use netavark.Firewall.PortChains.{
  netavark_hostport_dnat, invalid_host_ip, HostIp, other_family, any_address, invalid, address,
  classify, get_host_ip, differ, ports_of, dns_rule, add_dns_rules, localhost_ip, hostport_rule,
  setmark_rule, dnat_rule, map_port, map_ports, hostport_dn_chain, hashed_dn_chain, all_chains,
  get_port_forwarding_chains,
}

module _ (text : AddrText) (is_v6 : Bool) where
  -- The first mapping with a host address that is no address.
  unfoldable pub first_invalid : List PortMapping → Option PortMapping
  first_invalid [] = none
  first_invalid (i ∷ ports) =
      if str_eq i.host_ip ""
      then first_invalid ports
      else elim (text.parse_ip i.host_ip) [ none ↦ some i | some _ ↦ first_invalid ports ]

  -- The address to match, where it is of the family and not 0.0.0.0 or ::.
  abbrev pub match_address : IpAddr → Option IpAddr
  match_address ip = if is_unspecified ip then none else some ip

  -- The mappings that the family is to forward, with the host addresses to match.
  unfoldable pub forwarded : List PortMapping → List (Option IpAddr × PortMapping)
  forwarded [] = []
  forwarded (i ∷ ports) =
      if str_eq i.host_ip "" then (none, i) ∷ forwarded ports else elim (text.parse_ip i.host_ip) [
        | none ↦ forwarded ports
        | some ip ↦
            if differ is_v6 (is_ipv6 ip)
            then forwarded ports
            else (match_address ip, i) ∷ forwarded ports
      ]

  -- One rule for each DNS server of the family.
  abbrev pub dns_rules : ℕ → List IpAddr → List VarkRule
  dns_rules dns_port [] = []
  dns_rules dns_port (ip ∷ ips) =
      if differ is_v6 (is_ipv6 ip)
      then dns_rules dns_port ips
      else dns_rule text is_v6 dns_port ip ∷ dns_rules dns_port ips

  add_dns_rules-rules :
      (dns_port : ℕ) (ips : List IpAddr) (c : VarkChain)
      → c.create ≡ true
      → add_dns_rules text is_v6 dns_port ips c
        ≡ record c { rules = c.rules ++ dns_rules dns_port ips }
  unfolding add_dns_rules
  add_dns_rules-rules dns_port [] c h = rw (append-nil c.rules)
  add_dns_rules-rules dns_port (ip ∷ ips) c h = elim (Bool-cases (differ is_v6 (is_ipv6 ip))) [
    | inl e ↦ rw e (add_dns_rules-rules dns_port ips c h)
    | inr e ↦ rw e (
        add_dns_rules-rules dns_port ips
          (build_rule (record c { create = true }) (dns_rule text is_v6 dns_port ip)) refl
        ∙ ground (
          arith,
          append_assoc c.rules (dns_rule text is_v6 dns_port ip ∷ []) (dns_rules dns_port ips),
        ))
  ]

  -- What the loop decides of a mapping, beside the two descriptions of it.
  abbrev Decides : HostIp → PortMapping → List PortMapping → Type 0
  Decides invalid i ports = first_invalid (i ∷ ports) ≡ some i
  Decides other_family i ports =
      (first_invalid (i ∷ ports) ≡ first_invalid ports) × (forwarded (i ∷ ports) ≡ forwarded ports)
  Decides any_address i ports =
      (first_invalid (i ∷ ports) ≡ first_invalid ports)
      × (forwarded (i ∷ ports) ≡ (none, i) ∷ forwarded ports)
  Decides (address ip) i ports =
      (first_invalid (i ∷ ports) ≡ first_invalid ports)
      × (forwarded (i ∷ ports) ≡ (some ip, i) ∷ forwarded ports)

  classify-Decides :
      (ip : IpAddr) (i : PortMapping) (ports : List PortMapping)
      → str_eq i.host_ip "" ≡ false
      → text.parse_ip i.host_ip ≡ some ip
      → Decides (classify text is_v6 ip) i ports
  unfolding classify first_invalid forwarded
  classify-Decides (v4 n) i ports h e = elim (Bool-cases is_v6) [
    | inl a ↦ rw (a, h, e) (ground arith)
    | inr a ↦ elim (Bool-cases (n == 0)) [
      | inl b ↦ rw (a, b, h, e) (ground arith)
      | inr b ↦ rw (a, b, h, e) (ground arith)
    ]
  ]
  classify-Decides (v6 n) i ports h e = elim (Bool-cases is_v6) [
    | inl a ↦ elim (Bool-cases (n == 0)) [
      | inl b ↦ rw (a, b, h, e) (ground arith)
      | inr b ↦ rw (a, b, h, e) (ground arith)
    ]
    | inr a ↦ rw (a, h, e) (ground arith)
  ]

  get_host_ip-Decides :
      (i : PortMapping) (ports : List PortMapping) → Decides (get_host_ip text is_v6 i) i ports
  unfolding get_host_ip first_invalid forwarded
  get_host_ip-Decides i ports = elim (Bool-cases (str_eq i.host_ip "")) [
    | inl h ↦ rw h (ground arith)
    | inr h ↦ rw h (elim (Option-cases (text.parse_ip i.host_ip)) [
      | inl e ↦ rw e (ground arith)
      | inr (ip, e) ↦ rw e (classify-Decides ip i ports h e)
    ])
  ]

  module _ (pfwd : PortForwardConfig) (container_ip : IpAddr) (network_address : IpNet) where
    -- The jumps to the network's chain, one for each mapping.
    abbrev pub hostport_rules : List (Option IpAddr × PortMapping) → List VarkRule
    hostport_rules [] = []
    hostport_rules ((host_ip, i) ∷ ports) = hostport_rule text is_v6 pfwd i ∷ hostport_rules ports

    -- The rules of the network's chain, three for each mapping.
    abbrev pub port_rules : List (Option IpAddr × PortMapping) → List VarkRule
    port_rules [] = []
    port_rules ((host_ip, i) ∷ ports) =
        setmark_rule text is_v6 (text.show_net network_address) host_ip i
        ∷ setmark_rule text is_v6 (localhost_ip text is_v6) host_ip i
        ∷ dnat_rule text is_v6 container_ip host_ip i
        ∷ port_rules ports

    abbrev mapped :
        VarkChain × VarkChain → List (Option IpAddr × PortMapping) → VarkChain × VarkChain
    mapped (hostport, hashed) ports = (
      record hostport { rules = hostport.rules ++ hostport_rules ports },
      record hashed { rules = hashed.rules ++ port_rules ports },
    )

    abbrev Mapping :
        Option PortMapping → (VarkChain × VarkChain) → NetavarkResult (VarkChain × VarkChain)
    Mapping none chains = ok chains
    Mapping (some i) chains = err (invalid_host_ip i)

    mapped-map_port :
        (host_ip : Option IpAddr) (i : PortMapping) (chains : VarkChain × VarkChain)
        (ports : List (Option IpAddr × PortMapping))
        → mapped (map_port text is_v6 pfwd container_ip network_address host_ip i chains) ports
          ≡ mapped chains ((host_ip, i) ∷ ports)
    mapped-map_port host_ip i (a, b) ports = simp append_assoc

    map_ports-step :
        (k : HostIp) (i : PortMapping) (ports : List PortMapping) (chains : VarkChain × VarkChain)
        → get_host_ip text is_v6 i ≡ k
        → Decides k i ports
        → ((chains' : VarkChain × VarkChain)
            → map_ports text is_v6 pfwd container_ip network_address ports chains'
              ≡ Mapping (first_invalid ports) (mapped chains' (forwarded ports)))
        → map_ports text is_v6 pfwd container_ip network_address (i ∷ ports) chains
          ≡ Mapping (first_invalid (i ∷ ports)) (mapped chains (forwarded (i ∷ ports)))
    unfolding map_ports
    map_ports-step invalid i ports chains e d ih = rw (e, map_ports, d) refl
    map_ports-step other_family i ports chains e d ih = rw (e, map_ports, d.0, d.1) (ih chains)
    map_ports-step any_address i ports chains e d ih =
        rw (e, map_ports, d.0, d.1, ← mapped-map_port none i chains (forwarded ports)) (ih _)
    map_ports-step (address ip) i ports chains e d ih =
        rw (e, map_ports, d.0, d.1, ← mapped-map_port (some ip) i chains (forwarded ports)) (ih _)

    map_ports_lem :
        (ports : List PortMapping) (chains : VarkChain × VarkChain)
        → map_ports text is_v6 pfwd container_ip network_address ports chains
          ≡ Mapping (first_invalid ports) (mapped chains (forwarded ports))
    unfolding map_ports first_invalid forwarded
    map_ports_lem [] (a, b) = simp append-nil
    map_ports_lem (i ∷ ports) chains =
        map_ports-step (get_host_ip text is_v6 i) i ports chains refl (get_host_ip-Decides i ports)
          (map_ports_lem ports)

-- The chain of the host ports, and the chain of the network, with all their rules.
abbrev pub hostport_spec : AddrText → Conn → PortForwardConfig → IpAddr → IpNet → Bool → VarkChain
hostport_spec text driver pfwd ip net is_v6 =
    let dns : List VarkRule =
      if pfwd.dns_port == 53 then [] else dns_rules text is_v6 pfwd.dns_port pfwd.dns_server_ips in
    record (new_chain driver nat netavark_hostport_dnat none) {
      create = true;
      rules =
          dns
          ++ hostport_rules text is_v6 pfwd ip net
              (forwarded text is_v6 (ports_of pfwd.port_mappings));
    }

abbrev pub hashed_spec : AddrText → Conn → PortForwardConfig → IpAddr → IpNet → Bool → VarkChain
hashed_spec text driver pfwd ip net is_v6 = record (hashed_dn_chain driver pfwd) {
  rules = port_rules text is_v6 pfwd ip net (forwarded text is_v6 (ports_of pfwd.port_mappings));
}

hostport_dn_chain-rules :
    (text : AddrText) (driver : Conn) (pfwd : PortForwardConfig) (is_v6 : Bool)
    → hostport_dn_chain text driver pfwd is_v6
      ≡ record (new_chain driver nat netavark_hostport_dnat none) {
        create = true;
        rules =
            if pfwd.dns_port == 53
            then []
            else dns_rules text is_v6 pfwd.dns_port pfwd.dns_server_ips;
      }
unfolding hostport_dn_chain
hostport_dn_chain-rules text driver pfwd is_v6 = ground (
  arith,
  add_dns_rules-rules text is_v6 pfwd.dns_port pfwd.dns_server_ips
      (record (new_chain driver nat netavark_hostport_dnat none) { create = true }) refl,
)

-- The chains of a container's ports. The first mapping whose host address is given and is no
-- address makes the whole an error. Otherwise there is, in the order of the mappings, for each
-- that is not for the other family a jump to the network's chain and three rules in that chain,
-- and, unless DNS is on port 53, a rule for each DNS server of the family in front of the jumps.
pub get_port_forwarding_chains_lem :
    (text : AddrText) (driver : Conn) (pfwd : PortForwardConfig) (ip : IpAddr) (net : IpNet)
    (is_v6 : Bool)
    → get_port_forwarding_chains text driver pfwd ip net is_v6
      ≡ (elim (first_invalid text is_v6 (ports_of pfwd.port_mappings)) [
        | none ↦ ok (
            all_chains driver (
              hostport_spec text driver pfwd ip net is_v6,
              hashed_spec text driver pfwd ip net is_v6,
            ))
        | some i ↦ err (invalid_host_ip i)
      ])
unfolding get_port_forwarding_chains
get_port_forwarding_chains_lem text driver pfwd ip net is_v6 =
    rw
      (
        hostport_dn_chain-rules,
        map_ports_lem text is_v6 pfwd ip net (ports_of pfwd.port_mappings) _,
      )
      (elim (Option-cases (first_invalid text is_v6 (ports_of pfwd.port_mappings))) [
        | inl e ↦ rw e refl
        | inr (i, e) ↦ rw e refl
      ])
