-- ===== src/Firewall/PortChains.antt =====
-- `get_port_forwarding_chains` of `src/firewall/varktables/types.rs`. A port sum is a `u16` sum,
-- which wraps in a release build.
pub mod Spec
pub mod Ranges
use netavark.Prelude.{
  ℕ, ◌+◌, ◌-◌, ◌%◌, String, ◌<>◌, Bool, true, false, not, Option, none, some, List, [], ◌∷◌, ◌++◌,
  ok, err, map_ok, ltb, ◌==◌, str_eq, show_ℕ, if◌then◌else◌,
}
use netavark.Error.{NetavarkError, NetavarkResult, msg}
use netavark.Network.Types.{IpAddr, v4, v6, is_ipv6, IpNet, PortMapping}
use netavark.Network.Internal.{PortForwardConfig}
use netavark.Network.Text.{AddrText, is_unspecified}
use netavark.Firewall.Tables.{Conn}
use netavark.Firewall.Chain.{
  VarkRule, VarkChain, on_complete, never, new_rule, new_chain, build_rule,
}
use netavark.Firewall.NetworkChains.{nat, postrouting, masquerade}

abbrev pub prerouting : String
prerouting = "PREROUTING"

abbrev pub output : String
output = "OUTPUT"

abbrev pub netavark_hostport_dnat : String
netavark_hostport_dnat = "NETAVARK-HOSTPORT-DNAT"

abbrev pub netavark_hostport_setmark : String
netavark_hostport_setmark = "NETAVARK-HOSTPORT-SETMARK"

abbrev pub netavark_hostport_mask : String
netavark_hostport_mask = "NETAVARK-HOSTPORT-MASQ"

abbrev pub container_dn_chain : String
container_dn_chain = "NETAVARK-DN-"

abbrev pub hexmark : String
hexmark = "0x2000"

abbrev pub invalid_host_ip : PortMapping → NetavarkError
invalid_host_ip i =
    msg ("invalid host ip \"" <> (i.host_ip <> ("\" provided for port " <> show_ℕ i.host_port)))

abbrev pub u16_mod : ℕ
u16_mod = 65536

-- `port + (range - 1)` over `u16`.
unfoldable pub last_port : ℕ → ℕ → ℕ
last_port port range = (port + ((range + u16_mod - 1) % u16_mod)) % u16_mod

-- What the loop makes of a mapping's host address: the mapping is for the other family, it has
-- no address to match, or it has one; or the text is no address.
pub data HostIp : Type 0 where
  other_family any_address invalid : HostIp
  address : IpAddr → HostIp

-- `!=` on Booleans.
abbrev pub differ : Bool → Bool → Bool
differ true b = not b
differ false b = b

abbrev pub is_some {ℓ} : {A : Type ℓ} → Option A → Bool
is_some none = false
is_some (some _) = true

-- No mappings at all are treated as an empty list of them.
abbrev pub ports_of : Option (List PortMapping) → List PortMapping
ports_of none = []
ports_of (some ports) = ports

module _ (text : AddrText) (is_v6 : Bool) where
  unfoldable pub classify : IpAddr → HostIp
  classify (v4 n) =
      if is_v6
      then other_family
      else if not (is_unspecified (v4 n))
      then address (v4 n)
      else any_address
  classify (v6 n) =
      if not is_v6
      then other_family
      else if not (is_unspecified (v6 n))
      then address (v6 n)
      else any_address

  unfoldable pub get_host_ip : PortMapping → HostIp
  get_host_ip i =
      if str_eq i.host_ip ""
      then any_address
      else elim (text.parse_ip i.host_ip) [ none ↦ invalid | some ip ↦ classify ip ]

  -- ` -d HOST_IP`, where the mapping has an address.
  abbrev pub with_host_ip : Option IpAddr → String → String
  with_host_ip none rule = rule
  with_host_ip (some host_ip) rule = rule <> (" -d " <> text.show_ip host_ip)

  -- An IPv6 address stands in brackets in front of a port.
  abbrev pub bracketed : IpAddr → String
  bracketed ip = if is_v6 then "[" <> (text.show_ip ip <> "]") else text.show_ip ip

  -- The rule that sends queries for the DNS port to the port that aardvark-dns listens on.
  abbrev pub dns_rule : ℕ → IpAddr → VarkRule
  dns_rule dns_port dns_ip =
      new_rule
        ("-j "
          <> ("DNAT"
              <> (" -d "
                  <> (text.show_ip dns_ip
                      <> (" -p "
                          <> ("udp"
                              <> (" --dport "
                                  <> (show_ℕ 53
                                      <> (" --to-destination "
                                          <> (bracketed dns_ip <> (":" <> show_ℕ dns_port)))))))))))
        (some on_complete)

  -- The loop over the DNS servers.
  unfoldable pub add_dns_rules : ℕ → List IpAddr → VarkChain → VarkChain
  add_dns_rules dns_port [] chain = chain
  add_dns_rules dns_port (dns_ip ∷ ips) chain = add_dns_rules dns_port ips (
      if differ is_v6 (is_ipv6 dns_ip)
      then chain
      else build_rule (record chain { create = true }) (dns_rule dns_port dns_ip))

  abbrev pub is_range : PortMapping → Bool
  is_range i = ltb 1 i.range

  abbrev pub host_ports : PortMapping → String
  host_ports i =
      if is_range i
      then show_ℕ i.host_port <> (":" <> show_ℕ (last_port i.host_port i.range))
      else show_ℕ i.host_port

  abbrev pub container_ports : PortMapping → String
  container_ports i =
      if is_range i
      then show_ℕ i.container_port
        <> ("-" <> (show_ℕ (last_port i.container_port i.range) <> ("/" <> show_ℕ i.host_port)))
      else show_ℕ i.container_port

  abbrev pub comment_dn_network_cid : PortForwardConfig → String
  comment_dn_network_cid pfwd =
      "-m comment --comment 'dnat name: "
      <> (pfwd.network_name <> (" id: " <> (pfwd.container_id <> "'")))

  abbrev pub network_dn_chain_name : PortForwardConfig → String
  network_dn_chain_name pfwd = container_dn_chain <> pfwd.network_hash_name

  -- The jump from the host port chain to the chain of the network.
  abbrev pub hostport_rule : PortForwardConfig → PortMapping → VarkRule
  hostport_rule pfwd i =
      new_rule
        ("-j "
          <> (network_dn_chain_name pfwd
              <> (" -p "
                  <> (i.protocol
                      <> (" --dport " <> (host_ports i <> (" " <> comment_dn_network_cid pfwd)))))))
        none

  abbrev pub setmark_rule : String → Option IpAddr → PortMapping → VarkRule
  setmark_rule source host_ip i =
      new_rule
        (with_host_ip host_ip (
          "-j "
          <> (netavark_hostport_setmark
              <> (" -s "
                  <> (source <> (" -p " <> (i.protocol <> (" --dport " <> host_ports i))))))))
        none

  abbrev pub dnat_rule : IpAddr → Option IpAddr → PortMapping → VarkRule
  dnat_rule container_ip host_ip i =
      new_rule
        (with_host_ip host_ip (
          "-j "
          <> ("DNAT"
              <> (" -p "
                  <> (i.protocol
                      <> (" --to-destination "
                          <> (bracketed container_ip
                              <> (":"
                                  <> (container_ports i
                                      <> (" --destination-port " <> host_ports i))))))))))
        none

  abbrev pub localhost_ip : String
  localhost_ip = if is_v6 then "::1" else "127.0.0.1"

  module _ (pfwd : PortForwardConfig) (container_ip : IpAddr) (network_address : IpNet) where
    -- The body of the loop over the port mappings, on the chain of the host ports and the chain
    -- of the network, once the host address is known.
    abbrev pub map_port :
        Option IpAddr → PortMapping → VarkChain × VarkChain → VarkChain × VarkChain
    map_port host_ip i (hostport_dn, hashed_dn) = (
      build_rule hostport_dn (hostport_rule pfwd i),
      build_rule
          (build_rule
            (build_rule hashed_dn (setmark_rule (text.show_net network_address) host_ip i))
            (setmark_rule localhost_ip host_ip i))
          (dnat_rule container_ip host_ip i),
    )

    unfoldable pub map_ports :
        List PortMapping → VarkChain × VarkChain → NetavarkResult (VarkChain × VarkChain)
    map_ports [] chains = ok chains
    map_ports (i ∷ ports) chains = elim (get_host_ip i) [
      | other_family ↦ map_ports ports chains
      | any_address ↦ map_ports ports (map_port none i chains)
      | invalid ↦ err (invalid_host_ip i)
      | address ip ↦ map_ports ports (map_port (some ip) i chains)
    ]

abbrev pub local_rule : VarkRule
local_rule =
    new_rule ("-j " <> (netavark_hostport_dnat <> " -m addrtype --dst-type LOCAL")) (some never)

-- The chains that stand in front, whatever the mappings are.
abbrev pub hostport_chains : Conn → List VarkChain
hostport_chains driver =
    build_rule (record (new_chain driver nat netavark_hostport_setmark none) { create = true })
      (new_rule ("-j " <> ("MARK" <> ("  --set-xmark " <> (hexmark <> ("/" <> hexmark)))))
        (some never))
    ∷ build_rule (record (new_chain driver nat netavark_hostport_mask none) { create = true })
        (new_rule
          ("-j "
            <> (masquerade
                <> (" -m comment --comment 'netavark portfw masq mark' -m mark --mark "
                    <> (hexmark <> ("/" <> hexmark)))))
          (some never))
    ∷ build_rule (new_chain driver nat postrouting none) (record {
      rule = "-j " <> (netavark_hostport_mask <> " ");
      td_policy = some never;
      position = some 1;
    })
    ∷ []

-- The chain of the host ports, with the rules for DNS.
unfoldable pub hostport_dn_chain : AddrText → Conn → PortForwardConfig → Bool → VarkChain
hostport_dn_chain text driver pfwd is_v6 =
    let chain : VarkChain = record (new_chain driver nat netavark_hostport_dnat none) {
      create = true;
    } in
    if pfwd.dns_port == 53
    then chain
    else add_dns_rules text is_v6 pfwd.dns_port pfwd.dns_server_ips chain

abbrev pub hashed_dn_chain : Conn → PortForwardConfig → VarkChain
hashed_dn_chain driver pfwd =
    let chain : VarkChain =
      new_chain driver nat (container_dn_chain <> pfwd.network_hash_name) (some on_complete) in
    record chain { create = is_some pfwd.port_mappings }

-- The chains in the order in which they are pushed.
abbrev pub all_chains : Conn → VarkChain × VarkChain → List VarkChain
all_chains driver (hostport, hashed) =
    hostport_chains driver
    ++ (hashed
        ∷ hostport
        ∷ build_rule (new_chain driver nat prerouting none) local_rule
        ∷ build_rule (new_chain driver nat output none) local_rule
        ∷ [])

unfoldable pub get_port_forwarding_chains :
    AddrText → Conn → PortForwardConfig → IpAddr → IpNet → Bool → NetavarkResult (List VarkChain)
get_port_forwarding_chains text driver pfwd container_ip network_address is_v6 =
    map_ok (all_chains driver) (
      map_ports text is_v6 pfwd container_ip network_address (ports_of pfwd.port_mappings)
        (hostport_dn_chain text driver pfwd is_v6, hashed_dn_chain driver pfwd))
