-- ===== src/Firewall/NetworkChains.antt =====
-- `get_network_chains` of `src/firewall/varktables/types.rs`, with the names of the chains.
pub mod Order
use netavark.Prelude.{ℕ, String, ◌<>◌, Bool, true, none, some, List, [], ◌∷◌, ◌++◌, if◌then◌else◌}
use netavark.Network.Types.{IpNet}
use netavark.Network.Text.{AddrText}
use netavark.Firewall.Tables.{Conn}
use netavark.Firewall.Chain.{
  VarkRule, VarkChain, on_complete, never, new_rule, new_chain, build_rule,
}

abbrev pub nat : String
nat = "nat"

abbrev pub filter : String
filter = "filter"

abbrev pub postrouting : String
postrouting = "POSTROUTING"

abbrev pub forward : String
forward = "FORWARD"

abbrev pub accept : String
accept = "ACCEPT"

abbrev pub masquerade : String
masquerade = "MASQUERADE"

abbrev pub netavark_forward : String
netavark_forward = "NETAVARK_FORWARD"

abbrev pub netavark_isolation_1 : String
netavark_isolation_1 = "NETAVARK_ISOLATION_1"

abbrev pub netavark_isolation_2 : String
netavark_isolation_2 = "NETAVARK_ISOLATION_2"

abbrev pub multicast_net_v4 : String
multicast_net_v4 = "224.0.0.0/4"

abbrev pub multicast_net_v6 : String
multicast_net_v6 = "ff00::/8"

-- The chain of a network, in the table `nat`.
abbrev pub prefixed_network_hash_name : String → String
prefixed_network_hash_name network_hash_name = "NETAVARK-" <> network_hash_name

module _ (text : AddrText) (conn : Conn) where
  -- NETAVARK-HASH
  abbrev pub hashed_network_chain : IpNet → String → Bool → VarkChain
  hashed_network_chain network network_hash_name is_ipv6 =
      let chain =
        new_chain conn nat (prefixed_network_hash_name network_hash_name) (some on_complete) in
      let multicast_dest = if is_ipv6 then multicast_net_v6 else multicast_net_v4 in
      build_rule
        (build_rule (record chain { create = true })
          (new_rule ("-d " <> (text.show_net network <> (" -j " <> accept))) (some on_complete)))
        (new_rule ("! -d " <> (multicast_dest <> (" -j " <> masquerade))) (some on_complete))

  -- POSTROUTING
  abbrev pub postrouting_chain : IpNet → String → VarkChain
  postrouting_chain network network_hash_name = build_rule (new_chain conn nat postrouting none) (
      new_rule
        ("-s "
          <> (text.show_net network <> (" -j " <> prefixed_network_hash_name network_hash_name)))
        (some on_complete))

  abbrev pub isolation_forward_rule : ℕ → VarkRule
  isolation_forward_rule ind = record {
    rule = "-j " <> netavark_isolation_1;
    td_policy = some on_complete;
    position = some ind;
  }

  abbrev pub isolation_chain_1 : String → ℕ → VarkChain
  isolation_chain_1 interface_name ind =
      build_rule (record (new_chain conn filter netavark_isolation_1 none) { create = true })
        (record {
          rule =
              "-i "
              <> (interface_name
                  <> (" ! -o " <> (interface_name <> (" -j " <> netavark_isolation_2))));
          td_policy = some on_complete;
          position = some ind;
        })

  abbrev pub isolation_chain_2 : String → ℕ → VarkChain
  isolation_chain_2 interface_name ind =
      build_rule (record (new_chain conn filter netavark_isolation_2 none) { create = true })
        (record {
          rule = "-o " <> (interface_name <> (" -j " <> "DROP"));
          td_policy = some on_complete;
          position = some ind;
        })

  abbrev pub forward_rule : ℕ → VarkRule
  forward_rule ind = record {
    rule = "-m comment --comment 'netavark firewall plugin rules' -j " <> netavark_forward;
    td_policy = some never;
    position = some ind;
  }

  -- NETAVARK_FORWARD
  abbrev pub netavark_forward_chain : IpNet → VarkChain
  netavark_forward_chain network =
      build_rule
        (build_rule (record (new_chain conn filter netavark_forward none) { create = true })
          (new_rule
            ("-d "
              <> (text.show_net network <> " -m conntrack --ctstate RELATED,ESTABLISHED -j ACCEPT"))
            (some on_complete)))
        (new_rule ("-s " <> (text.show_net network <> " -j ACCEPT")) (some on_complete))

  -- `ind` is 1, and 2 behind the rule of an isolated network.
  unfoldable pub get_network_chains : IpNet → String → Bool → String → Bool → List VarkChain
  get_network_chains network network_hash_name is_ipv6 interface_name isolation =
      let chains =
        hashed_network_chain network network_hash_name is_ipv6
        ∷ postrouting_chain network network_hash_name
        ∷ [] in
      let forward_chain = new_chain conn filter forward none in
      if isolation
      then chains
        ++ (isolation_chain_1 interface_name 1
            ∷ isolation_chain_2 interface_name 1
            ∷ build_rule (build_rule forward_chain (isolation_forward_rule 1)) (forward_rule 2)
            ∷ netavark_forward_chain network
            ∷ [])
      else chains
        ++ (build_rule forward_chain (forward_rule 1) ∷ netavark_forward_chain network ∷ [])
