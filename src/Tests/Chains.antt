-- ===== src/Tests/Chains.antt =====
-- Chains of rules in the tables, at concrete inputs.
use netavark.Prelude.{◌≡◌, refl, true, false, some, [], ◌∷◌, show_ℕ, arith}
use netavark.Firewall.Tables.{Place, conn}
use netavark.Firewall.Tables.Counts.{tally}
use netavark.Firewall.Tables.Memory.{Memory, memory_tables, memory_tables-IsLawful}
use netavark.Action.{for_each}
use netavark.Firewall.Helpers.{append_unique, add_chain_unique, chain_exists, remove_if_rule_exists}
use netavark.Firewall.Chain.{
  VarkChain, new_chain, new_rule, on_complete, never, add_rule, add_rules, create_chain,
  create_network_chains, remove_rules, remove_rule, remove,
}
use netavark.Firewall.Chain.Setup.{create_network_chains_lem}
use netavark.Firewall.Chain.Made.{create_network_chains-has_chain}
use netavark.Firewall.Chain.Teardown.{remove_chains_lem}
use netavark.Firewall.NetworkChains.{get_network_chains}
use netavark.Firewall.NetworkChains.Order.{get_network_chains_order, forward_jump, isolation_jump}
use netavark.Firewall.Driver.{subnet_chains}
use netavark.Tests.Data.{text, podman_net, docker_tables}

abbrev forward_chain : Place
forward_chain = record { driver = conn; table = "filter"; chain = "FORWARD" }

abbrev chain_a : VarkChain
chain_a = record (new_chain conn "filter" "A" (some on_complete)) {
  create = true;
  rules = new_rule "-j ACCEPT" (some on_complete) ∷ new_rule "-j DROP" (some never) ∷ [];
}

abbrev set_up : Memory
set_up = (create_network_chains memory_tables (chain_a ∷ []) docker_tables).1

create_network_chains_lem_example :
    tally memory_tables memory_tables-IsLawful chain_a.place "-j DROP" set_up ≡ 1
unfolding for_each add_rule add_rules create_chain create_network_chains append_unique
    add_chain_unique chain_exists get_network_chains subnet_chains show_ℕ
create_network_chains_lem_example =
    create_network_chains_lem memory_tables memory_tables-IsLawful chain_a.place "-j DROP"
      (chain_a ∷ []) docker_tables refl

create_network_chains-has_chain_example :
    memory_tables-IsLawful.has_chain set_up chain_a.place ≡ true
unfolding for_each add_rule add_rules create_chain create_network_chains append_unique
    add_chain_unique chain_exists get_network_chains subnet_chains show_ℕ
create_network_chains-has_chain_example =
    create_network_chains-has_chain memory_tables memory_tables-IsLawful chain_a.place
      (chain_a ∷ []) docker_tables refl

remove_chains_lem_example :
    tally memory_tables memory_tables-IsLawful chain_a.place "-j ACCEPT"
      (for_each (remove_rules memory_tables true) (chain_a ∷ []) set_up).1
    ≡ 0
unfolding for_each add_rule add_rules create_chain create_network_chains append_unique
    add_chain_unique chain_exists get_network_chains subnet_chains show_ℕ remove remove_rules
    remove_rule remove_if_rule_exists
remove_chains_lem_example =
    remove_chains_lem memory_tables memory_tables-IsLawful true chain_a.place "-j ACCEPT"
      (chain_a ∷ []) set_up refl (ground arith)

get_network_chains_order_example :
    memory_tables-IsLawful.rules
      (create_network_chains memory_tables
        (get_network_chains text conn podman_net "1D8721804F16F" false "podman0" true)
        docker_tables).1
      forward_chain
    ≡ isolation_jump ∷ forward_jump ∷ "-j DOCKER-USER" ∷ []
unfolding for_each add_rule add_rules create_chain create_network_chains append_unique
    add_chain_unique chain_exists get_network_chains subnet_chains show_ℕ
get_network_chains_order_example =
    get_network_chains_order memory_tables memory_tables-IsLawful text conn podman_net
      "1D8721804F16F" false "podman0" true docker_tables refl refl
