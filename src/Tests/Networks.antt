-- ===== src/Tests/Networks.antt =====
-- The setup and the teardown of a network, at concrete inputs.
use netavark.Prelude.{◌≤◌, String, ◌≡◌, refl, show_ℕ, arith}
use netavark.Action.{for_each}
use netavark.Firewall.Tables.{Place, conn}
use netavark.Firewall.Tables.Counts.{tally}
use netavark.Firewall.Tables.Memory.{memory_tables, memory_tables-IsLawful}
use netavark.Firewall.Bus.Memory.{memory_bus}
use netavark.Firewall.Chain.{
  add_rule, add_rules, create_chain, create_network_chains, remove_rules, remove_rule, remove,
}
use netavark.Firewall.Helpers.{append_unique, add_chain_unique, chain_exists, remove_if_rule_exists}
use netavark.Firewall.NetworkChains.{get_network_chains}
use netavark.Firewall.Driver.{
  Host, subnet_chains, add_firewalld_if_possible, rm_firewalld_if_possible, setup_subnet,
  setup_network, teardown_subnet, teardown_network, is_firewalld_running, remove_network_chain,
}
use netavark.Firewall.Firewalld.Zones.{add_source_subnets_to_zone}
use netavark.Firewall.Driver.Cycle.{
  setup_network_keeps, setup_network-tally, setup_network_again, complete_teardown, setup_teardown,
}
use netavark.Tests.Data.{text, podman_setup, host}

abbrev nat_place : Place
nat_place = record { driver = conn; table = "nat"; chain = "POSTROUTING" }

abbrev jump : String
jump = "-s 10.88.0.0/16 -j NETAVARK-1D8721804F16F"

abbrev set_up : Host memory_tables memory_bus
set_up = (setup_network memory_tables memory_bus text podman_setup host).1

abbrev forward_chain : Place
forward_chain = record { driver = conn; table = "filter"; chain = "FORWARD" }

abbrev docker : String
docker = "-j DOCKER-USER"

setup_network_keeps_example :
    1 ≤ tally memory_tables memory_tables-IsLawful forward_chain docker set_up.tables
setup_network_keeps_example =
    setup_network_keeps memory_tables memory_tables-IsLawful memory_bus text podman_setup refl
      forward_chain docker host

setup_network-tally_example :
    tally memory_tables memory_tables-IsLawful nat_place jump set_up.tables ≡ 1
unfolding for_each add_rule add_rules create_chain create_network_chains append_unique
    add_chain_unique chain_exists get_network_chains subnet_chains add_firewalld_if_possible
    setup_subnet setup_network is_firewalld_running add_source_subnets_to_zone show_ℕ
setup_network-tally_example =
    setup_network-tally memory_tables memory_tables-IsLawful memory_bus text podman_setup refl
      nat_place jump host refl

setup_network_again_example :
    (setup_network memory_tables memory_bus text podman_setup set_up).1.tables ≡ set_up.tables
unfolding for_each add_rule add_rules create_chain create_network_chains append_unique
    add_chain_unique chain_exists get_network_chains subnet_chains add_firewalld_if_possible
    setup_subnet setup_network is_firewalld_running add_source_subnets_to_zone show_ℕ
setup_network_again_example =
    setup_network_again memory_tables memory_tables-IsLawful memory_bus text podman_setup refl host
      refl

setup_teardown_example :
    tally memory_tables memory_tables-IsLawful nat_place jump
      (teardown_network memory_tables memory_bus text
        (complete_teardown podman_setup)
        set_up).1.tables
    ≡ 0
unfolding for_each add_rule add_rules create_chain create_network_chains append_unique
    add_chain_unique chain_exists get_network_chains subnet_chains add_firewalld_if_possible
    setup_subnet setup_network is_firewalld_running add_source_subnets_to_zone show_ℕ
    teardown_network teardown_subnet rm_firewalld_if_possible remove_network_chain remove
    remove_rules remove_rule remove_if_rule_exists
setup_teardown_example =
    setup_teardown memory_tables memory_tables-IsLawful memory_bus text podman_setup refl nat_place
      jump host refl (ground arith) refl refl
