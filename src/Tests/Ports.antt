-- ===== src/Tests/Ports.antt =====
-- The ports of a container, at concrete inputs.
use netavark.Prelude.{leb, String, ◌≡◌, refl, false, some, show_ℕ, arith, ok}
use netavark.Firewall.Tables.{Place, conn}
use netavark.Firewall.Tables.Counts.{tally}
use netavark.Firewall.Tables.Memory.{Memory, memory_tables, memory_tables-IsLawful}
use netavark.Action.{for_each}
use netavark.Firewall.Helpers.{append_unique, add_chain_unique, chain_exists, remove_if_rule_exists}
use netavark.Firewall.Chain.{
  add_rule, add_rules, create_chain, create_network_chains, remove_rules, remove_rule, remove,
}
use netavark.Firewall.Bus.Memory.{memory_bus}
use netavark.Firewall.PortChains.Ranges.{last_port_lem}
use netavark.Firewall.PortChains.{
  last_port, get_host_ip, classify, map_ports, add_dns_rules, hostport_dn_chain, all_chains,
  get_port_forwarding_chains,
}
use netavark.Firewall.PortChains.Spec.{
  first_invalid, forwarded, hostport_spec, hashed_spec, get_port_forwarding_chains_lem,
}
use netavark.Firewall.Driver.{setup_family, teardown_family, remove_port_chain}
use netavark.Firewall.Driver.Ports.{port_cycle}
use netavark.Tests.Data.{text, ports, container_ip, podman_net, docker_tables, no_subnet}

abbrev hashed_chain : Place
hashed_chain = record { driver = conn; table = "nat"; chain = "NETAVARK-DN-1D8721804F16F" }

abbrev http_rule : String
http_rule = "-j DNAT -p tcp --to-destination 10.88.0.5:80 --destination-port 8080"

abbrev set_up : Memory
set_up =
    (setup_family memory_tables memory_bus text ports false no_subnet (some container_ip)
      (some podman_net) docker_tables).1

port_cycle_example :
    tally memory_tables memory_tables-IsLawful hashed_chain http_rule
      (teardown_family memory_tables memory_bus text
        (record { config = ports; complete_teardown = false })
        false
        no_subnet
        (some container_ip)
        (some podman_net)
        set_up).1
    ≡ 0
unfolding for_each add_rule add_rules create_chain create_network_chains append_unique
    add_chain_unique chain_exists show_ℕ remove remove_rules remove_rule remove_if_rule_exists
    get_port_forwarding_chains hostport_dn_chain add_dns_rules map_ports get_host_ip classify
    first_invalid forwarded setup_family teardown_family remove_port_chain last_port
port_cycle_example =
    port_cycle memory_tables memory_tables-IsLawful memory_bus text false no_subnet ports
      container_ip podman_net hashed_chain http_rule docker_tables (ground arith) refl refl

-- The rule was there in between.
http_rule-set_up : tally memory_tables memory_tables-IsLawful hashed_chain http_rule set_up ≡ 1
unfolding for_each add_rule add_rules create_chain create_network_chains append_unique
    add_chain_unique chain_exists show_ℕ remove remove_rules remove_rule remove_if_rule_exists
    get_port_forwarding_chains hostport_dn_chain add_dns_rules map_ports get_host_ip classify
    first_invalid forwarded setup_family teardown_family remove_port_chain last_port
http_rule-set_up = refl

get_port_forwarding_chains_lem_example :
    get_port_forwarding_chains text conn ports container_ip podman_net false
    ≡ ok (
        all_chains conn (
          hostport_spec text conn ports container_ip podman_net false,
          hashed_spec text conn ports container_ip podman_net false,
        ))
unfolding for_each add_rule add_rules create_chain create_network_chains append_unique
    add_chain_unique chain_exists show_ℕ remove remove_rules remove_rule remove_if_rule_exists
    get_port_forwarding_chains hostport_dn_chain add_dns_rules map_ports get_host_ip classify
    first_invalid forwarded setup_family teardown_family remove_port_chain last_port
get_port_forwarding_chains_lem_example =
    get_port_forwarding_chains_lem text conn ports container_ip podman_net false

-- Three ports from 65534 on: the last is port 0.
last_port_lem_example : (last_port 65534 3 ≡ 0) × (leb 65534 (last_port 65534 3) ≡ false)
unfolding last_port
last_port_lem_example = last_port_lem 65534 2 (ground arith) (ground arith)
