-- ===== src/Tests/Firewalld.antt =====
-- The zones and the port policy of firewalld, at concrete inputs.
use netavark.Prelude.{String, ◌≡◌, refl, true, some, [], ◌∷◌, ok, is_ok, eq_refl, show_ℕ, arith}
use netavark.Prelude.Dict.{Dict, lookup, lookup-insert}
use netavark.Firewall.Bus.{Value, array, append_value, signature}
use netavark.Firewall.Bus.Memory.{Memory, memory_bus, memory_bus-HasZones, or_unset}
use netavark.Firewall.Firewalld.Ports.{
  portpolicyname, setup_port_forward, teardown_port_forward, get_settings, get_rules, rich_rules,
  kept_ports, kept_rich_rules, add_ports, add_port, make_port_tuple, keep_ports, target_of,
}
use netavark.Firewall.Firewalld.Ports.Cycle.{PortRule, tuples, port_rule}
use netavark.Firewall.Firewalld.Ports.Settings.{HasSettings, forward_ports}
use netavark.Firewall.Firewalld.Ports.Handlers.{port_forward_cycle}
use netavark.Firewall.Firewalld.Zones.{add_source_subnets_to_zone}
use netavark.Firewall.Firewalld.Zones.Sources.{add_source_subnets_to_zone_lem, ignored_behind}
use netavark.Tests.Data.{text, ports, http, local_udp, podman_subnet, other_subnet}

-- A rule of another container.
abbrev other_rule : PortRule
other_rule = port_rule http "10.88.0.9"

pub settings-set_policy_settings :
    (new : Dict Value) (key : String) (v : Value) (s : Memory)
    → is_ok (memory_bus.set_policy_settings portpolicyname new s).0 ≡ true
    → lookup key new ≡ some v
    → lookup key (
        or_unset
          (lookup portpolicyname (memory_bus.set_policy_settings portpolicyname new s).1.settings))
      ≡ some v
settings-set_policy_settings new key v s done h =
    ground
      (arith, h, lookup-insert portpolicyname portpolicyname new s.settings, eq_refl portpolicyname)

pub get_policy_settings-settings :
    (s : Memory) {d : Dict Value}
    → memory_bus.get_policy_settings portpolicyname s ≡ ok (ok d)
    → d ≡ or_unset (lookup portpolicyname s.settings)
get_policy_settings-settings s e = cc

abbrev memory_bus-HasSettings : HasSettings memory_bus
memory_bus-HasSettings = record {
  settings = λ s. or_unset (lookup portpolicyname s.settings);
  get_policy_settings-settings = get_policy_settings-settings;
  settings-set_policy_settings = settings-set_policy_settings;
}

abbrev one_rule : Memory
one_rule = record {
  zones = [];
  settings =
      (portpolicyname, ("forward_ports", array "(ssss)" (tuples (other_rule ∷ []))) ∷ []) ∷ [];
}

abbrev after_setup : Memory
after_setup = (setup_port_forward text memory_bus ports one_rule).1

port_forward_cycle_example :
    forward_ports text memory_bus memory_bus-HasSettings
      (teardown_port_forward text memory_bus
        (record { config = ports; complete_teardown = true })
        after_setup).1
    ≡ some (array "(ssss)" (tuples (other_rule ∷ port_rule local_udp "127.0.0.1" ∷ [])))
unfolding setup_port_forward teardown_port_forward get_settings get_rules add_ports add_port
    make_port_tuple append_value signature rich_rules kept_ports keep_ports target_of
    kept_rich_rules show_ℕ
port_forward_cycle_example =
    port_forward_cycle text memory_bus memory_bus-HasSettings ports true (other_rule ∷ []) one_rule
      refl refl refl

abbrev no_zones : Memory
no_zones = record { zones = []; settings = [] }

add_source_subnets_to_zone_lem_example :
    memory_bus-HasZones.zone_of
      (add_source_subnets_to_zone memory_bus text "netavark_zone"
        (podman_subnet ∷ other_subnet ∷ [])
        no_zones).1
      "10.89.0.0/16"
    ≡ "netavark_zone"
unfolding add_source_subnets_to_zone show_ℕ
add_source_subnets_to_zone_lem_example =
    add_source_subnets_to_zone_lem memory_bus memory_bus-HasZones text "netavark_zone"
      "10.89.0.0/16" (podman_subnet ∷ other_subnet ∷ []) no_zones ((refl, refl), ((refl, refl), tt))
      refl

-- The first subnet is in the zone, and the second stays out of it.
abbrev one_zone : Memory
one_zone = record { zones = ("10.88.0.0/16", "netavark_zone") ∷ []; settings = [] }

ignored_behind_example :
    (add_source_subnets_to_zone memory_bus text "netavark_zone"
      (podman_subnet ∷ other_subnet ∷ [])
      one_zone).1
    ≡ one_zone
unfolding add_source_subnets_to_zone show_ℕ
ignored_behind_example =
    ignored_behind memory_bus memory_bus-HasZones text "netavark_zone" podman_subnet []
      (other_subnet ∷ []) one_zone refl

other_subnet_left_out :
    add_source_subnets_to_zone memory_bus text "netavark_zone"
      (podman_subnet ∷ other_subnet ∷ [])
      one_zone
    ≡ (ok tt, one_zone)
unfolding add_source_subnets_to_zone show_ℕ
other_subnet_left_out = refl
