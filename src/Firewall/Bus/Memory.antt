-- ===== src/Firewall/Bus/Memory.antt =====
-- A firewalld in memory, which knows the zone of each source and the settings of each policy, as
-- an instance of what is assumed of it.
use netavark.Prelude.{
  String, ◌≡◌, true, ◌&&◌, Option, none, some, [], ok, is_ok, str_eq, arith, if◌then◌else◌,
}
use netavark.Prelude.Dict.{Dict, insert, lookup, lookup-insert}
use netavark.Firewall.Bus.{Bus, Value}
use netavark.Firewall.Firewalld.Zones.Sources.{HasZones}

pub record Memory : Type 0 where
  pub zones : Dict String
  pub settings : Dict (Dict Value)

abbrev pub or_none : Option String → String
or_none none = ""
or_none (some zone) = zone

abbrev pub or_unset : Option (Dict Value) → Dict Value
or_unset none = []
or_unset (some settings) = settings

abbrev pub memory_bus : Bus
memory_bus = record {
  State = Memory;
  has_system = λ s. true;
  has_owner = λ s. true;
  get_zones = λ s. ok (ok []);
  get_zone_names = λ s. ok (ok []);
  add_zone2 = λ zone s. (ok tt, s);
  get_zone_of_source = λ source s. ok (ok (or_none (lookup source s.zones)));
  change_zone_of_source = λ zone source s. (ok tt, record s { zones = insert source zone s.zones });
  remove_source = λ zone source s. (ok tt, record s { zones = insert source "" s.zones });
  get_policies = λ s. ok (ok []);
  get_policy_names = λ s. ok (ok []);
  add_policy =
      λ policy options s. (ok tt, record s { settings = insert policy options s.settings });
  get_policy_settings = λ policy s. ok (ok (or_unset (lookup policy s.settings)));
  set_policy_settings =
      λ policy settings s. (ok tt, record s { settings = insert policy settings s.settings });
  reload = λ s. (ok tt, s);
}

pub get_zone_of_source-zone :
    (source : String) (s : Memory) {zone : String}
    → memory_bus.get_zone_of_source source s ≡ ok (ok zone)
    → zone ≡ or_none (lookup source s.zones)
get_zone_of_source-zone source s e = cc

pub zone-change_zone_of_source :
    (zone source q : String) (s : Memory)
    → let (result, s') = memory_bus.change_zone_of_source zone source s in
      or_none (lookup q s'.zones)
      ≡ (if is_ok result && str_eq source q then zone else or_none (lookup q s.zones))
zone-change_zone_of_source zone source q s = ground (arith, lookup-insert source q zone s.zones)

abbrev pub memory_bus-HasZones : HasZones memory_bus
memory_bus-HasZones = record {
  zone_of = λ s source. or_none (lookup source s.zones);
  get_zone_of_source-zone_of = get_zone_of_source-zone;
  zone_of-change_zone_of_source = zone-change_zone_of_source;
}
