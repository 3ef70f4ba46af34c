-- ===== src/Firewall/Firewalld/Zones.antt =====
-- Zones and policies of firewalld: `create_zone_if_not_exist`, `add_source_subnets_to_zone` and
-- `add_policy_if_not_exist`.
pub mod Sources
use netavark.Prelude.{String, Bool, true, false, List, [], ◌∷◌, contains, str_eq, if◌then◌else◌}
use netavark.Prelude.Dict.{Dict, insert}
use netavark.Error.{NetavarkResult, dbus}
use netavark.Action.{Action, pure, ◌>>=◌, ◌>>◌, change}
use netavark.Network.Types.{Subnet}
use netavark.Network.Text.{AddrText}
use netavark.Firewall.Bus.{Bus, Value, str, bool, array, nil, cons, body}

-- The settings of a policy from one zone to any.
abbrev pub policy_options : String → String → Bool → Dict Value
policy_options ingress_zone_name target masquerade =
    let options : Dict Value =
      insert "ingress_zones" (array "s" (cons (str ingress_zone_name) nil))
        (insert "egress_zones" (array "s" (cons (str "ANY") nil)) []) in
    let options' : Dict Value =
      if masquerade then insert "masquerade" (bool true) options else options in
    insert "target" (str target) options'

module _ (B : Bus) where
  -- A read of the daemon's state.
  abbrev pub query : {A : Type 0} → (B.State → NetavarkResult A) → Action B.State A
  query f s = (f s, s)

  -- Whether a reload is needed: the zone is not in the running configuration.
  unfoldable pub create_zone_if_not_exist : String → Action B.State Bool
  create_zone_if_not_exist zone_name = do
    zones ← query (λ s. body "Error decoding DBus message for active zones" (B.get_zones s))
    if contains zone_name zones then pure false else do
      zones_perm ←
          query (λ s. body "Error decoding DBus message for permanent zones" (B.get_zone_names s))
      if contains zone_name zones_perm
          then pure true
          else do change dbus (B.add_zone2 zone_name); pure true

  -- Whether a reload is needed, as for a zone.
  unfoldable pub add_policy_if_not_exist : String → String → String → Bool → Action B.State Bool
  add_policy_if_not_exist policy_name ingress_zone_name target masquerade = do
    policies ← query (λ s. body "Error decoding policy list response" (B.get_policies s))
    if contains policy_name policies then pure false else do
      perm_policies ←
          query (λ s. body "Error decoding permanent policy list response" (B.get_policy_names s))
      if contains policy_name perm_policies then pure true else do
        change dbus (B.add_policy policy_name (policy_options ingress_zone_name target masquerade))
        pure true

  module _ (text : AddrText) where
    -- The source returns from the loop at the first subnet that is in the zone already.
    unfoldable pub add_source_subnets_to_zone : String → List Subnet → Action B.State Unit
    add_source_subnets_to_zone zone_name [] = pure tt
    add_source_subnets_to_zone zone_name (net ∷ subnets) =
        let rest = add_source_subnets_to_zone zone_name subnets in
        let source = text.show_net net.subnet in
        do
          zone_string ← query (λ s.
              body "Error decoding DBus message for zone of subnet" (B.get_zone_of_source source s))
          if str_eq zone_string zone_name
              then pure tt
              else do change dbus (B.change_zone_of_source zone_name source); rest
