-- ===== src/Firewall/Firewalld/Networks.antt =====
-- `setup_network` and `teardown_network` of the firewalld driver.
use netavark.Prelude.{String, ◌<>◌, Bool, true, false, ◌||◌, none, some, ok, err, if◌then◌else◌}
use netavark.Error.{wrap_error, dbus}
use netavark.Action.{Action, pure, ◌>>=◌, ◌>>◌, change, for_each}
use netavark.Network.Types.{Subnet}
use netavark.Network.Internal.{SetupNetwork, TearDownNetwork}
use netavark.Network.Text.{AddrText}
use netavark.Firewall.Bus.{Bus}
use netavark.Firewall.Firewalld.Ports.{portpolicyname}
use netavark.Firewall.Firewalld.Zones.{
  create_zone_if_not_exist, add_policy_if_not_exist, add_source_subnets_to_zone,
}

abbrev pub zonename : String
zonename = "netavark_zone"

abbrev pub policyname : String
policyname = "netavark_policy"

-- `Err(e) => return Err(NetavarkError::wrap(text, e))`
abbrev pub wrapping : {S A : Type 0} → String → Action S A → Action S A
wrapping text m s =
    let (r, s') = m s in elim r [ ok a ↦ (ok a, s') | err e ↦ (err (wrap_error text e), s') ]

module _ (B : Bus) (text : AddrText) where
  -- Both policies name the first in their error, as the source does.
  unfoldable pub create_zone_and_policies : Action B.State Bool
  create_zone_and_policies = do
    a ← wrapping ("Error creating zone " <> zonename) (create_zone_if_not_exist B zonename)
    b ←
        wrapping ("Error creating policy " <> policyname)
          (add_policy_if_not_exist B policyname zonename "ACCEPT" true)
    c ←
        wrapping ("Error creating policy " <> policyname)
          (add_policy_if_not_exist B portpolicyname "ANY" "CONTINUE" false)
    pure (a || (b || c))

  unfoldable pub setup_network : SetupNetwork → Action B.State Unit
  unfolding create_zone_and_policies
  setup_network config = do
    need_reload ← create_zone_and_policies
    if need_reload then change dbus B.reload else pure tt
    elim config.net.subnets [
      | none ↦ pure tt
      | some nets ↦
          wrapping ("Error adding source subnets to zone " <> zonename)
            (add_source_subnets_to_zone B text zonename nets)
    ]

  unfoldable pub remove_subnet : Subnet → Action B.State Unit
  remove_subnet subnet = change dbus (B.remove_source zonename (text.show_net subnet.subnet))

  unfoldable pub teardown_network : TearDownNetwork → Action B.State Unit
  unfolding remove_subnet
  teardown_network tear =
      if tear.complete_teardown
      then elim tear.config.net.subnets [
        | none ↦ pure tt
        | some subnets ↦ for_each remove_subnet subnets
      ]
      else pure tt
