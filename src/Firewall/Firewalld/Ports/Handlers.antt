-- ===== src/Firewall/Firewalld/Ports/Handlers.antt =====
-- About `setup_port_forward` and `teardown_port_forward` of the firewalld driver: the port
-- forwarding rules that the policy has after them.
use netavark.Prelude.{
  String, ◌≡◌, refl, sym, ◌∙◌, Bool, true, false, Option, some, List, [], ◌++◌, ok, err, is_ok, inl,
  inr, arith, Result-cases,
}
use netavark.Prelude.Dict.{Dict}
use netavark.Error.{NetavarkError}
use netavark.Network.Internal.{PortForwardConfig, TeardownPortForward}
use netavark.Network.Text.{AddrText}
use netavark.Firewall.PortChains.{ports_of}
use netavark.Firewall.Bus.{Bus, Value, array, Values}
use netavark.Firewall.Firewalld.Ports.{
  portpolicyname, get_rules, kept_ports, kept_rich_rules, new_settings, get_settings,
  address_or_none, setup_port_forward, teardown_port_forward,
}
use netavark.Firewall.Firewalld.Ports.Cycle.{
  PortRule, tuples, others, others-append, others-port_rules, port_rules, host_ip_rules,
  keep_ports-tuples,
}
use netavark.Firewall.Firewalld.Ports.Settings.{
  HasSettings, new_settings-forward_ports, forward_ports, get_rules-forward_ports,
  setup_port_forward-rules,
}

module _ (text : AddrText) (B : Bus) (L : HasSettings B) where
  teardown_port_forward-set :
      (tear : TeardownPortForward) (s : B.State) (d : Dict Value) (sig : String) (ports : Values)
      (rich : Option (String × Values))
      → B.get_policy_settings portpolicyname s ≡ ok (ok d)
      → kept_ports text tear.config d ≡ ok (some (sig, ports))
      → kept_rich_rules text tear d ≡ ok rich
      → (is_ok (teardown_port_forward text B tear s).0
          ≡ is_ok
              (B.set_policy_settings portpolicyname (new_settings (some (sig, ports)) rich) s).0)
        × ((teardown_port_forward text B tear s).1
            ≡ (B.set_policy_settings portpolicyname (new_settings (some (sig, ports)) rich) s).1)
  unfolding teardown_port_forward get_settings
  teardown_port_forward-set tear s d sig ports rich e a r = ground (arith, e, a, r)

  teardown_port_forward-fails :
      (tear : TeardownPortForward) (s : B.State) (d : Dict Value) (sig : String) (ports : Values)
      (f : NetavarkError)
      → B.get_policy_settings portpolicyname s ≡ ok (ok d)
      → kept_ports text tear.config d ≡ ok (some (sig, ports))
      → kept_rich_rules text tear d ≡ err f
      → is_ok (teardown_port_forward text B tear s).0 ≡ false
  unfolding teardown_port_forward get_settings
  teardown_port_forward-fails tear s d sig ports f e a r = ground (arith, e, a, r)

  kept_ports-others :
      (config : PortForwardConfig) (d : Dict Value) (rs : List PortRule)
      → get_rules "forward_ports" d ≡ ok (some ("(ssss)", tuples rs))
      → kept_ports text config d
        ≡ ok (
            some (
              "(ssss)",
              tuples (
                  others
                    (address_or_none text config.container_ip_v4)
                    (address_or_none text config.container_ip_v6)
                    rs),
            ))
  unfolding kept_ports
  kept_ports-others config d rs g = ground (
    arith,
    g,
    keep_ports-tuples (address_or_none text config.container_ip_v4)
        (address_or_none text config.container_ip_v6) rs [],
  )

  teardown_port_forward-rules :
      (tear : TeardownPortForward) (rs : List PortRule) (s : B.State)
      → forward_ports text B L s ≡ some (array "(ssss)" (tuples rs))
      → is_ok (teardown_port_forward text B tear s).0 ≡ true
      → forward_ports text B L (teardown_port_forward text B tear s).1
        ≡ some (
            array "(ssss)" (
              tuples (
                others
                  (address_or_none text tear.config.container_ip_v4)
                  (address_or_none text tear.config.container_ip_v6)
                  rs)))
  unfolding teardown_port_forward get_settings
  teardown_port_forward-rules tear rs s h done =
      let new =
        others (address_or_none text tear.config.container_ip_v4)
          (address_or_none text tear.config.container_ip_v6) rs in
      elim (Result-cases (B.get_policy_settings portpolicyname s)) [
        | inl (ok d, e) ↦
            let a = kept_ports-others tear.config d rs (
              get_rules-forward_ports text B L d "(ssss)" (tuples rs)
                (rw (L.get_policy_settings-settings s e) h)) in
            elim (Result-cases (kept_rich_rules text tear d)) [
              | inl (rich, r) ↦
                  let (result, state) =
                    teardown_port_forward-set tear s d "(ssss)" (tuples new) rich e a r in
                  rw state (
                    L.settings-set_policy_settings (new_settings (some ("(ssss)", tuples new)) rich)
                      "forward_ports" (array "(ssss)" (tuples new)) s (sym result ∙ done)
                      (new_settings-forward_ports "(ssss)" (tuples new) rich))
              | inr (f, r) ↦
                  ground (
                    arith,
                    done,
                    teardown_port_forward-fails tear s d "(ssss)" (tuples new) f e a r,
                  )
            ]
        | inl (err f, e) ↦ ground (arith, e, done)
        | inr (f, e) ↦ ground (arith, e, done)
      ]

  -- A container's ports are put into the policy and taken out again, both with success, where the
  -- policy had a list of port forwarding rules. What is left are the rules that were there for
  -- other targets than the addresses of the container, and those of the container's own mappings
  -- that have a host address which is none of them.
  pub port_forward_cycle :
      (config : PortForwardConfig) (complete : Bool) (rs : List PortRule) (s : B.State)
      → forward_ports text B L s ≡ some (array "(ssss)" (tuples rs))
      → is_ok (setup_port_forward text B config s).0 ≡ true
      → is_ok
          (teardown_port_forward text B
            (record { config = config; complete_teardown = complete })
            (setup_port_forward text B config s).1).0
        ≡ true
      → forward_ports text B L
          (teardown_port_forward text B
            (record { config = config; complete_teardown = complete })
            (setup_port_forward text B config s).1).1
        ≡ some (
            array "(ssss)" (
              tuples (
                others
                  (address_or_none text config.container_ip_v4)
                  (address_or_none text config.container_ip_v6)
                  rs
                ++ others
                    (address_or_none text config.container_ip_v4)
                    (address_or_none text config.container_ip_v6)
                    (host_ip_rules text config (ports_of config.port_mappings)))))
  port_forward_cycle config complete rs s h done gone =
      let ports = ports_of config.port_mappings in
      let a = address_or_none text config.container_ip_v4 in
      let b = address_or_none text config.container_ip_v6 in
      teardown_port_forward-rules (record { config = config; complete_teardown = complete })
        (rs ++ port_rules text config ports) (setup_port_forward text B config s).1
        (setup_port_forward-rules text B L config rs s h done) gone
      ∙ rw
          (others-append a b rs (port_rules text config ports), others-port_rules text config ports)
          refl
