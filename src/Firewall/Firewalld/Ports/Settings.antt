-- ===== src/Firewall/Firewalld/Ports/Settings.antt =====
-- About `setup_port_forward` of the firewalld driver, and what is assumed of the policy's settings.
use netavark.Prelude.{
  String, ◌≡◌, refl, sym, ◌∙◌, true, false, Option, none, some, List, ◌++◌, ok, err, is_ok, inl,
  inr, arith, Result-cases,
}
use netavark.Prelude.Dict.{Dict, lookup}
use netavark.Error.{NetavarkError}
use netavark.Network.Internal.{PortForwardConfig}
use netavark.Network.Text.{AddrText}
use netavark.Firewall.PortChains.{ports_of}
use netavark.Firewall.Bus.{Bus, Value, array, Values}
use netavark.Firewall.Firewalld.Ports.{
  portpolicyname, get_rules, add_ports, rich_rules, new_settings, get_settings, setup_port_forward,
}
use netavark.Firewall.Firewalld.Ports.Cycle.{PortRule, tuples, port_rules, add_ports-tuples}

-- What is assumed of firewalld: the settings of the port policy are what is read, and a key that
-- is set has its new value.
pub record HasSettings (B : Bus) : Type 0 where
  pub settings : B.State → Dict Value
  pub get_policy_settings-settings :
      (s : B.State) {d : Dict Value}
      → B.get_policy_settings portpolicyname s ≡ ok (ok d)
      → d ≡ settings s
  pub settings-set_policy_settings :
      (new : Dict Value) (key : String) (v : Value) (s : B.State)
      → is_ok (B.set_policy_settings portpolicyname new s).0 ≡ true
      → lookup key new ≡ some v
      → lookup key (settings (B.set_policy_settings portpolicyname new s).1) ≡ some v

pub new_settings-forward_ports :
    (sig : String) (vs : Values) (rich : Option (String × Values))
    → lookup "forward_ports" (new_settings (some (sig, vs)) rich) ≡ some (array sig vs)
new_settings-forward_ports sig vs none = refl
new_settings-forward_ports sig vs (some (sig', vs')) = refl

module _ (text : AddrText) (B : Bus) (L : HasSettings B) where
  abbrev pub forward_ports : B.State → Option Value
  forward_ports s = lookup "forward_ports" (L.settings s)

  -- A setup that succeeds has read the settings and the rich rules, and set the new settings.
  setup_port_forward-set :
      (config : PortForwardConfig) (s : B.State) (d : Dict Value) (sig : String) (vs ports : Values)
      (rich : Option (String × Values))
      → B.get_policy_settings portpolicyname s ≡ ok (ok d)
      → get_rules "forward_ports" d ≡ ok (some (sig, vs))
      → add_ports text config sig (ports_of config.port_mappings) vs ≡ ok ports
      → rich_rules text config d ≡ ok rich
      → (is_ok (setup_port_forward text B config s).0
          ≡ is_ok
              (B.set_policy_settings portpolicyname (new_settings (some (sig, ports)) rich) s).0)
        × ((setup_port_forward text B config s).1
            ≡ (B.set_policy_settings portpolicyname (new_settings (some (sig, ports)) rich) s).1)
  unfolding setup_port_forward get_settings
  setup_port_forward-set config s d sig vs ports rich e g a r = ground (arith, e, g, a, r)

  setup_port_forward-fails :
      (config : PortForwardConfig) (s : B.State) (d : Dict Value) (sig : String) (vs ports : Values)
      (f : NetavarkError)
      → B.get_policy_settings portpolicyname s ≡ ok (ok d)
      → get_rules "forward_ports" d ≡ ok (some (sig, vs))
      → add_ports text config sig (ports_of config.port_mappings) vs ≡ ok ports
      → rich_rules text config d ≡ err f
      → is_ok (setup_port_forward text B config s).0 ≡ false
  unfolding setup_port_forward get_settings
  setup_port_forward-fails config s d sig vs ports f e g a r = ground (arith, e, g, a, r)

  pub get_rules-forward_ports :
      (d : Dict Value) (sig : String) (vs : Values)
      → lookup "forward_ports" d ≡ some (array sig vs)
      → get_rules "forward_ports" d ≡ ok (some (sig, vs))
  unfolding get_rules
  get_rules-forward_ports d sig vs h = rw (h, get_rules) refl

  pub setup_port_forward-rules :
      (config : PortForwardConfig) (rs : List PortRule) (s : B.State)
      → forward_ports s ≡ some (array "(ssss)" (tuples rs))
      → is_ok (setup_port_forward text B config s).0 ≡ true
      → forward_ports (setup_port_forward text B config s).1
        ≡ some
            (array "(ssss)" (tuples (rs ++ port_rules text config (ports_of config.port_mappings))))
  unfolding setup_port_forward get_settings
  setup_port_forward-rules config rs s h done =
      let new = rs ++ port_rules text config (ports_of config.port_mappings) in
      let a = add_ports-tuples text config (ports_of config.port_mappings) rs in
      elim (Result-cases (B.get_policy_settings portpolicyname s)) [
        | inl (ok d, e) ↦
            let g =
              get_rules-forward_ports d "(ssss)" (tuples rs)
                (rw (L.get_policy_settings-settings s e) h) in
            elim (Result-cases (rich_rules text config d)) [
              | inl (rich, r) ↦
                  let (result, state) =
                    setup_port_forward-set config s d "(ssss)" (tuples rs) (tuples new) rich e g a
                      r in
                  rw state (
                    L.settings-set_policy_settings (new_settings (some ("(ssss)", tuples new)) rich)
                      "forward_ports" (array "(ssss)" (tuples new)) s (sym result ∙ done)
                      (new_settings-forward_ports "(ssss)" (tuples new) rich))
              | inr (f, r) ↦ ground (
                arith,
                done,
                setup_port_forward-fails config s d "(ssss)" (tuples rs) (tuples new) f e g a r,
              )
            ]
        | inl (err f, e) ↦ ground (arith, e, done)
        | inr (f, e) ↦ ground (arith, e, done)
      ]
