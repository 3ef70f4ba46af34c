-- ===== src/Firewall/Firewalld/Ports/Cycle.antt =====
-- About the port forwarding rules of the firewalld policy: what a container puts in, and what
-- its teardown takes out.
use mathlib.Core.List.{append_assoc, append-nil}
use netavark.Prelude.{
  String, ◌<>◌, ◌≡◌, refl, ap, ◌∙◌, ◌||◌, Option, none, some, List, [], ◌∷◌, ◌++◌, ok, ltb, str_eq,
  eq_refl, inl, inr, arith, show_ℕ, if◌then◌else◌, Bool-cases,
}
use netavark.Error.{NetavarkResult}
use netavark.Network.Types.{IpAddr, PortMapping}
use netavark.Network.Internal.{PortForwardConfig}
use netavark.Network.Text.{AddrText}
use netavark.Firewall.Bus.{Value, str, structure, Values, nil, cons, push_value, append_value}
use netavark.Firewall.Firewalld.Ports.{
  end_range, make_port_tuple, target_of, keep_ports, add_for, add_port, add_ports, address_or_none,
}

-- A rule of the policy: (port, protocol, to-port, to-addr).
pub record PortRule : Type 0 where
  pub port : String
  pub protocol : String
  pub to_port : String
  pub to_addr : String

abbrev pub tuple : PortRule → Value
tuple r =
    structure
      (cons (str r.port) (cons (str r.protocol) (cons (str r.to_port) (cons (str r.to_addr) nil))))

abbrev pub tuples : List PortRule → Values
tuples [] = nil
tuples (r ∷ rs) = cons (tuple r) (tuples rs)

-- The rules that have neither address as their target.
abbrev pub others : String → String → List PortRule → List PortRule
others a b [] = []
others a b (r ∷ rs) =
    if str_eq r.to_addr a || str_eq r.to_addr b then others a b rs else r ∷ others a b rs

push_value-tuples :
    (rs : List PortRule) (r : PortRule) → push_value (tuples rs) (tuple r) ≡ tuples (rs ++ (r ∷ []))
push_value-tuples [] r = refl
push_value-tuples (s ∷ rs) r = ap (cons (tuple s)) (push_value-tuples rs r)

append_value-tuples :
    (rs : List PortRule) (r : PortRule)
    → append_value "(ssss)" (tuples rs) (tuple r) ≡ ok (tuples (rs ++ (r ∷ [])))
unfolding append_value
append_value-tuples rs r = ap {B = NetavarkResult Values} ok (push_value-tuples rs r)

pub keep_ports-tuples :
    (a b : String) (rs kept : List PortRule)
    → keep_ports a b (tuples rs) (tuples kept) ≡ ok (tuples (kept ++ others a b rs))
unfolding keep_ports target_of
keep_ports-tuples a b [] kept = rw (append-nil kept)
keep_ports-tuples a b (r ∷ rs) kept = elim (Bool-cases (str_eq r.to_addr a || str_eq r.to_addr b)) [
  | inl e ↦ rw e (keep_ports-tuples a b rs kept)
  | inr e ↦
      rw (e, append_value-tuples kept r)
        (keep_ports-tuples a b rs (kept ++ (r ∷ []))
          ∙ rw (append_assoc kept (r ∷ []) (others a b rs)))
]

pub others-append :
    (a b : String) (rs ss : List PortRule) → others a b (rs ++ ss) ≡ others a b rs ++ others a b ss
others-append a b [] ss = refl
others-append a b (r ∷ rs) ss = ground (arith, others-append a b rs ss)

-- The rule of a mapping for a target.
abbrev pub port_rule : PortMapping → String → PortRule
port_rule i addr = record {
  port =
      if ltb 1 i.range
      then show_ℕ i.host_port <> ("-" <> show_ℕ (end_range i.host_port i.range))
      else show_ℕ i.host_port;
  protocol = i.protocol;
  to_port =
      if ltb 1 i.range
      then show_ℕ i.container_port <> ("-" <> show_ℕ (end_range i.container_port i.range))
      else show_ℕ i.container_port;
  to_addr = addr;
}

make_port_tuple-tuple :
    (i : PortMapping) (addr : String) → make_port_tuple i addr ≡ tuple (port_rule i addr)
unfolding make_port_tuple
make_port_tuple-tuple i addr = ground arith

module _ (text : AddrText) (config : PortForwardConfig) where
  abbrev pub rule_for : PortMapping → Option IpAddr → List PortRule
  rule_for i none = []
  rule_for i (some ip) = port_rule i (text.show_ip ip) ∷ []

  -- The rules that a container puts in.
  abbrev pub port_rules : List PortMapping → List PortRule
  port_rules [] = []
  port_rules (i ∷ ports) =
      (if str_eq i.host_ip ""
        then rule_for i config.container_ip_v4 ++ rule_for i config.container_ip_v6
        else port_rule i i.host_ip ∷ [])
      ++ port_rules ports

  -- The rules for the mappings with a host address.
  abbrev pub host_ip_rules : List PortMapping → List PortRule
  host_ip_rules [] = []
  host_ip_rules (i ∷ ports) =
      if str_eq i.host_ip ""
      then host_ip_rules ports
      else port_rule i i.host_ip ∷ host_ip_rules ports

  add_for-tuples :
      (i : PortMapping) (ip : Option IpAddr) (rs : List PortRule)
      → add_for text i "(ssss)" ip (tuples rs) ≡ ok (tuples (rs ++ rule_for i ip))
  add_for-tuples i none rs = rw (append-nil rs)
  add_for-tuples i (some ip) rs =
      rw (make_port_tuple-tuple i (text.show_ip ip)) (append_value-tuples rs _)

  add_port-tuples :
      (i : PortMapping) (rs : List PortRule)
      → add_port text config "(ssss)" i (tuples rs)
        ≡ ok (
            tuples (
              rs
              ++ (if str_eq i.host_ip ""
                  then rule_for i config.container_ip_v4 ++ rule_for i config.container_ip_v6
                  else port_rule i i.host_ip ∷ [])))
  unfolding add_port
  add_port-tuples i rs = elim (Bool-cases (str_eq i.host_ip "")) [
    | inl e ↦
        rw (e, add_for-tuples i config.container_ip_v4 rs)
          (add_for-tuples i config.container_ip_v6 (rs ++ rule_for i config.container_ip_v4)
            ∙ rw (append_assoc rs (rule_for i config.container_ip_v4)))
    | inr e ↦ rw (e, make_port_tuple-tuple i i.host_ip) (append_value-tuples rs _)
  ]

  pub add_ports-tuples :
      (ports : List PortMapping) (rs : List PortRule)
      → add_ports text config "(ssss)" ports (tuples rs) ≡ ok (tuples (rs ++ port_rules ports))
  unfolding add_ports
  add_ports-tuples [] rs = rw (append-nil rs)
  add_ports-tuples (i ∷ ports) rs =
      rw (add_port-tuples i rs) (add_ports-tuples ports _ ∙ rw append_assoc)

  others-rule_for_v4 :
      (i : PortMapping) (ip : Option IpAddr) (b : String)
      → others (address_or_none text ip) b (rule_for i ip) ≡ []
  others-rule_for_v4 i none b = refl
  others-rule_for_v4 i (some ip) b = rw (eq_refl (text.show_ip ip)) refl

  others-rule_for_v6 :
      (i : PortMapping) (ip : Option IpAddr) (a : String)
      → others a (address_or_none text ip) (rule_for i ip) ≡ []
  others-rule_for_v6 i none a = refl
  others-rule_for_v6 i (some ip) a = elim (Bool-cases (str_eq (text.show_ip ip) a)) [
    | inl e ↦ rw e refl
    | inr e ↦ rw (e, eq_refl (text.show_ip ip)) refl
  ]

  pub others-port_rules :
      (ports : List PortMapping)
      → let a = address_or_none text config.container_ip_v4 in
        let b = address_or_none text config.container_ip_v6 in
        others a b (port_rules ports) ≡ others a b (host_ip_rules ports)
  others-port_rules [] = refl
  others-port_rules (i ∷ ports) =
      let a = address_or_none text config.container_ip_v4 in
      let b = address_or_none text config.container_ip_v6 in
      elim (Bool-cases (str_eq i.host_ip "")) [
        | inl e ↦
            rw
              (
                e,
                others-append a b
                    (rule_for i config.container_ip_v4 ++ rule_for i config.container_ip_v6),
                others-append a b (rule_for i config.container_ip_v4),
                others-rule_for_v4 i config.container_ip_v4 b,
                others-rule_for_v6 i config.container_ip_v6 a,
              )
              (others-port_rules ports)
        | inr e ↦ ground (arith, e, others-port_rules ports)
      ]
