-- ===== src/Firewall/Firewalld/Ports.antt =====
-- The port forwarding rules of the firewalld policy: `setup_port_forward`,
-- `teardown_port_forward` and `make_port_tuple`.
pub mod Cycle
pub mod Handlers
pub mod Settings
use netavark.Prelude.{
  ℕ, ◌+◌, ◌-◌, ◌%◌, String, ◌<>◌, Bool, true, false, not, ◌||◌, Option, none, some, List, [], ◌∷◌,
  ok, err, map_ok, ltb, ◌==◌, str_eq, contains, show_ℕ, if◌then◌else◌,
}
use netavark.Prelude.Dict.{Dict, lookup, insert}
use netavark.Error.{NetavarkError, NetavarkResult, msg, dbus, wrap_error}
use netavark.Action.{Action, ◌>>=◌, change, lift}
use netavark.Network.Types.{IpAddr, is_ipv6, PortMapping}
use netavark.Network.Internal.{PortForwardConfig, TeardownPortForward}
use netavark.Network.Text.{AddrText}
use netavark.Firewall.PortChains.{u16_mod, ports_of}
use netavark.Firewall.Bus.{Bus, Value, str, structure, array, Values, nil, cons, append_value, body}
use netavark.Firewall.Firewalld.Zones.{query}

abbrev pub portpolicyname : String
portpolicyname = "netavark_portfwd"

-- `port + range - 1` over `u16`.
abbrev pub end_range : ℕ → ℕ → ℕ
end_range port range = ((port + range) % u16_mod + u16_mod - 1) % u16_mod

-- (port, protocol, to-port, to-addr)
unfoldable pub make_port_tuple : PortMapping → String → Value
make_port_tuple port addr =
    let tuple : String → String → Value = λ from to.
      structure
        (cons (str from) (cons (str port.protocol) (cons (str to) (cons (str addr) nil)))) in
    if ltb 1 port.range
    then tuple (show_ℕ port.host_port <> ("-" <> show_ℕ (end_range port.host_port port.range)))
        (show_ℕ port.container_port <> ("-" <> show_ℕ (end_range port.container_port port.range)))
    else tuple (show_ℕ port.host_port) (show_ℕ port.container_port)

abbrev pub bad_type : NetavarkError
bad_type = msg "forward-port in firewalld policy object has a bad type"

-- The rules of a key of the policy: an array, with the signature of its elements, or none.
unfoldable pub get_rules : String → Dict Value → NetavarkResult (Option (String × Values))
get_rules key config = elim (lookup key config) [
  | none ↦ ok none
  | some (array sig vs) ↦ ok (some (sig, vs))
  | some _ ↦ err bad_type
]

abbrev pub or_empty : String → Option (String × Values) → String × Values
or_empty sig none = (sig, nil)
or_empty sig (some rules) = rules

-- `?` on a result of values.
abbrev pub and_then : {A B : Type 0} → NetavarkResult A → (A → NetavarkResult B) → NetavarkResult B
and_then (ok vs) f = f vs
and_then (err e) f = err e

-- The error of an element that is no port forwarding rule.
abbrev pub not_structure : NetavarkError
not_structure = msg "Port forwarding rule that was not a structure encountered"

abbrev pub not_tuple : NetavarkError
not_tuple = msg "Port forwarding rule that was not a 4-tuple encountered"

abbrev pub not_strings : NetavarkError
not_strings =
    msg "Port forwarding tuples must contain only strings, encountered a non-string object"

abbrev pub not_rich : NetavarkError
not_rich = msg "Rich rule that was not a string encountered"

-- The fourth field of a rule.
unfoldable pub target_of : Value → NetavarkResult String
target_of (structure (cons _ (cons _ (cons _ (cons (str ip) nil))))) = ok ip
target_of (structure (cons _ (cons _ (cons _ (cons _ nil))))) = err not_strings
target_of (structure _) = err not_tuple
target_of _ = err not_structure

-- The loop over the old rules: those with either address as the target go.
unfoldable pub keep_ports : String → String → Values → Values → NetavarkResult Values
keep_ports ipv4 ipv6 nil kept = ok kept
keep_ports ipv4 ipv6 (cons v vs) kept = and_then (target_of v) λ port_ip.
    and_then
      (if str_eq port_ip ipv4 || str_eq port_ip ipv6 then ok kept else append_value "(ssss)" kept v)
      (keep_ports ipv4 ipv6 vs)

-- The loop over the old rich rules.
unfoldable pub keep_rich_rules : List String → Values → Values → NetavarkResult Values
keep_rich_rules rules_to_delete nil kept = ok kept
keep_rich_rules rules_to_delete (cons (str rule) vs) kept =
    and_then (if contains rule rules_to_delete then ok kept else append_value "s" kept (str rule))
      (keep_rich_rules rules_to_delete vs)
keep_rich_rules rules_to_delete (cons _ vs) kept = err not_rich

-- The settings to send back: only the keys that are named change.
abbrev pub new_settings : Option (String × Values) → Option (String × Values) → Dict Value
new_settings ports rich =
    let settings : Dict Value = elim ports [
      | none ↦ []
      | some (sig, vs) ↦ insert "forward_ports" (array sig vs) []
    ] in
    elim rich [ none ↦ settings | some (sig, vs) ↦ insert "rich_rules" (array sig vs) settings ]

abbrev pub is_empty {ℓ} : {A : Type ℓ} → List A → Bool
is_empty [] = true
is_empty (_ ∷ _) = false

module _ (text : AddrText) where
  -- An optional address of the container, as the target of a port.
  abbrev pub add_for : PortMapping → String → Option IpAddr → Values → NetavarkResult Values
  add_for port sig none vs = ok vs
  add_for port sig (some ip) vs = append_value sig vs (make_port_tuple port (text.show_ip ip))

  -- The rules for one mapping. With a host address the source makes that the target.
  unfoldable pub add_port :
      PortForwardConfig → String → PortMapping → Values → NetavarkResult Values
  add_port config sig port vs =
      if str_eq port.host_ip ""
      then and_then (add_for port sig config.container_ip_v4 vs)
          (add_for port sig config.container_ip_v6)
      else append_value sig vs (make_port_tuple port port.host_ip)

  unfoldable pub add_ports :
      PortForwardConfig → String → List PortMapping → Values → NetavarkResult Values
  add_ports config sig [] vs = ok vs
  add_ports config sig (port ∷ ports) vs =
      and_then (add_port config sig port vs) (add_ports config sig ports)

  -- The rich rule that forwards DNS for one server.
  abbrev pub rich_rule : ℕ → IpAddr → String
  rich_rule dns_port dns_ip =
      "rule family=\""
      <> ((if is_ipv6 dns_ip then "ipv6" else "ipv4")
          <> ("\" destination address=\""
              <> (text.show_ip dns_ip
                  <> ("\" forward-port port=\"53\" protocol=\"udp\" to-port=\""
                      <> (show_ℕ dns_port <> ("\" to-addr=\"" <> (text.show_ip dns_ip <> "\"")))))))

  unfoldable pub add_rich_rules : ℕ → String → List IpAddr → Values → NetavarkResult Values
  add_rich_rules dns_port sig [] vs = ok vs
  add_rich_rules dns_port sig (ip ∷ ips) vs =
      and_then (append_value sig vs (str (rich_rule dns_port ip))) (add_rich_rules dns_port sig ips)

  -- The new rich rules: none unless DNS is forwarded.
  unfoldable pub rich_rules :
      PortForwardConfig → Dict Value → NetavarkResult (Option (String × Values))
  rich_rules config policy_config =
      if config.dns_port == 53 || is_empty config.dns_server_ips
      then ok none
      else and_then (get_rules "rich_rules" policy_config) λ old.
        let (sig, vs) = or_empty "s" old in
        map_ok (λ new. some (sig, new))
          (add_rich_rules config.dns_port sig config.dns_server_ips vs)

  -- An address that the container has, or a text that is no address.
  abbrev pub address_or_none : Option IpAddr → String
  address_or_none none = "DOES NOT EXIST"
  address_or_none (some ip) = text.show_ip ip

  unfoldable pub kept_ports :
      PortForwardConfig → Dict Value → NetavarkResult (Option (String × Values))
  kept_ports config policy_config = and_then (get_rules "forward_ports" policy_config) λ old.
      elim old [
        | none ↦ ok none
        | some (sig, vs) ↦
            map_ok (λ kept. some ("(ssss)", kept))
              (keep_ports (address_or_none config.container_ip_v4)
                (address_or_none config.container_ip_v6) vs nil)
      ]

  abbrev pub rules_to_delete : ℕ → List IpAddr → List String
  rules_to_delete dns_port [] = []
  rules_to_delete dns_port (ip ∷ ips) = rich_rule dns_port ip ∷ rules_to_delete dns_port ips

  unfoldable pub kept_rich_rules :
      TeardownPortForward → Dict Value → NetavarkResult (Option (String × Values))
  kept_rich_rules tear policy_config =
      let config = tear.config in
      if not tear.complete_teardown || (config.dns_port == 53 || is_empty config.dns_server_ips)
      then ok none
      else and_then (get_rules "rich_rules" policy_config) λ old. elim old [
        | none ↦ ok none
        | some (sig, vs) ↦
            map_ok (λ kept. some ("s", kept))
              (keep_rich_rules (rules_to_delete config.dns_port config.dns_server_ips) vs nil)
      ]

  module _ (B : Bus) where
    unfoldable pub get_settings : Action B.State (Dict Value)
    get_settings = query B (λ s.
        body "Error decoding DBus message for policy netavark_portfwd configuration"
          (B.get_policy_settings portpolicyname s))

    unfoldable pub setup_port_forward : PortForwardConfig → Action B.State Unit
    unfolding get_settings
    setup_port_forward config = do
      policy_config ← get_settings
      old ← lift (get_rules "forward_ports" policy_config)
      let (sig, vs) = or_empty "(ssss)" old
      ports ← lift (add_ports config sig (ports_of config.port_mappings) vs)
      rich ← lift (rich_rules config policy_config)
      change
          (λ e.
            wrap_error
              ("Failed to update policy netavark_portfwd to add container "
                <> (config.container_id <> " port forwarding rules"))
              (dbus e))
          (B.set_policy_settings portpolicyname (new_settings (some (sig, ports)) rich))

    unfoldable pub teardown_port_forward : TeardownPortForward → Action B.State Unit
    unfolding get_settings
    teardown_port_forward tear = do
      policy_config ← get_settings
      ports ← lift (kept_ports tear.config policy_config)
      rich ← lift (kept_rich_rules tear policy_config)
      change
          (λ e.
            wrap_error
              ("Failed to update policy netavark_portfwd to remove container "
                <> (tear.config.container_id <> " port forwarding rules"))
              (dbus e))
          (B.set_policy_settings portpolicyname (new_settings ports rich))
