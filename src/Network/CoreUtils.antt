-- ===== src/Network/CoreUtils.antt =====
-- `src/network/core_utils.rs`, but for `get_ipam_addresses`, over the kernel.
pub mod Routes
pub mod Mac
pub mod Sockets
use netavark.Prelude.{
  ℕ, String, ◌<>◌, Bool, true, false, not, ◌&&◌, ◌||◌, Option, none, some, List, [], ◌∷◌, map,
  Result, ok, err, map_err, map_ok, length, join, ◌==◌, str_eq, if◌then◌else◌,
}
use Prim.Native.Char.{Char, code}
use netavark.Prelude.Dict.{Dict, lookup}
use netavark.Prelude.Hex.{split, from_str_radix, format_02x}
use netavark.Error.{
  NetavarkError, NetavarkResult, message, msg, wrap, wrap_error, io, IoError, other, sysctl,
}
use netavark.Action.{Action, pure, raise, ◌>>=◌, ◌>>◌, for_each, lift, change}
use netavark.Network.Types.{IpAddr, v4, v6, is_ipv6, IpNet}
use netavark.Network.Netlink.Types.{Route, ipv4, ipv6}
use netavark.Network.Kernel.{Kernel, Side, SysctlError, not_there, io_failed, failed, TextLib}

-- `result.wrap(text)` on an action.
abbrev pub wrapped : {S A : Type 0} → String → Action S A → Action S A
wrapped text m s = let (r, s') = m s in (wrap r text, s')

abbrev pub show_sysctl : SysctlError → String
show_sysctl (not_there text) = text
show_sysctl (io_failed _ text) = text
show_sysctl (failed text) = text

abbrev pub sysctl_error : SysctlError → NetavarkError
sysctl_error e = sysctl (show_sysctl e)

-- The port of the variable NETAVARK_DNS_PORT, if it is set.
abbrev pub get_netavark_dns_port : (String → Result String ℕ) → Option String → NetavarkResult ℕ
get_netavark_dns_port parse_u16 none = ok 53
get_netavark_dns_port parse_u16 (some port_string) =
    map_err (λ e. message ("Invalid NETAVARK_DNS_PORT " <> (port_string <> (": " <> e))))
      (parse_u16 port_string)

-- The value of an option, as text.
abbrev pub option_value : Option (Dict String) → String → Option String
option_value none name = none
option_value (some opts) name = lookup name opts

-- `parse_option`, for each type that it is used at, with that type's `parse`.
abbrev pub parse_option :
    {A : Type 0} → (String → Result String A) → Option (Dict String) → String → A → NetavarkResult A
parse_option parse opts name default = elim (option_value opts name) [
  | none ↦ ok default
  | some val ↦ map_err (λ e. message ("unable to parse \"" <> (name <> ("\": " <> e)))) (parse val)
]

-- The numbers of `netlink_packet_route`: private 1, vepa 2, bridge 4, passthru 8, source 16.
unfoldable pub get_macvlan_mode_from_string : String → NetavarkResult ℕ
get_macvlan_mode_from_string mode =
    if str_eq mode "" || str_eq mode "bridge"
    then ok 4
    else if str_eq mode "private"
    then ok 1
    else if str_eq mode "vepa"
    then ok 2
    else if str_eq mode "passthru"
    then ok 8
    else if str_eq mode "source"
    then ok 16
    else err (msg ("invalid macvlan mode \"" <> (mode <> "\"")))

unfoldable pub get_ipvlan_mode_from_string : String → NetavarkResult ℕ
get_ipvlan_mode_from_string mode =
    if str_eq mode "" || str_eq mode "l2"
    then ok 0
    else if str_eq mode "l3"
    then ok 1
    else if str_eq mode "l3s"
    then ok 2
    else err (msg ("invalid ipvlan mode \"" <> (mode <> "\"")))

unfoldable pub encode_address_to_hex : List ℕ → String
encode_address_to_hex bytes = join ":" (map format_02x bytes)

-- The closure of `split`.
abbrev pub is_separator : Char → Bool
is_separator c = code c == b':' || code c == b'-'

-- `collect` on results: the first error, or all values.
unfoldable pub parse_bytes : List String → Result String (List ℕ)
parse_bytes [] = ok []
parse_bytes (b ∷ bs) = elim (from_str_radix b 16) [
  | err e ↦ err e
  | ok n ↦ map_ok (λ ns. n ∷ ns) (parse_bytes bs)
]

unfoldable pub decode_address_from_hex : String → Result IoError (List ℕ)
unfolding parse_bytes
decode_address_from_hex input = elim (parse_bytes (split is_separator input)) [
  | err e ↦
      err (record { kind = other; text = "unable to parse mac address " <> (input <> (": " <> e)) })
  | ok bytes ↦
      if length bytes == 6
      then ok bytes
      else err (record { kind = other; text = "invalid mac length for address: " <> input })
]

module _ (text : TextLib) where
  unfoldable pub create_network_hash : String → ℕ → String
  create_network_hash network_name length = text.prefix (text.sha512 network_name) length

module _ (K : Kernel) where
  -- The value is set only if it differs.
  unfoldable pub apply_sysctl_value :
      String → String → K.State → Result SysctlError String × K.State
  apply_sysctl_value ns_value val s = elim (K.sysctl_new ns_value s) [
    | err e ↦ (err e, s)
    | ok _ ↦ elim (K.sysctl_value ns_value s) [
      | err e ↦ (err e, s)
      | ok result ↦ if str_eq result val then (ok result, s) else K.sysctl_set ns_value val s
    ]
  ]

  -- The call with `?`, where the value is not used.
  unfoldable pub apply_sysctl : String → String → Action K.State Unit
  unfolding apply_sysctl_value
  apply_sysctl ns_value val = do _ ← change sysctl_error (apply_sysctl_value ns_value val); pure tt

  unfoldable pub join_netns : ℕ → Action K.State Unit
  join_netns fd = change (λ e. wrap_error "setns" (io e)) (K.setns fd)

  -- A failure is ignored if the value is not there, or if /proc is read-only: EROFS is 30.
  abbrev pub is_ignored : SysctlError → Bool
  is_ignored (not_there _) = true
  is_ignored (io_failed errno _) = errno == 30
  is_ignored (failed _) = false

  unfoldable pub disable_ipv6_autoconf : String → Action K.State Unit
  disable_ipv6_autoconf if_name s =
      let (result, s') =
        apply_sysctl_value ("/proc/sys/net/ipv6/conf/" <> (if_name <> "/autoconf")) "0" s in
      elim result [
        | ok _ ↦ (ok tt, s')
        | err e ↦
            if is_ignored e
            then (ok tt, s')
            else (err (wrap_error "failed to set autoconf sysctl" (sysctl_error e)), s')
      ]

  -- `exec_netns!` where the code in the namespace gives its result as a value.
  unfoldable pub exec_netns : {A : Type 0} → ℕ → ℕ → Action K.State A → Action K.State A
  unfolding join_netns
  exec_netns host netns exec = do
    join_netns netns
    res ← (λ s. let (r, s') = exec s in (ok r, s'))
    join_netns host
    lift res

  abbrev pub any_v4 : IpNet
  any_v4 = record { addr = v4 0; prefix_len = 0 }

  abbrev pub any_v6 : IpNet
  any_v6 = record { addr = v6 0; prefix_len = 0 }

  abbrev pub default_route : IpNet → Option ℕ → Route
  default_route gw metric =
      if is_ipv6 gw.addr then ipv6 any_v6 gw.addr metric else ipv4 any_v4 gw.addr metric

  -- The loop, with whether a route of each family was added.
  unfoldable pub add_routes :
      TextLib → Side → Bool → Bool → List IpNet → Option ℕ → Action K.State Unit
  add_routes text side has_v4 has_v6 [] metric s = (ok tt, s)
  add_routes text side has_v4 has_v6 (gw ∷ gws) metric s =
      if if is_ipv6 gw.addr then has_v6 else has_v4
      then add_routes text side has_v4 has_v6 gws metric s
      else (let route = default_route gw metric in
          let (r, s') =
            wrapped ("add default route " <> text.show_route route) (K.add_route side route) s in
          elim r [
            | err e ↦ (err e, s')
            | ok _ ↦
                add_routes text side (has_v4 || not (is_ipv6 gw.addr)) (has_v6 || is_ipv6 gw.addr)
                  gws metric s'
          ])

  unfoldable pub add_default_routes : TextLib → Side → List IpNet → Option ℕ → Action K.State Unit
  unfolding add_routes
  add_default_routes text side gws metric = add_routes text side false false gws metric
