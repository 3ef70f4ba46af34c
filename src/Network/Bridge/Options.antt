-- ===== src/Network/Bridge/Options.antt =====
-- `validate` of the bridge driver: the options are read before anything is set up.
use netavark.Prelude.{
  ℕ, String, Bool, false, Option, none, some, List, Result, ok, err, map_err, map_ok, str_eq,
  if◌then◌else◌,
}
use netavark.Error.{NetavarkResult, msg, io}
use netavark.Network.Internal.{IpamAddresses}
use netavark.Network.Text.{NetText}
use netavark.Network.Ipam.{get_ipam_addresses}
use netavark.Network.Kernel.{TextLib}
use netavark.Network.CoreUtils.{parse_option, decode_address_from_hex}
use netavark.Network.Machine.{DriverInfo}

pub record InternalData : Type 0 where
  pub container_interface_name : String
  pub bridge_interface_name : String
  pub mac_address : Option (List ℕ)
  pub ipam : IpamAddresses
  pub mtu : ℕ
  pub isolate : Bool
  pub metric : Option ℕ

abbrev pub no_container_interface_error : String
no_container_interface_error = "no container interface name given"

abbrev pub no_bridge_name_error : String
no_bridge_name_error = "no bridge interface name given"

abbrev pub get_interface_name : Option String → NetavarkResult String
get_interface_name none = err (msg no_bridge_name_error)
get_interface_name (some n) = if str_eq n "" then err (msg no_bridge_name_error) else ok n

-- `?` on a result.
abbrev pub and_then {ℓ} :
    {E : Type 0} {A : Type 0} {B : Type ℓ} → Result E A → (E → B) → (A → B) → B
and_then (ok a) f g = g a
and_then (err e) f g = f e

module _ (net_text : NetText) (text : TextLib) where
  unfoldable pub read_mac : Option String → NetavarkResult (Option (List ℕ))
  read_mac none = ok none
  read_mac (some mac) = map_ok some (map_err io (decode_address_from_hex mac))

  -- What follows the reading of the addresses.
  unfoldable pub read_options : DriverInfo → String → IpamAddresses → NetavarkResult InternalData
  read_options info bridge_name ipam =
      let options = info.network.options in
      and_then (parse_option text.parse_u32 options "mtu" 0) err λ mtu.
        and_then (parse_option text.parse_bool options "isolate" false) err λ isolate.
          and_then (parse_option text.parse_u32 options "metric" 100) err λ metric.
            and_then (read_mac info.per_network_opts.static_mac) err λ static_mac. ok (record {
              container_interface_name = info.per_network_opts.interface_name;
              bridge_interface_name = bridge_name;
              mac_address = static_mac;
              ipam = ipam;
              mtu = mtu;
              isolate = isolate;
              metric = some metric;
            })

  -- `none` is the panic of `get_ipam_addresses`.
  unfoldable pub validate : DriverInfo → Option (NetavarkResult InternalData)
  unfolding read_options
  validate info = elim (get_interface_name info.network.network_interface) [
    | err e ↦ some (err e)
    | ok bridge_name ↦
        if str_eq info.per_network_opts.interface_name ""
        then some (err (msg no_container_interface_error))
        else elim (get_ipam_addresses net_text info.per_network_opts info.network) [
          | none ↦ none
          | some (err e) ↦ some (err (io e))
          | some (ok ipam) ↦ some (read_options info bridge_name ipam)
        ]
  ]
