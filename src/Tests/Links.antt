-- ===== src/Tests/Links.antt =====
-- The links of a vlan network, the default routes and a MAC address, at concrete inputs.
use netavark.Prelude.{
  arith, ℕ, is_ok, ◌≡◌, refl, true, false, none, some, List, [], ◌∷◌, ok, contains,
}
use netavark.Network.Types.{v4, v6}
use netavark.Network.Netlink.Types.{mac_vlan, new_options, CreateLinkOptions}
use netavark.Network.Kernel.{Kernel, netns_side}
use netavark.Prelude.Hex.{split, to_digit, read_digits, from_str_radix, format_02x}
use netavark.Network.CoreUtils.{
  encode_address_to_hex, parse_bytes, decode_address_from_hex, add_default_routes,
}
use netavark.Network.CoreUtils.Routes.{add_default_routes_lem}
use netavark.Network.CoreUtils.Mac.{decode-encode}
use netavark.Network.Vlan.Options.{mac_vlan as kind_mac_vlan}
use netavark.Network.Vlan.Links.{rename_link, create_rounds, create}
use netavark.Network.Vlan.Creation.{create_lem}
use netavark.Action.{for_each}
use netavark.Tests.Kernel.{small_kernel, small-LinkNames, small_text}

abbrev eth0 : CreateLinkOptions
eth0 = record (new_options "eth0" mac_vlan) { netns = some 4 }

-- The name is taken on the host, so that a temporary name is used.
create_lem_example :
    contains "eth0"
      (create (small_kernel false false) (λ i. "abc") (kind_mac_vlan none 4) eth0 (3, [])).1.1
    ≡ true
unfolding create create_rounds rename_link
create_lem_example =
    create_lem (small_kernel false false) small-LinkNames (λ i. "abc") (kind_mac_vlan none 4) eth0 4
      (3, []) refl refl

-- The gateways that routes were added through.
abbrev routing : Kernel
routing = record (small_kernel false false) {
  add_route = λ side r s. (ok tt, (s.0, small_text.show_route r ∷ s.1));
}

add_default_routes_lem_example :
    (add_default_routes routing small_text netns_side
      (record { addr = v4 1; prefix_len = 8 }
        ∷ record { addr = v4 2; prefix_len = 8 }
        ∷ record { addr = v6 3; prefix_len = 8 }
        ∷ [])
      none
      (3, []))
    ≡ (ok tt, (3, "route" ∷ "route" ∷ []))
unfolding for_each
add_default_routes_lem_example =
    add_default_routes_lem routing small_text netns_side none
      (record { addr = v4 1; prefix_len = 8 }
        ∷ record { addr = v4 2; prefix_len = 8 }
        ∷ record { addr = v6 3; prefix_len = 8 }
        ∷ [])
      (3, [])

abbrev mac : List ℕ
mac = 10 ∷ 0 ∷ 255 ∷ 28 ∷ 210 ∷ 7 ∷ []

decode-encode_example :
    (decode_address_from_hex (encode_address_to_hex mac) ≡ ok mac)
    × (decode_address_from_hex "0a-00-ff-1c-d2-07" ≡ ok mac)
unfolding format_02x
decode-encode_example = decode-encode 10 (0 ∷ 255 ∷ 28 ∷ 210 ∷ 7 ∷ []) (
  ground arith,
  (ground arith, (ground arith, (ground arith, (ground arith, (ground arith, tt))))),
)

-- Capitals, a plus sign, an empty piece and a number that is too large.
reading :
    (decode_address_from_hex "0A:+0:ff:1c:d2:7" ≡ ok mac)
    × (is_ok (decode_address_from_hex "") ≡ false)
    × (is_ok (decode_address_from_hex "0a:00:ff:1c:d2:107") ≡ false)
unfolding decode_address_from_hex parse_bytes split from_str_radix read_digits to_digit
reading = (refl, refl, refl)
