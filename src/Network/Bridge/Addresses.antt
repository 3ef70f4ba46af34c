-- ===== src/Network/Bridge/Addresses.antt =====
-- About `get_firewall_conf`: the addresses that the ports are forwarded to.
use netavark.Prelude.{
  ◌≡◌, Bool, true, false, Option, none, some, List, [], ◌∷◌, arith, if◌then◌else◌,
}
use netavark.Network.Types.{IpAddr, is_ipv6, IpNet}
use netavark.Network.Kernel.{TextLib}
use netavark.Network.Machine.{DriverInfo}
use netavark.Network.Bridge.Firewall.{
  Addresses, no_addresses, see_address, find_addresses, get_firewall_conf,
}

-- The first network of a family.
abbrev pub first_of : Bool → List IpNet → Option IpNet
first_of is_v6 [] = none
first_of true (net ∷ nets) = if is_ipv6 net.addr then some net else first_of true nets
first_of false (net ∷ nets) = if is_ipv6 net.addr then first_of false nets else some net

abbrev pub addr_of : Option IpNet → Option IpAddr
addr_of none = none
addr_of (some net) = some net.addr

-- What the loop ends with, from what it had and what it finds.
abbrev pub or_found : {A : Type 0} → Bool → Option A → Option A → Option A
or_found true old found = old
or_found false old none = old
or_found false old (some a) = some a

module _ (text : TextLib) where
  abbrev pub network_of : Option IpNet → Option IpNet
  network_of none = none
  network_of (some net) = some (text.network net)

  find_addresses-v4 :
      (nets : List IpNet) (f : Addresses)
      → let g = find_addresses text nets f in
        (g.addr_v4 ≡ or_found f.has_ipv4 f.addr_v4 (addr_of (first_of false nets)))
        × (g.net_v4 ≡ or_found f.has_ipv4 f.net_v4 (network_of (first_of false nets)))
  unfolding find_addresses
  find_addresses-v4 [] f = ground arith
  find_addresses-v4 (net ∷ nets) f = ground (arith, find_addresses-v4 nets (see_address text net f))

  find_addresses-v6 :
      (nets : List IpNet) (f : Addresses)
      → let g = find_addresses text nets f in
        (g.addr_v6 ≡ or_found f.has_ipv6 f.addr_v6 (addr_of (first_of true nets)))
        × (g.net_v6 ≡ or_found f.has_ipv6 f.net_v6 (network_of (first_of true nets)))
  unfolding find_addresses
  find_addresses-v6 [] f = ground arith
  find_addresses-v6 (net ∷ nets) f = ground (arith, find_addresses-v6 nets (see_address text net f))

  -- The ports of a container are forwarded to its first address of each family, which is matched
  -- with the network of that address; a family that it has no address of gets none.
  pub get_firewall_conf_lem :
      (info : DriverInfo) (nets : List IpNet) (nameservers : List IpAddr) (isolate : Bool)
      → let spf = (get_firewall_conf text info nets nameservers isolate).1 in
        (spf.container_ip_v4 ≡ addr_of (first_of false nets))
        × ((spf.subnet_v4 ≡ network_of (first_of false nets))
            × ((spf.container_ip_v6 ≡ addr_of (first_of true nets))
                × (spf.subnet_v6 ≡ network_of (first_of true nets))))
  unfolding get_firewall_conf
  get_firewall_conf_lem info nets nameservers isolate =
      ground (arith, find_addresses-v4 nets no_addresses, find_addresses-v6 nets no_addresses)
