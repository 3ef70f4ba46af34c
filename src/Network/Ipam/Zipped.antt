-- ===== src/Network/Ipam/Zipped.antt =====
-- About one subnet in `get_ipam_addresses` with the driver `host-local`, and what the subnets give
-- together.
use mathlib.Core.List.{append_assoc, append-nil}
use netavark.Prelude.{
  ℕ, ◌<>◌, ◌≡◌, refl, Bool, true, false, ◌||◌, Option, none, some, List, [], ◌∷◌, ◌++◌, ok,
  get_elem?, show_ℕ, if◌then◌else◌,
}
use netavark.Network.Types.{IpAddr, is_ipv6, IpNet, Subnet, NetAddress}
use netavark.Network.Internal.{IpamAddresses}
use netavark.Network.Text.{NetText}
use netavark.Network.Ipam.{add_subnet, with_gateway, with_address, with_ipv6}

abbrev pub net_of : IpAddr → Subnet → IpNet
net_of ip subnet = record { addr = ip; prefix_len = subnet.subnet.prefix_len }

-- Each subnet's static address, with the prefix length of the subnet.
abbrev pub addresses : List IpAddr → List Subnet → List IpNet
addresses (ip ∷ ips) (subnet ∷ subnets) = net_of ip subnet ∷ addresses ips subnets
addresses _ _ = []

abbrev pub net_addresses_of : List IpAddr → List Subnet → List NetAddress
net_addresses_of (ip ∷ ips) (subnet ∷ subnets) =
    record { gateway = subnet.gateway; ipnet = net_of ip subnet } ∷ net_addresses_of ips subnets
net_addresses_of _ _ = []

abbrev pub gateway_of : Option IpAddr → ℕ → List IpNet
gateway_of none n = []
gateway_of (some gw) n = record { addr = gw; prefix_len = n } ∷ []

abbrev pub gateways : List Subnet → List IpNet
gateways [] = []
gateways (subnet ∷ subnets) = gateway_of subnet.gateway subnet.subnet.prefix_len ++ gateways subnets

abbrev pub nameserver_of : Option IpAddr → List IpAddr
nameserver_of none = []
nameserver_of (some gw) = gw ∷ []

abbrev pub nameservers_of : List Subnet → List IpAddr
nameservers_of [] = []
nameservers_of (subnet ∷ subnets) = nameserver_of subnet.gateway ++ nameservers_of subnets

abbrev pub has_ipv6 : List Subnet → Bool
has_ipv6 [] = false
has_ipv6 (subnet ∷ subnets) = is_ipv6 subnet.subnet.addr || has_ipv6 subnets

-- What is assumed: an address and a prefix length that fit make a network, and its text parses.
pub record IsLawful (text : NetText) : Type 0 where
  pub fits : IpAddr → ℕ → Bool
  pub new_net_fits :
      (ip : IpAddr) (n : ℕ)
      → fits ip n ≡ true
      → text.new_net ip n ≡ ok (record { addr = ip; prefix_len = n })
  pub parse_net_fits :
      (ip : IpAddr) (n : ℕ)
      → fits ip n ≡ true
      → text.parse_net (text.show_ip ip <> ("/" <> show_ℕ n))
        ≡ ok (record { addr = ip; prefix_len = n })

module _ (text : NetText) (L : IsLawful text) where
  -- The gateway of each subnet fits its prefix length, and so does each static address.
  abbrev pub FitsGateway : Option IpAddr → ℕ → Type 0
  FitsGateway none n = Unit
  FitsGateway (some gw) n = L.fits gw n ≡ true

  abbrev pub Fits : List IpAddr → List Subnet → Type 0
  Fits ips [] = Unit
  Fits [] (subnet ∷ subnets) = FitsGateway subnet.gateway subnet.subnet.prefix_len × Fits [] subnets
  Fits (ip ∷ ips) (subnet ∷ subnets) =
      (FitsGateway subnet.gateway subnet.subnet.prefix_len
        × (L.fits ip subnet.subnet.prefix_len ≡ true))
      × Fits ips subnets

  abbrev pub gated : Option IpAddr → ℕ → IpamAddresses → IpamAddresses
  gated gateway n acc = record acc {
    gateway_addresses = acc.gateway_addresses ++ gateway_of gateway n;
    nameservers = acc.nameservers ++ nameserver_of gateway;
  }

  with_gateway-Fits :
      (gateway : Option IpAddr) (n : ℕ) (acc : IpamAddresses)
      → FitsGateway gateway n
      → with_gateway text gateway n acc ≡ ok (gated gateway n acc)
  with_gateway-Fits none n acc f =
      rw (append-nil acc.gateway_addresses, append-nil acc.nameservers) refl
  with_gateway-Fits (some gw) n acc f = rw (L.new_net_fits gw n f, with_gateway) refl

  -- The accumulated addresses with those of some subnets behind them.
  abbrev pub collected : IpamAddresses → List IpAddr → List Subnet → IpamAddresses
  collected acc ips subnets = record acc {
    container_addresses = acc.container_addresses ++ addresses ips subnets;
    gateway_addresses = acc.gateway_addresses ++ gateways subnets;
    ipv6_enabled = acc.ipv6_enabled || has_ipv6 subnets;
    net_addresses = acc.net_addresses ++ net_addresses_of ips subnets;
    nameservers = acc.nameservers ++ nameservers_of subnets;
  }

  abbrev pub one : IpAddr → Subnet → IpamAddresses → IpamAddresses
  one ip subnet acc =
      with_address text subnet (net_of ip subnet)
        (with_ipv6 text subnet (gated subnet.gateway subnet.subnet.prefix_len acc))

  or_assoc : (a b c : Bool) → ((if a then true else b) || c) ≡ (b || (a || c))
  or_assoc true true c = refl
  or_assoc true false c = refl
  or_assoc false true c = refl
  or_assoc false false c = refl

  or-false : (a : Bool) → (a || false) ≡ a
  or-false true = refl
  or-false false = refl

  pub collected-one :
      (ip : IpAddr) (subnet : Subnet) (acc : IpamAddresses) (ips : List IpAddr)
      (subnets : List Subnet)
      → collected (one ip subnet acc) ips subnets ≡ collected acc (ip ∷ ips) (subnet ∷ subnets)
  collected-one ip subnet acc ips subnets =
      rw
        (
          append_assoc acc.container_addresses (net_of ip subnet ∷ []) (addresses ips subnets),
          append_assoc acc.gateway_addresses (gateway_of subnet.gateway subnet.subnet.prefix_len)
              (gateways subnets),
          append_assoc acc.nameservers (nameserver_of subnet.gateway) (nameservers_of subnets),
          append_assoc acc.net_addresses _ (net_addresses_of ips subnets),
          or_assoc (is_ipv6 subnet.subnet.addr) acc.ipv6_enabled (has_ipv6 subnets),
        )
        refl

  addresses_end : (ips : List IpAddr) → (addresses ips [] ≡ []) × (net_addresses_of ips [] ≡ [])
  addresses_end [] = (refl, refl)
  addresses_end (ip ∷ ips) = (refl, refl)

  pub collected_end : (acc : IpamAddresses) (ips : List IpAddr) → collected acc ips [] ≡ acc
  collected_end acc ips =
      rw
        (
          (addresses_end ips).0,
          (addresses_end ips).1,
          append-nil acc.container_addresses,
          append-nil acc.gateway_addresses,
          append-nil acc.net_addresses,
          append-nil acc.nameservers,
          or-false acc.ipv6_enabled,
        )
        refl

  pub add_subnet-Fits :
      (static_ips : List IpAddr) (idx : ℕ) (ip : IpAddr) (subnet : Subnet) (acc : IpamAddresses)
      → get_elem? static_ips idx ≡ some ip
      → FitsGateway subnet.gateway subnet.subnet.prefix_len
      → L.fits ip subnet.subnet.prefix_len ≡ true
      → add_subnet text static_ips idx subnet acc ≡ some (ok (one ip subnet acc))
  unfolding add_subnet
  add_subnet-Fits static_ips idx ip subnet acc e f g =
      rw
        (
          with_gateway-Fits subnet.gateway subnet.subnet.prefix_len acc f,
          e,
          L.parse_net_fits ip subnet.subnet.prefix_len g,
          add_subnet,
        )
        refl

  pub add_subnet_panics :
      (static_ips : List IpAddr) (idx : ℕ) (subnet : Subnet) (acc : IpamAddresses)
      → get_elem? static_ips idx ≡ none
      → FitsGateway subnet.gateway subnet.subnet.prefix_len
      → add_subnet text static_ips idx subnet acc ≡ none
  unfolding add_subnet
  add_subnet_panics static_ips idx subnet acc e f =
      rw (with_gateway-Fits subnet.gateway subnet.subnet.prefix_len acc f, e, add_subnet) refl
