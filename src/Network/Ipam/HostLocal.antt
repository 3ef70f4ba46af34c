-- ===== src/Network/Ipam/HostLocal.antt =====
-- About `get_ipam_addresses` with the driver `host-local`: which address each subnet gets.
use netavark.Prelude.{
  ℕ, suc, zero, ◌≡◌, refl, ◌∙◌, false, none, some, List, [], ◌∷◌, ok, get_elem?, drop, leb, length,
  inl, inr, arith, if◌then◌else◌, ◌⊎◌,
}
use netavark.Network.Types.{IpAddr, Subnet, Network, PerNetworkOptions}
use netavark.Network.Internal.{IpamAddresses}
use netavark.Network.Text.{NetText}
use netavark.Network.Ipam.{
  add_subnets, no_addresses, ipam_driver, subnets_of, host_local, ipam_hostlocal,
  get_ipam_addresses,
}
use netavark.Network.Ipam.Zipped.{
  IsLawful, Fits, addresses, net_addresses_of, gateways, nameservers_of, has_ipv6, collected,
  collected_end, collected-one, one, add_subnet-Fits, add_subnet_panics,
}

-- The elements from an index on, and the element at it.
get_elem?-drop {ℓ} :
    {A : Type ℓ} (xs : List A) (i : ℕ) (y : A) (ys : List A)
    → drop i xs ≡ y ∷ ys
    → (get_elem? xs i ≡ some y) × (drop (suc i) xs ≡ ys)
get_elem?-drop [] zero y ys h = ground (arith, h)
get_elem?-drop [] (suc i) y ys h = ground (arith, h)
get_elem?-drop (x ∷ xs) zero y ys h = ground (arith, h)
get_elem?-drop (x ∷ xs) (suc i) y ys h = get_elem?-drop xs i y ys h

get_elem?-drop_end {ℓ} : {A : Type ℓ} (xs : List A) (i : ℕ) → drop i xs ≡ [] → get_elem? xs i ≡ none
get_elem?-drop_end [] zero h = refl
get_elem?-drop_end [] (suc i) h = refl
get_elem?-drop_end (x ∷ xs) zero h = ground (arith, h)
get_elem?-drop_end (x ∷ xs) (suc i) h = get_elem?-drop_end xs i h

module _ (text : NetText) (L : IsLawful text) where
  add_subnets-Fits :
      (static_ips : List IpAddr) (idx : ℕ) (subnets : List Subnet) (acc : IpamAddresses)
      (ips : List IpAddr)
      → drop idx static_ips ≡ ips
      → Fits text L ips subnets
      → add_subnets text static_ips idx subnets acc ≡ (
          if leb (length subnets) (length ips)
          then some (ok (collected text L acc ips subnets))
          else none)
  unfolding add_subnets
  add_subnets-Fits static_ips idx [] acc ips h f = ground (arith, collected_end text L acc ips)
  add_subnets-Fits static_ips idx (subnet ∷ subnets) acc [] h f =
      rw
        (
          add_subnet_panics text L static_ips idx subnet acc (get_elem?-drop_end static_ips idx h)
              f.0,
          add_subnets,
        )
        (ground arith)
  add_subnets-Fits static_ips idx (subnet ∷ subnets) acc (ip ∷ ips) h f =
      let (here, rest) = get_elem?-drop static_ips idx ip ips h in
      rw (add_subnet-Fits text L static_ips idx ip subnet acc here f.0.0 f.0.1, add_subnets)
        (add_subnets-Fits static_ips (suc idx) subnets (one text L ip subnet acc) ips rest f.1
          ∙ ground (arith, collected-one text L ip subnet acc ips subnets))

  -- The addresses of a container on a network that names no IPAM driver, or `host-local`, where
  -- the gateways and the static addresses fit their subnets' prefix lengths. With an address for
  -- each subnet, subnet i gets address i with its own prefix length; the gateways and the
  -- nameservers are those of the subnets that have a gateway; and IPv6 is on if a subnet is an
  -- IPv6 one. With fewer addresses than subnets the program panics.
  pub get_ipam_addresses_lem :
      (opts : PerNetworkOptions) (network : Network) (static_ips : List IpAddr)
      → (ipam_driver network.ipam_options ≡ none)
        ⊎ (ipam_driver network.ipam_options ≡ some ipam_hostlocal)
      → opts.static_ips ≡ some static_ips
      → Fits text L static_ips (subnets_of network.subnets)
      → get_ipam_addresses text opts network ≡ (
          if leb (length (subnets_of network.subnets)) (length static_ips)
          then some (
              ok (record (no_addresses false) {
                container_addresses = addresses static_ips (subnets_of network.subnets);
                gateway_addresses = gateways (subnets_of network.subnets);
                ipv6_enabled = has_ipv6 (subnets_of network.subnets);
                net_addresses = net_addresses_of static_ips (subnets_of network.subnets);
                nameservers = nameservers_of (subnets_of network.subnets);
              }))
          else none)
  unfolding get_ipam_addresses host_local
  get_ipam_addresses_lem opts network static_ips (inl d) e f =
      rw (d, e, get_ipam_addresses, host_local)
        (add_subnets-Fits static_ips 0 (subnets_of network.subnets) (no_addresses false) static_ips
          refl f)
  get_ipam_addresses_lem opts network static_ips (inr d) e f =
      rw (d, e, get_ipam_addresses, host_local)
        (add_subnets-Fits static_ips 0 (subnets_of network.subnets) (no_addresses false) static_ips
          refl f)
