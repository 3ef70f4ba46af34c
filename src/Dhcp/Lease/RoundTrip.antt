-- ===== src/Dhcp/Lease/RoundTrip.antt =====
-- About the conversions of leases.
use netavark.Prelude.{ℕ, String, ◌≤◌, ◌≡◌, refl, Option, none, some, List, [], ◌∷◌, map, ok, arith}
use netavark.Dhcp.Lease.{
  DhcpV4Lease, Ipv4Text, or_default, non_empty, handle_ip_vectors, from_mozim, parse_all,
  to_v4_addrs, to_mozim, to_u16,
}

-- A list that is empty is nothing.
abbrev pub non_empty_list : Option (List ℕ) → Option (List ℕ)
non_empty_list (some (a ∷ more)) = some (a ∷ more)
non_empty_list _ = none

abbrev pub non_empty_text : Option String → Option String
non_empty_text none = none
non_empty_text (some t) = non_empty t

-- What a lease keeps: the broadcast address is lost, an absent MTU is 0, and what is empty is
-- nothing.
abbrev pub kept : DhcpV4Lease → DhcpV4Lease
kept l = record l {
  broadcast_addr = none;
  dns_srvs = non_empty_list l.dns_srvs;
  gateways = non_empty_list l.gateways;
  ntp_srvs = non_empty_list l.ntp_srvs;
  mtu = some (or_default 0 l.mtu);
  host_name = non_empty_text l.host_name;
  domain_name = non_empty_text l.domain_name;
}

-- Addresses are read as they are printed.
abbrev pub ReadsBack : Ipv4Text → Type 0
ReadsBack text = (n : ℕ) → text.parse_ipv4 (text.show_ipv4 n) ≡ ok n

module _ (text : Ipv4Text) (L : ReadsBack text) where
  parse_all-map : (ips : List ℕ) → parse_all text (map text.show_ipv4 ips) ≡ ok ips
  parse_all-map [] = refl
  parse_all-map (i ∷ ips) = rw (L i, parse_all-map ips) refl

  to_v4_addrs-handle_ip_vectors :
      (ips : Option (List ℕ))
      → to_v4_addrs text (handle_ip_vectors text ips) ≡ ok (non_empty_list ips)
  to_v4_addrs-handle_ip_vectors none = refl
  to_v4_addrs-handle_ip_vectors (some []) = refl
  to_v4_addrs-handle_ip_vectors (some (i ∷ ips)) = rw (L i, parse_all-map ips) refl

  non_empty-or_default : (t : Option String) → non_empty (or_default "" t) ≡ non_empty_text t
  non_empty-or_default none = refl
  non_empty-or_default (some t) = refl

  to_u16-fits : (n : ℕ) → n ≤ 65535 → to_u16 text n ≡ ok n
  to_u16-fits n h = ground (arith, h)

  -- If addresses are read as they are printed and the MTU is a 16-bit number, then a lease of the
  -- DHCP library that was put into the protocol's form is read back as what the form keeps of it.
  pub to_mozim-from_mozim :
      (l : DhcpV4Lease)
      → or_default 0 l.mtu ≤ 65535
      → to_mozim text (from_mozim text l) ≡ ok (kept l)
  unfolding to_mozim from_mozim
  to_mozim-from_mozim l h =
      rw
        (
          to_u16-fits (or_default 0 l.mtu) h,
          L l.siaddr,
          L l.yiaddr,
          L l.srv_id,
          L l.subnet_mask,
          to_v4_addrs-handle_ip_vectors l.dns_srvs,
          to_v4_addrs-handle_ip_vectors l.gateways,
          to_v4_addrs-handle_ip_vectors l.ntp_srvs,
          non_empty-or_default l.host_name,
          non_empty-or_default l.domain_name,
        )
        refl
