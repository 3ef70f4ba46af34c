-- ===== src/Dhcp/Lease.antt =====
-- The conversions of `src/dhcp_proxy/lib.rs` between the lease of the protocol and that of the
-- `mozim` crate, whose fields are those that the code uses. An IPv4 address is a number.
pub mod RoundTrip
use netavark.Prelude.{
  ℕ, String, Bool, true, false, not, Option, none, some, List, [], ◌∷◌, map, Result, ok, err,
  map_ok, try_ok, leb, str_eq, if◌then◌else◌,
}
use netavark.Dhcp.Cache.{Lease as NetavarkLease}

pub record DhcpV4Lease : Type 0 where
  pub siaddr : ℕ
  pub yiaddr : ℕ
  pub t1 : ℕ
  pub t2 : ℕ
  pub lease_time : ℕ
  pub srv_id : ℕ
  pub subnet_mask : ℕ
  pub broadcast_addr : Option ℕ
  pub dns_srvs : Option (List ℕ)
  pub gateways : Option (List ℕ)
  pub ntp_srvs : Option (List ℕ)
  pub mtu : Option ℕ
  pub host_name : Option String
  pub domain_name : Option String

-- `Ipv4Addr::from_str` and `to_string`, with the text of the error, and that of a number that is
-- no `u16`.
pub record Ipv4Text : Type 0 where
  pub parse_ipv4 : String → Result String ℕ
  pub show_ipv4 : ℕ → String
  pub no_u16 : String

-- `unwrap_or`
abbrev pub or_default {ℓ} : {A : Type ℓ} → A → Option A → A
or_default d none = d
or_default d (some a) = a

-- An empty text is nothing.
abbrev pub non_empty : String → Option String
non_empty t = if str_eq t "" then none else some t

module _ (text : Ipv4Text) where
  abbrev pub handle_ip_vectors : Option (List ℕ) → List String
  handle_ip_vectors none = []
  handle_ip_vectors (some ips) = map text.show_ipv4 ips

  -- `From<DhcpV4Lease>`
  unfoldable pub from_mozim : DhcpV4Lease → NetavarkLease
  from_mozim l = record {
    t1 = l.t1;
    t2 = l.t2;
    lease_time = l.lease_time;
    mtu = or_default 0 l.mtu;
    domain_name = or_default "" l.domain_name;
    mac_address = "";
    is_v6 = false;
    siaddr = text.show_ipv4 l.siaddr;
    yiaddr = text.show_ipv4 l.yiaddr;
    srv_id = text.show_ipv4 l.srv_id;
    subnet_mask = text.show_ipv4 l.subnet_mask;
    broadcast_addr = "";
    dns_servers = handle_ip_vectors l.dns_srvs;
    gateways = handle_ip_vectors l.gateways;
    ntp_servers = handle_ip_vectors l.ntp_srvs;
    host_name = or_default "" l.host_name;
  }

  abbrev pub add_mac_address : String → NetavarkLease → NetavarkLease
  add_mac_address mac_addr l = record l { mac_address = mac_addr }

  abbrev pub add_domain_name : String → NetavarkLease → NetavarkLease
  add_domain_name domain_name l = record l { domain_name = domain_name }

  abbrev pub parse_all : List String → Result String (List ℕ)
  parse_all [] = ok []
  parse_all (ip ∷ ips) = try_ok (text.parse_ipv4 ip) (λ i. map_ok (λ is. i ∷ is) (parse_all ips))

  -- No addresses are nothing.
  abbrev pub to_v4_addrs : List String → Result String (Option (List ℕ))
  to_v4_addrs [] = ok none
  to_v4_addrs (ip ∷ ips) = map_ok some (parse_all (ip ∷ ips))

  abbrev pub parse_broadcast : String → Result String (Option ℕ)
  parse_broadcast t = if not (str_eq t "") then map_ok some (text.parse_ipv4 t) else ok none

  -- `u16::try_from`
  abbrev pub to_u16 : ℕ → Result String ℕ
  to_u16 n = if leb n 65535 then ok n else err text.no_u16

  -- `TryFrom<Lease>`. The result is the text of a `ProxyError`.
  unfoldable pub to_mozim : NetavarkLease → Result String DhcpV4Lease
  to_mozim l = try_ok (parse_broadcast l.broadcast_addr) λ broadcast_addr.
      try_ok (to_u16 l.mtu) λ mtu. try_ok (text.parse_ipv4 l.siaddr) λ siaddr.
        try_ok (text.parse_ipv4 l.yiaddr) λ yiaddr. try_ok (text.parse_ipv4 l.srv_id) λ srv_id.
          try_ok (text.parse_ipv4 l.subnet_mask) λ subnet_mask.
            try_ok (to_v4_addrs l.dns_servers) λ dns_srvs.
              try_ok (to_v4_addrs l.gateways) λ gateways.
                try_ok (to_v4_addrs l.ntp_servers) λ ntp_srvs. ok (record {
                  siaddr = siaddr;
                  yiaddr = yiaddr;
                  t1 = l.t1;
                  t2 = l.t2;
                  lease_time = l.lease_time;
                  srv_id = srv_id;
                  subnet_mask = subnet_mask;
                  broadcast_addr = broadcast_addr;
                  dns_srvs = dns_srvs;
                  gateways = gateways;
                  ntp_srvs = ntp_srvs;
                  mtu = some mtu;
                  host_name = non_empty l.host_name;
                  domain_name = non_empty l.domain_name;
                })
