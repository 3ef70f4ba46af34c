-- ===== src/Tests/Ipam.antt =====
-- The addresses of a container on a network, at concrete inputs.
use netavark.Prelude.{
  ℕ, ◌<>◌, ◌≡◌, refl, Bool, true, false, ◌&&◌, ◌||◌, some, none, [], ◌∷◌, ok, err, ◌==◌, leb,
  str_eq, show_ℕ, inl, inr, arith, if◌then◌else◌, Bool-cases,
}
use netavark.Network.Types.{IpAddr, v4, v6, IpNet, PerNetworkOptions}
use netavark.Network.Text.{NetText}
use netavark.Network.Ipam.{no_addresses, get_ipam_addresses}
use netavark.Network.Ipam.Zipped.{IsLawful}
use netavark.Network.Ipam.HostLocal.{get_ipam_addresses_lem}
use netavark.Tests.Data.{show_ip, podman, podman_subnet, container_ip}

abbrev container_net : IpNet
container_net = record { addr = container_ip; prefix_len = 16 }

abbrev gateway_net : IpNet
gateway_net = record { addr = v4 173539329; prefix_len = 16 }

-- Two networks are known by their texts.
abbrev pub net_text : NetText
net_text = record {
  show_ip = show_ip;
  new_net = λ ip n.
      if leb n 32 then ok (record { addr = ip; prefix_len = n }) else err "invalid prefix length";
  parse_net = λ s.
      if str_eq s "10.88.0.5/16"
      then ok container_net
      else if str_eq s "10.88.0.1/16"
      then ok gateway_net
      else err "unknown";
}

abbrev fits : IpAddr → ℕ → Bool
fits (v4 a) n = (a == 173539333 || a == 173539329) && n == 16
fits (v6 a) n = false

pub new_net_fits :
    (ip : IpAddr) (n : ℕ)
    → fits ip n ≡ true
    → net_text.new_net ip n ≡ ok (record { addr = ip; prefix_len = n })
new_net_fits (v4 a) n h = ground (arith, h)
new_net_fits (v6 a) n h = ground (arith, h)

pub parse_net_fits :
    (ip : IpAddr) (n : ℕ)
    → fits ip n ≡ true
    → net_text.parse_net (show_ip ip <> ("/" <> show_ℕ n))
      ≡ ok (record { addr = ip; prefix_len = n })
unfolding show_ℕ
parse_net_fits (v4 a) n h =
    let length_16 : n ≡ 16 = ground (arith, h) in
    elim (Bool-cases (a == 173539333)) [
      | inl e ↦ let same : a ≡ 173539333 = ground (arith, e) in rw (same, length_16) refl
      | inr e ↦ let same : a ≡ 173539329 = ground (arith, h, e) in rw (same, length_16) refl
    ]
parse_net_fits (v6 a) n h = ground (arith, h)

abbrev net_text-IsLawful : IsLawful net_text
net_text-IsLawful = record {
  fits = fits;
  new_net_fits = new_net_fits;
  parse_net_fits = parse_net_fits;
}

abbrev options : PerNetworkOptions
options = record {
  aliases = none;
  interface_name = "eth0";
  static_ips = some (container_ip ∷ []);
  static_mac = none;
}

get_ipam_addresses_lem_example :
    get_ipam_addresses net_text options podman
    ≡ some (
        ok (record (no_addresses false) {
          container_addresses = container_net ∷ [];
          gateway_addresses = gateway_net ∷ [];
          net_addresses = record { gateway = podman_subnet.gateway; ipnet = container_net } ∷ [];
          nameservers = v4 173539329 ∷ [];
        }))
get_ipam_addresses_lem_example =
    get_ipam_addresses_lem net_text net_text-IsLawful options podman (container_ip ∷ []) (inl refl)
      refl ((refl, refl), tt)

-- A second subnet with no address for it.
get_ipam_addresses_panics :
    get_ipam_addresses net_text options
      (record podman { subnets = some (podman_subnet ∷ podman_subnet ∷ []) })
    ≡ none
get_ipam_addresses_panics =
    get_ipam_addresses_lem net_text net_text-IsLawful options
      (record podman { subnets = some (podman_subnet ∷ podman_subnet ∷ []) }) (container_ip ∷ [])
      (inl refl) refl ((refl, refl), (refl, tt))
