-- ===== src/Dhcp/Requests.antt =====
-- `src/commands/dhcp_proxy.rs`: the requests of the proxy's service, one after the other, over the
-- cache of leases, and the end of the service for want of activity. The lock of the cache is not
-- poisoned.
pub mod Cached
use netavark.Prelude.{
  ℕ, String, ◌<>◌, Bool, true, false, not, Option, none, some, List, [], ◌∷◌, Result, ok, err,
  str_eq, if◌then◌else◌,
}
use netavark.Error.{IoError}
use netavark.Network.Kernel.{Kernel, TextLib}
use netavark.Network.CoreUtils.Sockets.{Opening}
use netavark.Network.Vlan.Dhcp.{NetworkConfig}
use netavark.Dhcp.Cache as Cache
use netavark.Dhcp.Cache.{Lease, Writer, LeaseCache, add_lease, remove_lease, is_empty}
use netavark.Dhcp.Address.{AddressText, setup_address}
use netavark.Dhcp.Service.{
  Code, invalid_request, internal, unknown, Status, status_of, Mozim, DhcpServiceError, DhcpService,
  new_service, get_service_lease, release_lease,
}

-- The state of the host, and the cache.
pub record Proxy (K : Kernel) (W : Writer) : Type 0 where
  pub host : K.State
  pub cache : LeaseCache W

-- What a request waits for: an activity, the end of the channel, or the end of the time.
pub data Wakeup : Type 0 where
  activity channel_closed time_out : Wakeup

module _ (K : Kernel) (W : Writer) (O : Opening K) (M : Mozim K.State) (text : AddressText)
    (lib : TextLib) (is_mac : String → Bool) where
  -- `none` is a panic.
  abbrev pub Response : Type 0 → Type 0
  Response A = Option (Result Status A × Proxy K W)

  abbrev pub status : Code → String → Status
  status code t = record { code = code; text = t }

  -- The addresses are set up when the lease is in the cache.
  unfoldable pub configure : NetworkConfig → Lease → Proxy K W → Result Status Lease × Proxy K W
  configure nc lease p =
      let (r, h) = setup_address K O text lib lease nc.container_iface nc.ns_path p.host in
      let p' = record p { host = h } in
      elim r [ err e ↦ (err (status unknown e), p') | ok _ ↦ (ok lease, p') ]

  unfoldable pub cache_lease : NetworkConfig → Lease → Proxy K W → Result Status Lease × Proxy K W
  cache_lease nc lease p =
      let (r, c) = add_lease W nc.container_mac_addr lease p.cache in
      let p' = record p { cache = c } in
      elim r [
        | err e ↦ (err (status internal ("Error caching the lease: " <> e.text)), p')
        | ok _ ↦ configure nc lease p'
      ]

  -- With a service that was made.
  unfoldable pub find_lease :
      NetworkConfig → DhcpService M text.ipv4 → Proxy K W → Result Status Lease × Proxy K W
  find_lease nc service p =
      let (r, h) = get_service_lease M text.ipv4 service p.host in
      let p' = record p { host = h } in
      elim r [ err e ↦ (err (status_of e), p') | ok lease ↦ cache_lease nc lease p' ]

  unfoldable pub process_setup : NetworkConfig → ℕ → Proxy K W → Response Lease
  process_setup nc wait p =
      if str_eq nc.container_mac_addr ""
      then some (err (status invalid_request "No mac address provided"), p)
      else if not (is_mac nc.container_mac_addr)
      then some (err (status invalid_request "Invalid mac address"), p)
      else elim (new_service M text.ipv4 nc wait p.host) [
        | none ↦ none
        | some (err e, h) ↦ some (err (status_of e), record p { host = h })
        | some (ok service, h) ↦ some (find_lease nc service (record p { host = h }))
      ]

  -- The release of a lease that was removed.
  unfoldable pub release_removed : NetworkConfig → ℕ → Lease → Proxy K W → Response Lease
  release_removed nc wait lease p = elim (new_service M text.ipv4 nc wait p.host) [
    | none ↦ none
    | some (err e, h) ↦ some (err (status_of e), record p { host = h })
    | some (ok service, h) ↦ elim (release_lease M text.ipv4 service lease) [
      | err e ↦ some (err (status internal e), record p { host = h })
      | ok _ ↦ some (ok lease, record p { host = h })
    ]
  ]

  unfoldable pub teardown_request : NetworkConfig → ℕ → Proxy K W → Response Lease
  teardown_request nc wait p =
      let (r, c) = remove_lease W nc.container_mac_addr p.cache in
      let p' = record p { cache = c } in
      elim r [
        | none ↦ none
        | some (err e) ↦ some (err (status internal e.text), p')
        | some (ok lease) ↦ release_removed nc wait lease p'
      ]

  -- An IO error is a status of the code that the standard conversion gives it.
  unfoldable pub clean : (IoError → Status) → Proxy K W → Result Status Bool × Proxy K W
  clean from_io p =
      let (r, c) = Cache.teardown W p.cache in
      let p' = record p { cache = c } in
      elim r [ ok _ ↦ (ok true, p') | err e ↦ (err (from_io e), p') ]

  -- The loop, over what wakes it up, each with the cache at that time: the rest when it ends, if it
  -- ends.
  unfoldable pub handle_wakeup :
      List (Wakeup × LeaseCache W) → Option (List (Wakeup × LeaseCache W))
  handle_wakeup [] = none
  handle_wakeup ((activity, c) ∷ ws) = handle_wakeup ws
  handle_wakeup ((channel_closed, c) ∷ ws) = some ws
  handle_wakeup ((time_out, c) ∷ ws) =
      let rest = handle_wakeup ws in if is_empty W c then some ws else rest
