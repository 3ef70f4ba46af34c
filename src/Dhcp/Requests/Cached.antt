-- ===== src/Dhcp/Requests/Cached.antt =====
-- About the requests of the proxy: which leases are in the cache, and when the service ends.
use netavark.Prelude.{
  ℕ, String, ◌≡◌, refl, Bool, none, some, List, [], ◌∷◌, ◌++◌, All, ok, err, inl, inr, arith,
  str_eq, eq_refl, Bool-cases, Option-cases, Result-cases,
}
use netavark.Prelude.Dict.{lookup}
use netavark.Network.Kernel.{Kernel, TextLib}
use netavark.Network.CoreUtils.Sockets.{Opening}
use netavark.Network.Vlan.Dhcp.{NetworkConfig}
use netavark.Dhcp.Cache.{Lease, Writer, LeaseCache, add_lease, remove_lease}
use netavark.Dhcp.Cache.Valid.{lookup-add_lease}
use netavark.Dhcp.Lease.{to_mozim}
use netavark.Dhcp.Address.{AddressText, setup_address}
use netavark.Dhcp.Service.{
  internal, Mozim, DhcpService, v4_client, new_service, get_service_lease, release_lease,
}
use netavark.Dhcp.Requests.{
  Proxy, Wakeup, activity, channel_closed, time_out, configure, cache_lease, find_lease,
  process_setup, release_removed, teardown_request, handle_wakeup,
}

module _ (K : Kernel) (W : Writer) (O : Opening K) (M : Mozim K.State) (text : AddressText)
    (lib : TextLib) (is_mac : String → Bool) where
  -- The container of the request has the lease in the cache.
  abbrev pub IsCached : NetworkConfig → Lease → Proxy K W → Type 0
  IsCached nc lease p = lookup nc.container_mac_addr p.cache.mem ≡ some (lease ∷ [])

  configure-cache :
      (nc : NetworkConfig) (lease l : Lease) (p : Proxy K W)
      → (configure K W O M text lib is_mac nc lease p).0 ≡ ok l
      → (l ≡ lease) × ((configure K W O M text lib is_mac nc lease p).1.cache ≡ p.cache)
  unfolding configure
  configure-cache nc lease l p h =
      elim (Result-cases
        (setup_address K O text lib lease nc.container_iface nc.ns_path p.host).0) [
          | inl (_, q) ↦ ground (arith, q, h)
          | inr (_, q) ↦ ground (arith, q, h)
        ]

  cache_lease-IsCached :
      (nc : NetworkConfig) (lease l : Lease) (p : Proxy K W)
      → (cache_lease K W O M text lib is_mac nc lease p).0 ≡ ok l
      → (l ≡ lease) × IsCached nc lease (cache_lease K W O M text lib is_mac nc lease p).1
  unfolding cache_lease
  cache_lease-IsCached nc lease l p h =
      let mac = nc.container_mac_addr in
      let added = add_lease W mac lease p.cache in
      elim (Result-cases added.0) [
        | inr (_, q) ↦ ground (arith, q, h)
        | inl (_, q) ↦
            let p' = record p { cache = added.1 } in
            ground (
              arith,
              q,
              h,
              configure-cache nc lease l p',
              lookup-add_lease W mac mac lease p.cache,
              eq_refl mac,
            )
      ]

  find_lease-IsCached :
      (nc : NetworkConfig) (service : DhcpService M text.ipv4) (l : Lease) (p : Proxy K W)
      → (find_lease K W O M text lib is_mac nc service p).0 ≡ ok l
      → IsCached nc l (find_lease K W O M text lib is_mac nc service p).1
  unfolding find_lease
  find_lease-IsCached nc service l p h =
      let got = get_service_lease M text.ipv4 service p.host in
      elim (Result-cases got.0) [
        | inr (_, q) ↦ ground (arith, q, h)
        | inl (lease, q) ↦
            ground (arith, q, h, cache_lease-IsCached nc lease l (record p { host = got.1 }))
      ]

  -- A setup request that succeeds answers with the lease that the cache has for the container
  -- afterwards.
  pub process_setup-IsCached :
      (nc : NetworkConfig) (wait : ℕ) (l : Lease) (p p' : Proxy K W)
      → process_setup K W O M text lib is_mac nc wait p ≡ some (ok l, p')
      → IsCached nc l p'
  unfolding process_setup
  process_setup-IsCached nc wait l p p' h = elim (Bool-cases (str_eq nc.container_mac_addr "")) [
    | inl q ↦ ground (arith, q, h)
    | inr q ↦ elim (Bool-cases (is_mac nc.container_mac_addr)) [
      | inr q1 ↦ ground (arith, q, q1, h)
      | inl q1 ↦ elim (Option-cases (new_service M text.ipv4 nc wait p.host)) [
        | inl q2 ↦ ground (arith, q, q1, q2, h)
        | inr ((err e, t), q2) ↦ ground (arith, q, q1, q2, h)
        | inr ((ok service, t), q2) ↦
            ground (arith, q, q1, q2, h, find_lease-IsCached nc service l (record p { host = t }))
      ]
    ]
  ]

  -- If the cache has no lease for the container, the service is made for IPv4, and the empty text
  -- is no address, a teardown request fails with an internal error and leaves the cache as it is.
  pub teardown_request-unknown :
      (nc : NetworkConfig) (wait : ℕ) (c : M.Client) (h : K.State) (e : String) (p : Proxy K W)
      → lookup nc.container_mac_addr p.cache.mem ≡ none
      → new_service M text.ipv4 nc wait p.host
        ≡ some (ok (record { client = some (v4_client c); network_config = nc }), h)
      → text.ipv4.parse_ipv4 "" ≡ err e
      → teardown_request K W O M text lib is_mac nc wait p
        ≡ some (err (record { code = internal; text = M.show_invalid e }), record p { host = h })
  unfolding teardown_request remove_lease release_removed release_lease to_mozim
  teardown_request-unknown nc wait c h e p missing made bad = ground (arith, missing, made, bad)

module _ (K : Kernel) (W : Writer) (O : Opening K) (M : Mozim K.State) (text : AddressText)
    (lib : TextLib) (is_mac : String → Bool) where
  -- What ends the service: the end of the channel, or of the time when there are no leases.
  abbrev pub Ends : Wakeup × LeaseCache W → Type 0
  Ends (activity, c) = ⊥
  Ends (channel_closed, c) = Unit
  Ends (time_out, c) = c.mem ≡ []

  -- It goes on after an activity, and when the time is over and there are leases.
  abbrev pub GoesOn : Wakeup × LeaseCache W → Type 0
  GoesOn (activity, c) = Unit
  GoesOn (channel_closed, c) = ⊥
  GoesOn (time_out, c) = ¬ (c.mem ≡ [])

  -- After whatever goes on, the service has not ended, and it ends at the first event that ends it:
  -- never at the end of the time while the cache has leases.
  pub handle_wakeup_lem :
      (before rest : List (Wakeup × LeaseCache W)) (w : Wakeup × LeaseCache W)
      → All GoesOn before
      → Ends w
      → (handle_wakeup K W O M text lib is_mac before ≡ none)
        × (handle_wakeup K W O M text lib is_mac (before ++ (w ∷ rest)) ≡ some rest)
  unfolding handle_wakeup
  handle_wakeup_lem [] rest (activity, c) goes ends = elim ends [ ]
  handle_wakeup_lem [] rest (channel_closed, c) goes ends = (refl, refl)
  handle_wakeup_lem [] rest (time_out, c) goes ends = ground (arith, ends)
  handle_wakeup_lem ((activity, d) ∷ before) rest w goes ends =
      handle_wakeup_lem before rest w goes.1 ends
  handle_wakeup_lem ((channel_closed, d) ∷ before) rest w goes ends = elim goes.0 [ ]
  handle_wakeup_lem ((time_out, d) ∷ before) rest w goes ends =
      ground (arith, goes.0, handle_wakeup_lem before rest w goes.1 ends)
