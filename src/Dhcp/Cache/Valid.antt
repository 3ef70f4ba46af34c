-- ===== src/Dhcp/Cache/Valid.antt =====
-- About the leases in memory.
use netavark.Prelude.{
  String, ◌≡◌, ap, none, some, List, [], ◌∷◌, str_eq, eq_iff, eq_refl, inl, inr, arith,
  if◌then◌else◌, Option-cases, Bool-cases, map_ok, ◌∙◌,
}
use netavark.Prelude.Dict.{lookup, insert, erase, lookup-erase, lookup-insert}
use netavark.Dhcp.Cache.{
  Lease, Writer, blank_lease, LeaseCache, save_memory_to_fs, add_lease, remove_lease,
}

module _ (W : Writer) where
  -- Every container that has leases has one.
  abbrev pub IsValid : LeaseCache W → Type 0
  IsValid cache =
      (mac : String) (leases : List Lease)
      → lookup mac cache.mem ≡ some leases
      → (lease : Lease) × (leases ≡ lease ∷ [])

  save_memory_to_fs-mem : (cache : LeaseCache W) → (save_memory_to_fs W cache).1.mem ≡ cache.mem
  unfolding save_memory_to_fs
  save_memory_to_fs-mem cache = ground arith

  -- However the write of the file ends, a lease that is added is the one that its container has,
  -- and every other container keeps its own.
  pub lookup-add_lease :
      (mac q : String) (lease : Lease) (cache : LeaseCache W)
      → lookup q (add_lease W mac lease cache).1.mem
        ≡ (if str_eq mac q then some (lease ∷ []) else lookup q cache.mem)
  unfolding add_lease
  lookup-add_lease mac q lease cache = ground (
    arith,
    save_memory_to_fs-mem (record cache { mem = insert mac (lease ∷ []) cache.mem }),
    lookup-insert mac q (lease ∷ []) cache.mem,
  )

  remove_lease-mem :
      (mac : String) (cache : LeaseCache W) (lease : Lease) (leases : List Lease)
      → lookup mac cache.mem ≡ some (lease ∷ leases)
      → (remove_lease W mac cache).1.mem ≡ erase mac cache.mem
  unfolding remove_lease
  remove_lease-mem mac cache lease leases h =
      ground (arith, h, save_memory_to_fs-mem (record cache { mem = erase mac cache.mem }))

  lookup-remove_lease :
      (mac q : String) (cache : LeaseCache W)
      → IsValid cache
      → lookup q (remove_lease W mac cache).1.mem
        ≡ (if str_eq mac q then none else lookup q cache.mem)
  unfolding remove_lease
  lookup-remove_lease mac q cache valid = elim (Option-cases (lookup mac cache.mem)) [
    | inl n ↦ ground (arith, n, eq_iff mac q)
    | inr (leases, n) ↦
        let (lease, one) = valid mac leases n in
        ground (
          arith,
          remove_lease-mem mac cache lease [] (n ∙ ap some one),
          lookup-erase mac q cache.mem,
        )
  ]

  -- Of a valid cache, adding a lease and removing one leave a valid cache, however the writes of
  -- the file end.
  pub lease-IsValid :
      (mac : String) (lease : Lease) (cache : LeaseCache W)
      → IsValid cache
      → IsValid (add_lease W mac lease cache).1 × IsValid (remove_lease W mac cache).1
  lease-IsValid mac lease cache valid = (
    λ q leases h. elim (Bool-cases (str_eq mac q)) [
      | inl e ↦ (lease, ground (arith, h, e, lookup-add_lease mac q lease cache))
      | inr e ↦ valid q leases (ground (arith, h, e, lookup-add_lease mac q lease cache))
    ],
    λ q leases h. elim (Bool-cases (str_eq mac q)) [
      | inl e ↦ (blank_lease, ground (arith, h, e, lookup-remove_lease mac q cache valid))
      | inr e ↦ valid q leases (ground (arith, h, e, lookup-remove_lease mac q cache valid))
    ],
  )

  -- A lease is added and then removed. The removal does not panic; it returns that lease, unless
  -- it cannot write the file, and then that error.
  pub add_lease-remove_lease :
      (mac : String) (lease : Lease) (cache : LeaseCache W)
      → let added : LeaseCache W = (add_lease W mac lease cache).1 in
        (remove_lease W mac added).0
        ≡ some (
            map_ok
              (λ _. lease)
              (save_memory_to_fs W (record added { mem = erase mac added.mem })).0)
  unfolding remove_lease
  add_lease-remove_lease mac lease cache =
      ground (arith, eq_refl mac, lookup-add_lease mac mac lease cache)
