-- ===== src/Dhcp/Cache.antt =====
-- The cache of leases, `src/dhcp_proxy/cache.rs`. What is written is bytes, to any writer; Clear has
-- the two of the source.
pub mod Clear
pub mod Saved
pub mod Valid
use netavark.Prelude.{
  ℕ, zero, suc, ◌<>◌, String, Bool, true, false, Option, none, some, List, [], ◌∷◌, ◌++◌, Result,
  ok, err, ltb, length, drop, if◌then◌else◌,
}
use netavark.Prelude.Dict.{Dict, lookup, insert, erase}
use netavark.Error.{IoError}

pub record Lease : Type 0 where
  pub t1 : ℕ
  pub t2 : ℕ
  pub lease_time : ℕ
  pub mtu : ℕ
  pub domain_name : String
  pub mac_address : String
  pub is_v6 : Bool
  pub siaddr : String
  pub yiaddr : String
  pub srv_id : String
  pub subnet_mask : String
  pub broadcast_addr : String
  pub dns_servers : List String
  pub gateways : List String
  pub ntp_servers : List String
  pub host_name : String

-- The traits `Write` and `Clear` of the writer, and `serde_json`, which prints the map.
pub record Writer : Type 1 where
  pub State : Type 0
  pub clear : State → Result String Unit × State
  pub write_all : List ℕ → State → Result IoError Unit × State
  pub flush : State → Result IoError Unit × State
  pub to_json : Dict (List Lease) → List ℕ

-- The lease for a container that has none.
abbrev pub blank_lease : Lease
blank_lease = record {
  t1 = 0;
  t2 = 0;
  lease_time = 0;
  mtu = 0;
  domain_name = "";
  mac_address = "";
  is_v6 = false;
  siaddr = "";
  yiaddr = "";
  srv_id = "";
  subnet_mask = "";
  broadcast_addr = "";
  dns_servers = [];
  gateways = [];
  ntp_servers = [];
  host_name = "";
}

pub record LeaseCache (W : Writer) : Type 0 where
  pub mem : Dict (List Lease)
  pub writer : W.State

module _ (W : Writer) where
  -- `LeaseCache::new`
  abbrev pub new_cache : W.State → Result IoError (LeaseCache W)
  new_cache writer = ok (record { mem = []; writer = writer })

  -- Where the writer cannot be cleared, nothing is written and no error is returned.
  unfoldable pub save_memory_to_fs : LeaseCache W → Result IoError Unit × LeaseCache W
  save_memory_to_fs cache =
      let (cleared, w) = W.clear cache.writer in
      elim cleared [
        | err e ↦ (ok tt, record cache { writer = w })
        | ok _ ↦
            let (written, w') = W.write_all (W.to_json cache.mem) w in
            elim written [
              | err e ↦ (err e, record cache { writer = w' })
              | ok _ ↦ let (flushed, w'') = W.flush w' in (flushed, record cache { writer = w'' })
            ]
      ]

  unfoldable pub add_lease : String → Lease → LeaseCache W → Result IoError Unit × LeaseCache W
  add_lease mac_addr lease cache =
      save_memory_to_fs (record cache { mem = insert mac_addr (lease ∷ []) cache.mem })

  unfoldable pub update_lease : String → Lease → LeaseCache W → Result IoError Unit × LeaseCache W
  update_lease mac_addr lease cache =
      save_memory_to_fs (record cache { mem = insert mac_addr (lease ∷ []) cache.mem })

  -- A list of leases that is empty is a panic, `none`.
  abbrev pub first_lease : Option (List Lease) → Option Lease
  first_lease none = some blank_lease
  first_lease (some []) = none
  first_lease (some (lease ∷ leases)) = some lease

  abbrev pub is_none {ℓ} : {A : Type ℓ} → Option A → Bool
  is_none none = true
  is_none (some _) = false

  unfoldable pub remove_lease : String → LeaseCache W → Option (Result IoError Lease) × LeaseCache W
  remove_lease mac_addr cache = elim (first_lease (lookup mac_addr cache.mem)) [
    | none ↦ (none, cache)
    | some lease ↦
        if is_none (lookup mac_addr cache.mem)
        then (some (ok lease), cache)
        else (let (saved, cache') =
              save_memory_to_fs (record cache { mem = erase mac_addr cache.mem }) in
            elim saved [ ok _ ↦ (some (ok lease), cache') | err e ↦ (some (err e), cache') ])
  ]

  unfoldable pub teardown : LeaseCache W → Result IoError Unit × LeaseCache W
  teardown cache = save_memory_to_fs (record cache { mem = [] })

  abbrev pub len : LeaseCache W → ℕ
  len cache = length cache.mem

  abbrev pub is_empty : LeaseCache W → Bool
  is_empty cache = if ltb (len cache) 1 then true else false
