-- ===== src/Dhcp/Service.antt =====
-- `src/dhcp_proxy/dhcp_service.rs`: a lease is asked for by a client of the `mozim` crate.
use netavark.Prelude.{ℕ, zero, suc, String, Option, none, some, Result, ok, err}
use netavark.Network.Vlan.Dhcp.{NetworkConfig}
use netavark.Dhcp.Cache.{Lease}
use netavark.Dhcp.Lease.{
  DhcpV4Lease, Ipv4Text, from_mozim, add_mac_address, add_domain_name, to_mozim,
}

pub data DhcpServiceErrorKind : Type 0 where
  timeout invalid_argument invalid_dhcp_server_reply no_lease bug lease_expired unimplemented :
      DhcpServiceErrorKind

pub record DhcpServiceError : Type 0 where
  pub kind : DhcpServiceErrorKind
  pub msg : String

-- The codes of gRPC that are used, and a status.
pub data Code : Type 0 where
  aborted invalid_request not_found internal unknown : Code

pub record Status : Type 0 where
  pub code : Code
  pub text : String

abbrev pub code_of : DhcpServiceErrorKind → Code
code_of timeout = aborted
code_of invalid_argument = invalid_request
code_of no_lease = not_found
code_of _ = internal

abbrev pub status_of : DhcpServiceError → Status
status_of e = record { code = code_of e.kind; text = e.msg }

-- The client of `mozim` for an interface, a MAC address and a timeout; its next lease, if one comes
-- in time; and how it prints its errors of invalid arguments and of bugs.
pub record Mozim (S : Type 0) : Type 1 where
  pub Client : Type 0
  pub init : String → String → ℕ → S → Result String Client × S
  pub next : Client → S → Option (Result String DhcpV4Lease) × S
  pub show_invalid : String → String
  pub show_bug : String → String

module _ {S : Type 0} (M : Mozim S) (text : Ipv4Text) where
  pub data DhcpClient : Type 0 where
    v4_client : M.Client → DhcpClient
    v6_client : DhcpClient

  pub record DhcpService : Type 0 where
    pub client : Option DhcpClient
    pub network_config : NetworkConfig

  -- `none` is the panic of `unimplemented!`.
  unfoldable pub create_client :
      NetworkConfig → ℕ → S → Option (Result DhcpServiceError DhcpClient × S)
  create_client nc wait s = elim nc.version [
    | zero ↦
        let (r, s') = M.init nc.host_iface nc.container_mac_addr wait s in
        elim r [
          | ok c ↦ some (ok (v4_client c), s')
          | err e ↦ some (err (record { kind = invalid_argument; msg = e }), s')
        ]
    | suc n ↦ elim n [
      | zero ↦ none
      | suc _ ↦ some (
        err (record {
          kind = invalid_argument;
          msg = "Must select a valid IP protocol 0=v4, 1=v6";
        }),
        s,
      )
    ]
  ]

  -- `DhcpService::new`
  unfoldable pub new_service :
      NetworkConfig → ℕ → S → Option (Result DhcpServiceError DhcpService × S)
  new_service nc wait s = elim (create_client nc wait s) [
    | none ↦ none
    | some (err e, s') ↦ some (err e, s')
    | some (ok c, s') ↦ some (ok (record { client = some c; network_config = nc }), s')
  ]

  abbrev pub timed_out : DhcpServiceError
  timed_out = record { kind = timeout; msg = "Could not find a lease within the timeout limit" }

  unfoldable pub get_v4_lease : NetworkConfig → M.Client → S → Result DhcpServiceError Lease × S
  get_v4_lease nc c s =
      let (found, s') = M.next c s in
      elim found [
        | some (ok lease) ↦ (
          ok (
              add_mac_address text nc.container_mac_addr
                (add_domain_name text nc.domain_name (from_mozim text lease))),
          s',
        )
        | some (err _) ↦ (err timed_out, s')
        | none ↦ (err timed_out, s')
      ]

  unfoldable pub get_service_lease : DhcpService → S → Result DhcpServiceError Lease × S
  get_service_lease service s = elim service.client [
    | none ↦ (err (record { kind = bug; msg = "Could not initiate dhcp client" }), s)
    | some (v4_client c) ↦ get_v4_lease service.network_config c s
    | some v6_client ↦
        (err (record { kind = bug; msg = "ipv6 dhcp requests are unimplemented." }), s)
  ]

  -- Only the reading of the lease is left of it. The error is its text.
  unfoldable pub release_lease : DhcpService → Lease → Result String Unit
  release_lease service lease = elim service.client [
    | none ↦ ok tt
    | some (v4_client _) ↦ elim (to_mozim text lease) [
      | err e ↦ err (M.show_invalid e)
      | ok _ ↦ ok tt
    ]
    | some v6_client ↦ err (M.show_bug "not implemented")
  ]
