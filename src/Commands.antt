-- ===== src/Commands.antt =====
-- The commands `setup` and `teardown`, `src/commands/setup.rs` and `src/commands/teardown.rs`, and
-- the interface of the network drivers, `src/network/driver.rs`. A `HashMap` is walked through in
-- an unknown order, which is the order of the list.
pub mod Rollback
pub mod Removal
pub mod Update
pub mod Drivers
use netavark.Prelude.{
  ℕ, String, ◌<>◌, Bool, true, false, not, ◌&&◌, Option, none, some, List, [], ◌∷◌, ◌++◌, Result,
  ok, err, if◌then◌else◌,
}
use netavark.Prelude.Dict.{Dict, lookup, insert}
use netavark.Error.{
  NetavarkError, NetavarkResult, message, list, NetavarkErrorList, new_list, push, is_empty, io,
  IoError, other, already_exists, IoKind, not_found, msg, wrap_error,
}
use netavark.Action.{Action, pure, raise, lift, ◌>>=◌, ◌>>◌}
use netavark.Network.Types.{IpAddr, Network, PerNetworkOptions, NetworkOptions, StatusBlock}

-- `AardvarkEntry` of `src/dns/aardvark.rs`.
pub record AardvarkEntry : Type 0 where
  pub network_name : String
  pub network_gateways : List IpAddr
  pub network_dns_servers : Option (List IpAddr)
  pub container_id : String
  pub container_ips_v4 : List IpAddr
  pub container_ips_v6 : List IpAddr
  pub container_names : List String
  pub container_dns_servers : Option (List IpAddr)

-- What the commands call: the trait `NetworkDriver` with the making of a driver, and the rest of
-- the program and of the host. A driver that is validated may have changed itself.
pub record System : Type 1 where
  pub State : Type 0
  pub Driver : Type 0
  pub get_network_driver :
      NetworkOptions → Network → PerNetworkOptions → State → NetavarkResult Driver
  pub validate : Driver → Action State Driver
  pub setup : Driver → Action State (StatusBlock × Option AardvarkEntry)
  pub teardown : Driver → Action State Unit
  pub network_name : Driver → String
  pub ns_checks : State → NetavarkResult Unit
  pub load : State → NetavarkResult NetworkOptions
  pub get_supported_firewall_driver : State → NetavarkResult Unit
  pub get_netavark_dns_port : State → NetavarkResult ℕ
  pub open_netlink_sockets : Action State Unit
  pub set_up_loopback : Action State Unit
  pub aardvark_exists : State → Bool
  pub create_dir : State → Result IoError Unit × State
  pub is_path_text : Bool
  pub commit_netavark_entries : List AardvarkEntry → State → Result IoError Unit × State
  pub delete_from_netavark_entries : NetworkOptions → State → Result IoError Unit × State
  pub print_json : Dict StatusBlock → Action State Unit

abbrev pub io_error : String → NetavarkError
io_error text = io (record { kind = other; text = text })

abbrev pub options_not_found : String → NetavarkError
options_not_found net_name = message ("network options for network " <> (net_name <> " not found"))

abbrev pub is_already_exists : IoKind → Bool
is_already_exists already_exists = true
is_already_exists _ = false

abbrev pub is_nil {ℓ} : {A : Type ℓ} → List A → Bool
is_nil [] = true
is_nil (_ ∷ _) = false

abbrev pub push_some {ℓ} : {A : Type ℓ} → List A → Option A → List A
push_some xs none = xs
push_some xs (some x) = xs ++ (x ∷ [])

module _ (T : System) where
  -- The driver of a network, made and validated.
  unfoldable pub get_driver : NetworkOptions → String → Network → Action T.State T.Driver
  get_driver options net_name network s = elim (lookup net_name options.networks) [
    | none ↦ (err (options_not_found net_name), s)
    | some opts ↦ elim (T.get_network_driver options network opts s) [
      | err e ↦ (err e, s)
      | ok driver ↦ T.validate driver s
    ]
  ]

  -- The first loop of `Setup::exec`: all drivers are validated before any is set up.
  unfoldable pub get_drivers :
      NetworkOptions → Dict Network → List T.Driver → Action T.State (List T.Driver)
  get_drivers options [] drivers s = (ok drivers, s)
  get_drivers options ((net_name, network) ∷ networks) drivers s =
      let (result, s') = get_driver options net_name network s in
      elim result [
        | err e ↦ (err e, s')
        | ok driver ↦ get_drivers options networks (drivers ++ (driver ∷ [])) s'
      ]

  -- The drivers that are set up are taken down, and the errors of that are only logged.
  unfoldable pub undo : List T.Driver → T.State → T.State
  undo [] s = s
  undo (driver ∷ drivers) s = undo drivers (T.teardown driver s).1

  -- The second loop, with the drivers that are set up, the response and the DNS entries so far.
  unfoldable pub setup_drivers :
      List T.Driver
      → List T.Driver
      → Dict StatusBlock
      → List AardvarkEntry
      → Action T.State (Dict StatusBlock × List AardvarkEntry)
  unfolding undo
  setup_drivers done [] response entries s = (ok (response, entries), s)
  setup_drivers done (driver ∷ drivers) response entries s =
      let (result, s') = T.setup driver s in
      elim result [
        | err e ↦ (err e, undo done s')
        | ok (status, entry) ↦
            setup_drivers (done ++ (driver ∷ [])) drivers
              (insert (T.network_name driver) status response) (push_some entries entry) s'
      ]

  -- The DNS entries are handed to aardvark-dns, where it is installed.
  unfoldable pub commit_dns : List AardvarkEntry → Action T.State Unit
  commit_dns entries s =
      if T.aardvark_exists s && not (is_nil entries)
      then (let (result, s') = T.create_dir s in
          let commit : NetavarkResult Unit × T.State =
            if T.is_path_text
            then (let (committed, s'') = T.commit_netavark_entries entries s' in
                elim committed [
                  | ok _ ↦ (ok tt, s'')
                  | err e ↦ (err (io_error ("Error while applying dns entries: " <> e.text)), s'')
                ])
            else (err (io_error "failed to convert path to String"), s') in
          elim result [
            | ok _ ↦ commit
            | err e ↦
                if is_already_exists e.kind
                then commit
                else (err (io_error ("failed to create aardvark-dns directory: " <> e.text)), s')
          ])
      else (ok tt, s)

  -- `Setup::exec`
  unfoldable pub exec_setup : Action T.State Unit
  unfolding get_drivers setup_drivers commit_dns
  exec_setup = do
    (λ s. elim (T.ns_checks s) [
      | ok _ ↦ (ok tt, s)
      | err e ↦ (err (wrap_error "invalid namespace path" e), s)
    ])
    options ← (λ s. (T.load s, s))
    _ ← (λ s. (T.get_supported_firewall_driver s, s))
    _ ← (λ s. (T.get_netavark_dns_port s, s))
    T.open_netlink_sockets
    T.set_up_loopback
    drivers ← get_drivers options options.network_info []
    done ← setup_drivers [] drivers [] []
    commit_dns done.1
    T.print_json done.0

  -- The body of the loop of `Teardown::exec`.
  unfoldable pub teardown_one : NetworkOptions → String → Network → Action T.State Unit
  teardown_one options net_name network s = elim (lookup net_name options.networks) [
    | none ↦ (err (options_not_found net_name), s)
    | some opts ↦ elim (T.get_network_driver options network opts s) [
      | err e ↦ (err e, s)
      | ok driver ↦ T.teardown driver s
    ]
  ]

  -- The loop: an error is collected, and the loop goes on.
  unfoldable pub teardown_networks :
      NetworkOptions → Dict Network → NetavarkErrorList → T.State → NetavarkErrorList × T.State
  teardown_networks options [] error_list s = (error_list, s)
  teardown_networks options ((net_name, network) ∷ networks) error_list s =
      let (result, s') = teardown_one options net_name network s in
      elim result [
        | ok _ ↦ teardown_networks options networks error_list s'
        | err e ↦ teardown_networks options networks (push error_list e) s'
      ]

  -- aardvark-dns is stopped first, where it is installed.
  unfoldable pub stop_dns : NetworkOptions → T.State → NetavarkErrorList × T.State
  stop_dns options s =
      if T.aardvark_exists s
      then (if T.is_path_text
          then (let (result, s') = T.delete_from_netavark_entries options s in
              elim result [ ok _ ↦ (new_list, s') | err e ↦ (push new_list (io e), s') ])
          else (push new_list (msg "Unable to parse aardvark config directory"), s))
      else (new_list, s)

  -- `Teardown::exec`
  unfoldable pub exec_teardown : Action T.State Unit
  unfolding teardown_networks stop_dns
  exec_teardown = do
    options ← (λ s. (T.load s, s))
    _ ← (λ s. (T.get_netavark_dns_port s, s))
    error_list ← (λ s. let (errors, s') = stop_dns options s in (ok errors, s'))
    _ ← (λ s. (T.get_supported_firewall_driver s, s))
    T.open_netlink_sockets
    errors ← (λ s.
        let (errors, s') = teardown_networks options options.network_info error_list s in
        (ok errors, s'))
    if is_empty errors then pure tt else raise (list errors)
