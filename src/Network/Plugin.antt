-- ===== src/Network/Plugin.antt =====
-- `src/network/plugin.rs`: a driver that is another program, which reads its input as JSON and
-- answers in JSON.
use netavark.Prelude.{
  ℕ, String, ◌<>◌, Bool, true, false, Option, none, some, List, Result, ok, err, show_ℕ, ◌==◌,
  if◌then◌else◌,
}
use netavark.Error.{IoError, NetavarkResult, msg, io, serde, wrap_error}
use netavark.Action.{Action, pure, ◌>>=◌, ◌>>◌, change, lift}
use netavark.Network.Types.{Network, PerNetworkOptions, PortMapping, StatusBlock}
use netavark.Network.Machine.{DriverInfo}
use netavark.Network.CoreUtils.{wrapped}
use netavark.Commands.{AardvarkEntry}

pub record NetworkPluginExec : Type 0 where
  pub container_name : String
  pub container_id : String
  pub port_mappings : Option (List PortMapping)
  pub network : Network
  pub network_options : PerNetworkOptions

-- Processes, and the JSON of the texts. A process that was killed has no exit code.
pub record Processes (S : Type 0) : Type 1 where
  pub Child : Type 0
  pub spawn : String → String → String → S → Result IoError Child × S
  pub write_input : Child → NetworkPluginExec → S → Result String Unit × S
  pub read_to_end : Child → S → Result IoError (List ℕ) × S
  pub wait : Child → S → Result IoError (Option ℕ) × S
  pub parse_status : List ℕ → Result String StatusBlock
  pub parse_error : List ℕ → Result String String
  pub file_name : String → String

module _ {S : Type 0} (P : Processes S) where
  -- The answer of a process that ended with an exit code.
  unfoldable pub read_answer : Bool → ℕ → List ℕ → NetavarkResult (Option StatusBlock)
  read_answer setup rc buffer =
      if rc == 0
      then if setup
        then (elim (P.parse_status buffer) [ ok status ↦ ok (some status) | err e ↦ err (serde e) ])
        else ok none
      else (elim (P.parse_error buffer) [
        | ok text ↦ err (msg ("exit code " <> (show_ℕ rc <> (", message: " <> text))))
        | err e ↦ err (serde e)
      ])

  abbrev pub action_name : Bool → String
  action_name true = "setup"
  action_name false = "teardown"

  abbrev pub plugin_input : DriverInfo → NetworkPluginExec
  plugin_input info = record {
    container_name = info.container_name;
    container_id = info.container_id;
    port_mappings = info.port_mappings;
    network = info.network;
    network_options = info.per_network_opts;
  }

  -- The process is waited for before the reading of its answer is looked at.
  unfoldable pub exec_plugin : String → DriverInfo → Bool → Action S (Option StatusBlock)
  exec_plugin path info setup = do
    child ← change io (P.spawn path (action_name setup) info.netns_path)
    change serde (P.write_input child (plugin_input info))
    result ← (λ s. let (r, s') = P.read_to_end child s in (ok r, s'))
    exit_status ← change (λ e. wrap_error "wait for plugin to exit" (io e)) (P.wait child)
    lift (elim exit_status [
      | none ↦ err (msg "plugin killed by signal")
      | some rc ↦ elim result [
        | err e ↦ err (wrap_error "read into buffer" (io e))
        | ok buffer ↦ read_answer setup rc buffer
      ]
    ])

  abbrev pub plugin_failed : String → String
  plugin_failed path = "plugin \"" <> (P.file_name path <> "\" failed")

  -- `none` is the panic of an `unwrap` of no status.
  unfoldable pub setup :
      String → DriverInfo → S → Option (NetavarkResult (StatusBlock × Option AardvarkEntry) × S)
  setup path info s =
      let (r, s') = wrapped (plugin_failed path) (exec_plugin path info true) s in
      elim r [
        | err e ↦ some (err e, s')
        | ok none ↦ none
        | ok (some status) ↦ some (ok (status, none), s')
      ]

  unfoldable pub teardown : String → DriverInfo → Action S Unit
  teardown path info = do _ ← wrapped (plugin_failed path) (exec_plugin path info false); pure tt
