-- ===== src/Network/Drivers.antt =====
-- `get_network_driver` of `src/network/driver.rs`: the driver of a network by its name, a program
-- in one of the directories of plugins if the name is not built in.
use netavark.Prelude.{
  ℕ, String, ◌<>◌, ◌/◌, ◌%◌, Bool, false, ◌&&◌, ◌||◌, Option, none, some, List, [], ◌∷◌, ok, err,
  ◌==◌, str_eq, if◌then◌else◌,
}
use netavark.Error.{NetavarkResult, message}
use netavark.Network.Machine.{DriverInfo}
use netavark.Network.Bridge.Options as Bridge
use netavark.Network.Vlan.Options as Vlan

-- The drivers, with the data of those that were validated.
pub data NetworkDriver : Type 0 where
  bridge_driver : DriverInfo → Option Bridge.InternalData → NetworkDriver
  vlan_driver : DriverInfo → Option Vlan.InternalData → NetworkDriver
  plugin_driver : String → DriverInfo → NetworkDriver

-- `mode & 0o111 != 0`
abbrev pub is_executable : ℕ → Bool
is_executable mode = mode % 2 == 1 || mode / 8 % 2 == 1 || mode / 64 % 2 == 1

-- Whether a path is a file, with its mode, if it is there; and `Path::join`.
pub record PluginFiles : Type 0 where
  pub metadata : String → Option (Bool × ℕ)
  pub join_path : String → String → String

module _ (F : PluginFiles) where
  abbrev pub is_plugin : Option (Bool × ℕ) → Bool
  is_plugin none = false
  is_plugin (some (is_file, mode)) = is_file && is_executable mode

  unfoldable pub find_plugin : List String → String → Option String
  find_plugin [] name = none
  find_plugin (dir ∷ dirs) name =
      let path = F.join_path dir name in
      let rest = find_plugin dirs name in if is_plugin (F.metadata path) then some path else rest

  abbrev pub plugin_path : Option (List String) → String → Option String
  plugin_path none name = none
  plugin_path (some dirs) name = find_plugin dirs name

  unfoldable pub get_network_driver :
      DriverInfo → Option (List String) → NetavarkResult NetworkDriver
  unfolding find_plugin
  get_network_driver info plugins_directories =
      let name = info.network.driver in
      if str_eq name "bridge"
      then ok (bridge_driver info none)
      else if str_eq name "ipvlan" || str_eq name "macvlan"
      then ok (vlan_driver info none)
      else elim (plugin_path plugins_directories name) [
        | some path ↦ ok (plugin_driver path info)
        | none ↦ err (message ("unknown network driver \"" <> (name <> "\"")))
      ]
