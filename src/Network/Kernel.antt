-- ===== src/Network/Kernel.antt =====
-- What the network drivers ask of the host: the calls of the netlink sockets of
-- `src/network/netlink.rs`, one socket on the host and one in the container's namespace, the
-- `sysctl` crate, and `setns`, all over an unknown state.
use netavark.Prelude.{ℕ, String, Bool, List, Result}
use netavark.Error.{IoError}
use netavark.Action.{Action}
use netavark.Network.Types.{IpNet}
use netavark.Network.Netlink.Types.{
  InfoKind, Nlas, LinkMessage, CreateLinkOptions, LinkId, Route, RouteNla,
}

-- The two sockets.
pub data Side : Type 0 where
  host_side netns_side : Side

-- `SysctlError`: the value is not there, an IO error with its number, or another.
pub data SysctlError : Type 0 where
  not_there : String → SysctlError
  io_failed : ℕ → String → SysctlError
  failed : String → SysctlError

pub record Kernel : Type 1 where
  pub State : Type 0
  pub get_link : Side → LinkId → Action State LinkMessage
  pub create_link : Side → CreateLinkOptions → Action State Unit
  pub set_link_name : Side → ℕ → String → Action State Unit
  pub del_link : Side → LinkId → Action State Unit
  pub add_addr : Side → ℕ → IpNet → Action State Unit
  pub add_route : Side → Route → Action State Unit
  pub dump_routes : Side → Action State (List (List RouteNla))
  pub dump_links : Side → Nlas → Action State (List LinkMessage)
  pub set_up : Side → LinkId → Action State Unit
  pub setns : ℕ → State → Result IoError Unit × State
  pub sysctl_new : String → State → Result SysctlError Unit
  pub sysctl_value : String → State → Result SysctlError String
  pub sysctl_set : String → String → State → Result SysctlError String × State

-- What the standard library and other crates compute from texts: parsing, the hash,
-- and the network address of a network.
pub record TextLib : Type 0 where
  pub parse_u32 : String → Result String ℕ
  pub parse_bool : String → Result String Bool
  pub sha512 : String → String
  pub prefix : String → ℕ → String
  pub show_kind : InfoKind → String
  pub show_route : Route → String
  pub network : IpNet → IpNet
