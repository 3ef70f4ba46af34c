-- ===== src/Network/CoreUtils/Sockets.antt =====
-- `open_netlink_sockets`: a netlink socket in the namespace of the host, and one in the
-- container's.
use netavark.Prelude.{ℕ, String, ◌<>◌, Result}
use netavark.Error.{IoError, io, wrap_error}
use netavark.Action.{Action, pure, ◌>>=◌, ◌>>◌, change}
use netavark.Network.Kernel.{Kernel, Side, host_side, netns_side}
use netavark.Network.CoreUtils.{wrapped, exec_netns}

-- `File::open` with its descriptor, and the opening of a socket where the process is.
pub record Opening (K : Kernel) : Type 0 where
  pub open_file : String → K.State → Result IoError ℕ × K.State
  pub new_socket : Side → Action K.State Unit

module _ (K : Kernel) (O : Opening K) where
  unfoldable pub open_netlink_socket : String → Action K.State ℕ
  open_netlink_socket netns_path =
      change (λ e. wrap_error ("open " <> netns_path) (io e)) (O.open_file netns_path)

  -- The descriptors of both namespaces.
  unfoldable pub open_netlink_sockets : String → Action K.State (ℕ × ℕ)
  open_netlink_sockets netns_path = do
    netns ← wrapped "open container netns" (open_netlink_socket netns_path)
    hostns ← wrapped "open host netns" (open_netlink_socket "/proc/self/ns/net")
    wrapped "host netlink socket" (O.new_socket host_side)
    exec_netns K hostns netns (wrapped "netns netlink socket" (O.new_socket netns_side))
    pure (hostns, netns)
