-- ===== src/Dhcp/Paths.antt =====
-- `src/dhcp_proxy/proxy_conf.rs`: where the socket and the cache of the proxy are, by the variable
-- NETAVARK_PROXY_RUN_DIR_ENV, the command line, or the default.
use netavark.Prelude.{String, Option, none, some}

unfoldable pub get_run_dir : Option String → Option String → String
get_run_dir (some v) run_cli = v
get_run_dir none (some val) = val
get_run_dir none none = "/run/podman"

-- `Path::join` is a parameter.
abbrev pub get_proxy_sock_fqname :
    (String → String → String) → Option String → Option String → String
get_proxy_sock_fqname join_path var run_dir_opt =
    join_path (get_run_dir var run_dir_opt) "nv-proxy.sock"

abbrev pub get_cache_fqname : (String → String → String) → Option String → Option String → String
get_cache_fqname join_path var run_dir = join_path (get_run_dir var run_dir) "nv-proxy.lease"
