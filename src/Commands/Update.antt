-- ===== src/Commands/Update.antt =====
-- `src/commands/update.rs`: the DNS servers of a network are changed.
use netavark.Prelude.{
  ℕ, String, Bool, Option, none, some, List, [], ◌∷◌, Result, ok, err, show_ℕ, str_eq,
  if◌then◌else◌,
}
use netavark.Error.{NetavarkResult, msg, io, wrap_error}
use netavark.Network.CoreUtils.{get_netavark_dns_port}
use netavark.Dns.Files.{Files, LineText}
use netavark.Dns.Server.{Aardvark}
use netavark.Dns.Entries.{modify_network_dns_servers}

-- `[""]` is no server.
abbrev pub servers_given : List String → List String
servers_given (server ∷ []) = if str_eq server "" then [] else server ∷ []
servers_given servers = servers

module _ (F : Files) (text : LineText) where
  abbrev pub aardvark_of : String → Bool → String → ℕ → Aardvark
  aardvark_of path rootless aardvark_bin port = record {
    config = path;
    rootless = rootless;
    aardvark_bin = aardvark_bin;
    port = show_ℕ port;
  }

  -- The variable NETAVARK_DNS_PORT with its parser, and the path of the configuration, which may be
  -- no text.
  unfoldable pub exec_update :
      (String → Result String ℕ)
      → Option String
      → (String → Option String)
      → String
      → List String
      → String
      → String
      → Bool
      → F.State
      → NetavarkResult Unit × F.State
  exec_update parse_u16 var dns_path network_name servers config_dir aardvark_bin rootless s =
      elim (get_netavark_dns_port parse_u16 var) [
        | err e ↦ (err e, s)
        | ok dns_port ↦
            if F.path_exists aardvark_bin s
            then elim (dns_path config_dir) [
              | none ↦ (err (msg "Unable to parse aardvark config directory"), s)
              | some path ↦
                  let (r, s') =
                    modify_network_dns_servers F text
                      (aardvark_of path rootless aardvark_bin dns_port) network_name
                      (servers_given servers) s in
                  elim r [
                    | err e ↦ (err (wrap_error "unable to modify network dns servers" (io e)), s')
                    | ok _ ↦ (ok tt, s')
                  ]
            ]
            else (ok tt, s)
      ]
