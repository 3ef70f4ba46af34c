-- ===== src/Dns/Entries.antt =====
-- The files of the networks: the entries of containers are added at the end, and deleted.
use netavark.Prelude.{
  ℕ, String, ◌<>◌, Bool, true, false, not, ◌&&◌, Option, none, some, List, [], ◌∷◌, map, ok, err,
  leb, join, str_eq, if◌then◌else◌, ◌+◌,
}
use netavark.Prelude.Dict.{Dict}
use netavark.Error.{IoError, IoKind, not_found}
use netavark.Network.Types.{IpAddr, Network, NetworkOptions}
use netavark.Commands.{AardvarkEntry, is_already_exists}
use netavark.Dns.Files.{Files, LineText, IoAction, pure, fail, ◌>>=◌, ◌>>◌, or_error}
use netavark.Dns.Server.{Aardvark, other_error, notify}

abbrev pub is_not_found : IoKind → Bool
is_not_found not_found = true
is_not_found _ = false

abbrev pub is_no_texts : List String → Bool
is_no_texts [] = true
is_no_texts (_ ∷ _) = false

abbrev pub is_no_entries : List AardvarkEntry → Bool
is_no_entries [] = true
is_no_entries (_ ∷ _) = false

module _ (F : Files) (text : LineText) where
  abbrev pub show_ips : List IpAddr → String
  show_ips ips = join "," (map text.show_ip ips)

  -- The column of the DNS servers, if there are any.
  abbrev pub servers_column : Option (List IpAddr) → String
  servers_column none = ""
  servers_column (some []) = ""
  servers_column (some (s ∷ ss)) = " " <> show_ips (s ∷ ss)

  -- The first line of a network's file, without its end.
  abbrev pub header_line : AardvarkEntry → String
  header_line entry = show_ips entry.network_gateways <> servers_column entry.network_dns_servers

  -- The line of a container.
  abbrev pub entry_line : AardvarkEntry → String
  entry_line entry =
      entry.container_id
      <> (" "
          <> (show_ips entry.container_ips_v4
              <> (" "
                  <> (show_ips entry.container_ips_v6
                      <> (" "
                          <> (join "," entry.container_names
                              <> servers_column entry.container_dns_servers))))))

  unfoldable pub commit_entry : String → AardvarkEntry → IoAction F.State Unit
  commit_entry path entry = F.write_all path (entry_line entry <> "\n")

  -- A new file gets the first line; a file that is there is appended to.
  unfoldable pub open_file : String → AardvarkEntry → IoAction F.State Unit
  open_file path entry s =
      let (r, s') = F.create_new path s in
      elim r [
        | ok _ ↦ F.write_all path (header_line entry <> "\n") s'
        | err e ↦ if is_already_exists e.kind then F.open_append path s' else (err e, s')
      ]

  module _ (a : Aardvark) (show_entry : AardvarkEntry → String) where
    abbrev pub lock_path : String
    lock_path = text.join_path (text.join_path a.config "..") "aardvark.lock"

    abbrev pub unlock_error : IoError → IoError
    unlock_error er =
        other_error
          ("Failed to unlock exclusive lock on " <> (text.show_path lock_path <> (": " <> er.text)))

    abbrev pub unlock : IoAction F.State Unit
    unlock = or_error unlock_error (F.unlock lock_path)

    -- The loop. A failure of a commit is reported after the lock is dropped.
    unfoldable pub commit_all : List AardvarkEntry → IoAction F.State Unit
    commit_all [] s = (ok tt, s)
    commit_all (entry ∷ entries) s =
        let path = text.join_path a.config entry.network_name in
        let (r, s1) = open_file path entry s in
        elim r [
          | err e ↦ (err e, s1)
          | ok _ ↦
              let (r', s2) = commit_entry path entry s1 in
              elim r' [
                | ok _ ↦ commit_all entries s2
                | err er ↦
                    (unlock
                        >> fail (
                            other_error (
                              "Failed to commit entry "
                              <> (show_entry entry <> (": " <> er.text)))))
                      s2
              ]
        ]

    unfoldable pub commit_entries : List AardvarkEntry → IoAction F.State Unit
    commit_entries entries = do
      or_error
          (λ e.
            other_error
              ("Failed to open/create lockfile " <> (text.show_path lock_path <> (": " <> e.text))))
          (F.open_lock lock_path)
      or_error
          (λ er. other_error (
            "Failed to acquire exclusive lock on "
            <> (text.show_path lock_path <> (": " <> er.text))))
          (F.lock_exclusive lock_path)
      commit_all entries
      unlock

    unfoldable pub commit_netavark_entries : List AardvarkEntry → IoAction F.State Unit
    commit_netavark_entries entries =
        if not (is_no_entries entries)
        then (commit_entries entries >> notify F text a true)
        else pure tt

  -- The lines that do not have the id are written, each with an end, and counted.
  unfoldable pub write_lines : String → String → List String → ℕ → IoAction F.State ℕ
  write_lines path container_id [] idx = pure idx
  write_lines path container_id (line ∷ lines) idx =
      if text.contains_text line container_id
      then write_lines path container_id lines idx
      else (F.write_all path line
          >> F.write_all path "\n"
          >> write_lines path container_id lines (idx + 1))

  module _ (a : Aardvark) where
    unfoldable pub delete_entry : String → String → IoAction F.State Unit
    delete_entry container_id network_name = do
      let path = text.join_path a.config network_name
      file_content ← F.read_to_string path
      F.create path
      idx ← write_lines path container_id (text.split_terminator file_content) 0
      if leb idx 1 then F.remove_file path else pure tt

    -- The networks with DNS, and whether there was one.
    unfoldable pub delete_entries : String → Dict Network → Bool → IoAction F.State Bool
    delete_entries container_id [] modified = pure modified
    delete_entries container_id ((key, network) ∷ networks) modified =
        if network.dns_enabled && str_eq network.driver "bridge"
        then (delete_entry container_id key >> delete_entries container_id networks true)
        else delete_entries container_id networks modified

    unfoldable pub delete_from_netavark_entries : NetworkOptions → IoAction F.State Unit
    delete_from_netavark_entries options = do
      modified ← delete_entries options.container_id options.network_info false
      if modified then notify F text a false else pure tt

    abbrev pub new_servers : List String → String
    new_servers servers = if is_no_texts servers then "" else " " <> join "," servers

    abbrev pub copy_lines : String → List String → IoAction F.State Unit
    copy_lines path [] = pure tt
    copy_lines path (line ∷ lines) =
        F.write_all path line >> F.write_all path "\n" >> copy_lines path lines

    -- The first line keeps its first column and gets the new servers; whether the servers were
    -- modified. A split has at least one part.
    unfoldable pub modify_lines : String → List String → List String → IoAction F.State Bool
    modify_lines path servers [] = pure false
    modify_lines path servers (line ∷ lines) = elim (text.split_at " " line) [
      | [] ↦ fail (other_error ("invalid network configuration file: " <> path))
      | part ∷ _ ↦
          F.write_all path (part <> new_servers servers)
          >> F.write_all path "\n"
          >> copy_lines path lines
          >> pure (not (is_no_texts servers))
    ]

    unfoldable pub modify_network_dns_servers : String → List String → IoAction F.State Unit
    modify_network_dns_servers network_name servers s =
        let path = text.join_path a.config network_name in
        let (r, s') = F.read_to_string path s in
        elim r [
          | err e ↦ if is_not_found e.kind then (ok tt, s') else (err e, s')
          | ok file_content ↦
              (F.create path >>= λ _.
              modify_lines path servers (text.split_terminator file_content) >>= λ modified.
              if modified then notify F text a false else pure tt)
                s'
        ]
