-- ===== src/Dns/Server.antt =====
-- The server of aardvark-dns: it is told of a change by a signal, or started.
use netavark.Prelude.{
  ℕ, String, ◌<>◌, Bool, false, not, ◌||◌, ◌&&◌, Option, none, some, List, [], ◌∷◌, ◌++◌, ok, err,
  ◌==◌, if◌then◌else◌,
}
use netavark.Error.{IoError, other}
use netavark.Dns.Files.{Files, LineText, IoAction}

pub record Aardvark : Type 0 where
  pub config : String
  pub rootless : Bool
  pub aardvark_bin : String
  pub port : String

abbrev pub other_error : String → IoError
other_error text = record { kind = other; text = text }

-- ESRCH: there is no such process.
abbrev pub esrch : ℕ
esrch = 3

module _ (F : Files) (text : LineText) (a : Aardvark) where
  -- `none` is -1.
  unfoldable pub get_aardvark_pid : F.State → Option F.Pid × F.State
  get_aardvark_pid s =
      let (r, s') = F.read_to_string (text.join_path a.config "aardvark.pid") s in
      elim r [ ok content ↦ (F.parse_pid content, s') | err _ ↦ (none, s') ]

  abbrev pub is_in_paths : String → List String → F.State → Bool
  is_in_paths program [] s = false
  is_in_paths program (p ∷ ps) s =
      F.path_exists (p <> ("/" <> program)) s || is_in_paths program ps s

  unfoldable pub is_executable_in_path : String → F.State → Bool
  is_executable_in_path program s = elim (F.path_variable s) [
    | none ↦ false
    | some path ↦ is_in_paths program (text.split_at ":" path) s
  ]

  abbrev pub systemd_args : List String
  systemd_args =
      if a.rootless
      then "systemd-run" ∷ "-q" ∷ "--scope" ∷ "--user" ∷ []
      else "systemd-run" ∷ "-q" ∷ "--scope" ∷ []

  -- The words of the command.
  unfoldable pub aardvark_args : F.State → List String
  aardvark_args s =
      let words = a.aardvark_bin ∷ "--config" ∷ a.config ∷ "-p" ∷ a.port ∷ "run" ∷ [] in
      if F.path_exists "/run/systemd/system" s && is_executable_in_path "systemd-run" s
      then systemd_args ++ words
      else words

  unfoldable pub start_aardvark_server : IoAction F.State Unit
  start_aardvark_server s = F.run_command (aardvark_args s) s

  abbrev pub start_or_fail : Bool → IoAction F.State Unit
  start_or_fail start s =
      if not start then (err (other_error "aardvark pid not found"), s) else start_aardvark_server s

  unfoldable pub notify : Bool → IoAction F.State Unit
  notify start s =
      let (found, s') = get_aardvark_pid s in
      elim found [
        | none ↦ start_or_fail start s'
        | some pid ↦
            let (r, t) = F.kill_hup pid s' in
            elim r [
              | ok _ ↦ (ok tt, t)
              | err (errno, shown) ↦
                  if not (errno == esrch)
                  then (err (other_error ("failed to send SIGHUP to aardvark: " <> shown)), t)
                  else start_or_fail start t
            ]
      ]
