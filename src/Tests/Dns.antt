-- ===== src/Tests/Dns.antt =====
-- The file of a network, in memory, at concrete inputs.
use netavark.Prelude.{
  String, ◌<>◌, ◌≡◌, refl, false, Option, none, some, List, [], ◌∷◌, ok, err, str_eq, if◌then◌else◌,
  arith,
}
use netavark.Error.{IoError, not_found, already_exists}
use netavark.Network.Types.{v4}
use netavark.Commands.{AardvarkEntry}
use netavark.Dns.Files.{Files, LineText}
use netavark.Dns.Server.{Aardvark}
use netavark.Dns.Entries.{
  open_file, commit_entry, commit_all, commit_entries, write_lines, delete_entry,
}
use netavark.Dns.Kept.{FileLaws, delete_entry_lem}
use netavark.Dns.Committed.{AppendLaws, delete_entry-commit_entries}

abbrev missing : IoError
missing = record { kind = not_found; text = "missing" }

abbrev there_already : IoError
there_already = record { kind = already_exists; text = "there" }

abbrev added : Option String → String → Option String
added none t = none
added (some c) t = some (c <> t)

-- One file, which may be missing.
abbrev one_file : Files
one_file = record {
  State = Option String;
  Pid = Unit;
  read_to_string = λ p s. elim s [ none ↦ (err missing, none) | some t ↦ (ok t, some t) ];
  create = λ p s. (ok tt, some "");
  create_new = λ p s. elim s [ none ↦ (ok tt, some "") | some t ↦ (err there_already, some t) ];
  open_append = λ p s. (ok tt, s);
  write_all = λ p t s. (ok tt, added s t);
  remove_file = λ p s. (ok tt, none);
  open_lock = λ l s. (ok tt, s);
  lock_exclusive = λ l s. (ok tt, s);
  unlock = λ l s. (ok tt, s);
  path_exists = λ p s. false;
  path_variable = λ s. none;
  run_command = λ args s. (ok tt, s);
  parse_pid = λ t. none;
  kill_hup = λ p s. (ok tt, s);
}

read_file :
    (p t : String) (s : Option String)
    → (one_file.read_to_string p s).0 ≡ ok t
    → (s ≡ some t) × ((one_file.read_to_string p s).1 ≡ some t)
read_file p t none h = ground (arith, h)
read_file p t (some u) h = ground (arith, h)

written : (p t c : String) (s : Option String) → s ≡ some c → added s t ≡ some (c <> t)
written p t c s h = rw h refl

abbrev one_file-FileLaws : FileLaws one_file
one_file-FileLaws = record {
  content = λ p s. s;
  read_law = read_file;
  create_law = λ p s h. refl;
  write_law = λ p t c s h ok_. written p t c s h;
  remove_law = λ p s h. refl;
}

not_made :
    (p c : String) (s : Option String)
    → s ≡ some c
    → ((e : IoError) × ((one_file.create_new p s).0 ≡ err e))
      × ((one_file.create_new p s).1 ≡ some c)
not_made p c none h = ground (arith, h)
not_made p c (some u) h = ((there_already, refl), h)

abbrev one_file-AppendLaws : AppendLaws one_file one_file-FileLaws
one_file-AppendLaws = record {
  create_new_law = not_made;
  append_law = λ p s. refl;
  open_lock_law = λ l p s. refl;
  lock_law = λ l p s. refl;
  unlock_law = λ l p s. refl;
}

abbrev entry : AardvarkEntry
entry = record {
  network_name = "podman";
  network_gateways = [];
  network_dns_servers = none;
  container_id = "c1";
  container_ips_v4 = v4 0 ∷ [];
  container_ips_v6 = [];
  container_names = "web" ∷ [];
  container_dns_servers = none;
}

abbrev line : String
line = "c1 0.0.0.0  web"

abbrev others : List String
others = "10.88.0.1" ∷ "c2 10.88.0.3  db" ∷ []

abbrev line_text : LineText
line_text = record {
  join_path = λ a b. a <> ("/" <> b);
  split_terminator = λ t.
      if str_eq t "10.88.0.1\nc2 10.88.0.3  db\nc1 0.0.0.0  web\n"
      then "10.88.0.1" ∷ "c2 10.88.0.3  db" ∷ "c1 0.0.0.0  web" ∷ []
      else [];
  split_at = λ sep t. t ∷ [];
  contains_text = λ l i. str_eq l "c1 0.0.0.0  web";
  show_ip = λ ip. "0.0.0.0";
  show_path = λ p. p;
}

abbrev server : Aardvark
server = record { config = "/run"; rootless = false; aardvark_bin = "aardvark-dns"; port = "53" }

delete_entry_lem_example :
    (delete_entry one_file line_text server "c1" "podman"
      (some "10.88.0.1\nc2 10.88.0.3  db\nc1 0.0.0.0  web\n")).1
    ≡ some "10.88.0.1\nc2 10.88.0.3  db\n"
unfolding delete_entry write_lines
delete_entry_lem_example =
    delete_entry_lem one_file one_file-FileLaws line_text server "c1" "podman"
      "10.88.0.1\nc2 10.88.0.3  db\nc1 0.0.0.0  web\n"
      (some "10.88.0.1\nc2 10.88.0.3  db\nc1 0.0.0.0  web\n") refl refl

delete_entry-commit_entries_example :
    (delete_entry one_file line_text server "c1" "podman"
      (commit_entries one_file line_text server
        (λ e. "entry")
        (entry ∷ [])
        (some "10.88.0.1\nc2 10.88.0.3  db\n")).1).1
    ≡ some "10.88.0.1\nc2 10.88.0.3  db\n"
unfolding delete_entry write_lines commit_entries commit_all commit_entry open_file
delete_entry-commit_entries_example =
    delete_entry-commit_entries one_file one_file-FileLaws one_file-AppendLaws line_text server
      (λ e. "entry") others entry (some "10.88.0.1\nc2 10.88.0.3  db\n") refl (omega arith)
      (refl, (refl, tt)) refl refl refl refl
