-- ===== src/Dns/Files.antt =====
-- What `src/dns/aardvark.rs` asks of the operating system: files, the lock, processes, and the
-- texts that the standard library splits. An open file is known by its path.
-- `parse_pid` gives nothing for a text that is no number, and for -1.
use netavark.Prelude.{ℕ, String, Bool, Option, List, Result, ok, err}
use netavark.Error.{IoError}
use netavark.Network.Types.{IpAddr}

pub record Files : Type 1 where
  pub State : Type 0
  pub Pid : Type 0
  pub read_to_string : String → State → Result IoError String × State
  pub create : String → State → Result IoError Unit × State
  pub create_new : String → State → Result IoError Unit × State
  pub open_append : String → State → Result IoError Unit × State
  pub write_all : String → String → State → Result IoError Unit × State
  pub remove_file : String → State → Result IoError Unit × State
  pub open_lock : String → State → Result IoError Unit × State
  pub lock_exclusive : String → State → Result IoError Unit × State
  pub unlock : String → State → Result IoError Unit × State
  pub path_exists : String → State → Bool
  pub path_variable : State → Option String
  pub parse_pid : String → Option Pid
  pub run_command : List String → State → Result IoError Unit × State
  pub kill_hup : Pid → State → Result (ℕ × String) Unit × State

-- What the standard library does with paths, texts and addresses; `show_path` is `Debug`.
pub record LineText : Type 0 where
  pub join_path : String → String → String
  pub split_terminator : String → List String
  pub split_at : String → String → List String
  pub contains_text : String → String → Bool
  pub show_ip : IpAddr → String
  pub show_path : String → String

-- Code that works on files, with the errors of `std::io`.
abbrev pub IoAction : Type 0 → Type 0 → Type 0
IoAction S A = S → Result IoError A × S

module _ {S : Type 0} where
  abbrev pub pure : {A : Type 0} → A → IoAction S A
  pure a s = (ok a, s)

  abbrev pub fail : {A : Type 0} → IoError → IoAction S A
  fail e s = (err e, s)

  infixl 5 ◌>>=◌ ◌>>◌
  abbrev pub ◌>>=◌ : {A B : Type 0} → IoAction S A → (A → IoAction S B) → IoAction S B
  ◌>>=◌ m f s = let (r, s') = m s in elim r [ ok a ↦ f a s' | err e ↦ (err e, s') ]

  abbrev pub ◌>>◌ : {B : Type 0} → IoAction S Unit → IoAction S B → IoAction S B
  m >> k = m >>= λ _. k

  -- The error of a call, made into another.
  abbrev pub or_error : {A : Type 0} → (IoError → IoError) → IoAction S A → IoAction S A
  or_error f m s = let (r, s') = m s in elim r [ ok a ↦ (ok a, s') | err e ↦ (err (f e), s') ]
