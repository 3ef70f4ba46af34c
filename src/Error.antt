-- ===== src/Error.antt =====
-- The error type of the program, `src/error/mod.rs`. An error of another crate is kept as the
-- text that it displays, a netlink error with its code as well.
pub mod Flat
use netavark.Prelude.{ℕ, String, ◌<>◌, Bool, true, false, List, Result, ok, err}

-- `io::Error`: whether the file was missing, or was there already, and its text.
pub data IoKind : Type 0 where
  not_found already_exists other : IoKind

pub record IoError : Type 0 where
  pub kind : IoKind
  pub text : String

-- `netlink_packet_core::error::ErrorMessage`; `errno` is the negated `code`, as in `-e.code`.
pub record NetlinkError : Type 0 where
  pub errno : ℕ
  pub text : String

mutual
  pub data NetavarkError : Type 0 where
    message : String → NetavarkError
    exit_code : String → ℕ → NetavarkError
    chain : String → NetavarkError → NetavarkError
    io : IoError → NetavarkError
    dbus : String → NetavarkError
    dbus_variant : String → NetavarkError
    sysctl : String → NetavarkError
    serde : String → NetavarkError
    netlink : NetlinkError → NetavarkError
    dhcp_proxy : String → NetavarkError
    list : NetavarkErrorList → NetavarkError

  pub data NetavarkErrorList : Type 0 where
    nil : NetavarkErrorList
    cons : NetavarkError → NetavarkErrorList → NetavarkErrorList

abbrev pub NetavarkResult : Type 0 → Type 0
NetavarkResult A = Result NetavarkError A

-- `Vec::append`
abbrev pub append_list : NetavarkErrorList → NetavarkErrorList → NetavarkErrorList
append_list nil ys = ys
append_list (cons x xs) ys = cons x (append_list xs ys)

abbrev pub new_list : NetavarkErrorList
new_list = nil

-- A list of errors is flattened into the list it is pushed onto.
unfoldable pub push : NetavarkErrorList → NetavarkError → NetavarkErrorList
push xs (list ys) = append_list xs ys
push xs e = append_list xs (cons e nil)

abbrev pub is_empty : NetavarkErrorList → Bool
is_empty nil = true
is_empty (cons _ _) = false

abbrev pub msg : String → NetavarkError
msg text = message text

abbrev pub wrap_error : String → NetavarkError → NetavarkError
wrap_error text chained = chain text chained

-- `ErrorWrap::wrap`, on a result.
abbrev pub wrap : {A : Type 0} → NetavarkResult A → String → NetavarkResult A
wrap (ok a) text = ok a
wrap (err e) text = err (wrap_error text e)

-- The exit code of the process. Only an outermost `ExitCode` sets it.
unfoldable pub get_exit_code : NetavarkError → ℕ
get_exit_code (exit_code _ i) = i
get_exit_code e = 1

-- The innermost error of a chain.
unfoldable pub unwrap : NetavarkError → NetavarkError
unwrap (chain _ inner) = unwrap inner
unwrap e = e

unfoldable mutual
  -- `Display`
  pub show_error : NetavarkError → String
  show_error (message s) = s
  show_error (exit_code s _) = s
  show_error (chain s e) = s <> (": " <> show_error e)
  show_error (io e) = "IO error: " <> e.text
  show_error (dbus e) = "DBus error: " <> e
  show_error (dbus_variant e) = "DBus Variant Error: " <> e
  show_error (sysctl e) = "Sysctl error: " <> e
  show_error (serde e) = "JSON Decoding error: " <> e
  show_error (netlink e) = "Netlink error: " <> e.text
  show_error (dhcp_proxy e) = "dhcp proxy error: " <> e
  show_error (list xs) = show_list xs

  -- One error prints as itself, any other number of them under a heading.
  show_list : NetavarkErrorList → String
  show_list nil = "netavark encountered multiple errors:"
  show_list (cons e nil) = show_error e
  show_list (cons e (cons f xs)) =
      "netavark encountered multiple errors:"
      <> ("\n\t- " <> (show_error e <> ("\n\t- " <> (show_error f <> show_items xs))))

  show_items : NetavarkErrorList → String
  show_items nil = ""
  show_items (cons e xs) = "\n\t- " <> (show_error e <> show_items xs)
