-- ===== src/Dhcp/Cache/Clear.antt =====
-- The trait `Clear` of `src/dhcp_proxy/cache.rs` for its two writers: the cursor over bytes in
-- memory that the tests use, and the file of the proxy. A writer is made with what prints the map.
use netavark.Prelude.{
  ℕ, zero, suc, ◌+◌, ◌≡◌, String, true, List, [], ◌∷◌, ◌++◌, Result, ok, err, is_ok, length, drop,
}
use netavark.Prelude.Dict.{Dict}
use netavark.Error.{IoError}
use netavark.Dhcp.Cache.{Lease, Writer}

-- `write` at a position: what is there is overwritten, and a gap in front is filled with zeros.
abbrev pub write_at : ℕ → List ℕ → List ℕ → List ℕ
write_at zero new old = new ++ drop (length new) old
write_at (suc n) new [] = 0 ∷ write_at n new []
write_at (suc n) new (b ∷ old) = b ∷ write_at n new old

-- `set_len`: the bytes are cut off at the length, or filled up with zeros.
abbrev pub resized : ℕ → List ℕ → List ℕ
resized zero old = []
resized (suc n) [] = 0 ∷ resized n []
resized (suc n) (b ∷ old) = b ∷ resized n old

-- `Cursor<Vec<u8>>` of the standard library.
pub record Cursor : Type 0 where
  pub inner : List ℕ
  pub pos : ℕ

abbrev pub set_position : ℕ → Cursor → Cursor
set_position n c = record c { pos = n }

-- `get_mut().clear()`
abbrev pub clear_inner : Cursor → Cursor
clear_inner c = record c { inner = [] }

abbrev pub write_cursor : List ℕ → Cursor → Cursor
write_cursor new c = record { inner = write_at c.pos new c.inner; pos = c.pos + length new }

unfoldable pub clear_cursor : Cursor → Result String Unit × Cursor
clear_cursor c = (ok tt, clear_inner (set_position 0 c))

abbrev pub cursor_writer : (Dict (List Lease) → List ℕ) → Writer
cursor_writer to_json = record {
  State = Cursor;
  clear = clear_cursor;
  write_all = λ new c. (ok tt, write_cursor new c);
  flush = λ c. (ok tt, c);
  to_json = to_json;
}

-- An open file. Each call may fail.
pub record OpenFile : Type 1 where
  pub State : Type 0
  pub set_len : ℕ → State → Result IoError Unit × State
  pub write_all : List ℕ → State → Result IoError Unit × State
  pub flush : State → Result IoError Unit × State

-- What the standard library says of the calls that succeed: each file has bytes and the position
-- of the next write, which `set_len` does not move.
pub record IsFile (F : OpenFile) : Type 0 where
  pub bytes : F.State → List ℕ
  pub position : F.State → ℕ
  pub set_len_law :
      (n : ℕ) (s : F.State)
      → is_ok (F.set_len n s).0 ≡ true
      → (bytes (F.set_len n s).1 ≡ resized n (bytes s)) × (position (F.set_len n s).1 ≡ position s)
  pub write_all_law :
      (new : List ℕ) (s : F.State)
      → is_ok (F.write_all new s).0 ≡ true
      → (bytes (F.write_all new s).1 ≡ write_at (position s) new (bytes s))
        × (position (F.write_all new s).1 ≡ position s + length new)
  pub flush_law :
      (s : F.State) → (bytes (F.flush s).1 ≡ bytes s) × (position (F.flush s).1 ≡ position s)

-- The text of the error is kept.
unfoldable pub clear_file : (F : OpenFile) → F.State → Result String Unit × F.State
clear_file F s =
    let (r, s') = F.set_len 0 s in elim r [ ok _ ↦ (ok tt, s') | err e ↦ (err e.text, s') ]

abbrev pub file_writer : OpenFile → (Dict (List Lease) → List ℕ) → Writer
file_writer F to_json = record {
  State = F.State;
  clear = clear_file F;
  write_all = F.write_all;
  flush = F.flush;
  to_json = to_json;
}
