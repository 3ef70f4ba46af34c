-- ===== src/Dhcp/Cache/Saved.antt =====
-- About the bytes that the cache writes: to the cursor of the tests, and to the file of the proxy.
use netavark.Prelude.{
  ℕ, zero, suc, ◌+◌, ◌≡◌, refl, ap, true, List, [], ◌∷◌, ◌++◌, ok, is_ok, length, drop, arith, inl,
  inr, Result-cases,
}
use mathlib.Core.List.{append-nil}
use netavark.Prelude.Dict.{Dict}
use netavark.Dhcp.Cache.{Lease, LeaseCache, save_memory_to_fs}
use netavark.Dhcp.Cache.Clear.{
  write_at, clear_cursor, cursor_writer, OpenFile, IsFile, clear_file, file_writer,
}

abbrev pub zeros : ℕ → List ℕ
zeros zero = []
zeros (suc n) = 0 ∷ zeros n

drop-empty : (n : ℕ) → drop {A = ℕ} n [] ≡ []
drop-empty zero = refl
drop-empty (suc n) = refl

write_at-empty : (n : ℕ) (new : List ℕ) → write_at n new [] ≡ zeros n ++ new
write_at-empty zero new = rw (drop-empty (length new)) (append-nil new)
write_at-empty (suc n) new = ap (λ bs. 0 ∷ bs) (write_at-empty n new)

module _ (to_json : Dict (List Lease) → List ℕ) where
  -- Whatever a cursor holds and wherever its position is, the cache is written to it with success:
  -- then its bytes are the map that is in memory and nothing else, its position is behind them, and
  -- the map in memory is as it was.
  pub saved_cursor :
      (cache : LeaseCache (cursor_writer to_json))
      → save_memory_to_fs (cursor_writer to_json) cache ≡ (
        ok tt,
        record {
          mem = cache.mem;
          writer = record { inner = to_json cache.mem; pos = length (to_json cache.mem) };
        },
      )
  unfolding save_memory_to_fs clear_cursor
  saved_cursor cache =
      let n = length (to_json cache.mem) in
      let start : 0 + n ≡ n = omega arith in rw (write_at-empty 0 (to_json cache.mem), start) refl

module _ (F : OpenFile) (L : IsFile F) (to_json : Dict (List Lease) → List ℕ) where
  clear_file-bytes :
      (s : F.State)
      → is_ok (clear_file F s).0 ≡ true
      → (L.bytes (clear_file F s).1 ≡ []) × (L.position (clear_file F s).1 ≡ L.position s)
  unfolding clear_file
  clear_file-bytes s cleared = elim (Result-cases (F.set_len 0 s).0) [
    | inl (_, q) ↦ ground (arith, q, L.set_len_law 0 s)
    | inr (e, q) ↦ ground (arith, q, cleared)
  ]

  -- Written to a file that could be cleared, with success, the bytes are as many zeros as the
  -- position was, and then the map; and the position is behind them.
  pub saved_file :
      (cache : LeaseCache (file_writer F to_json))
      → is_ok (clear_file F cache.writer).0 ≡ true
      → is_ok (save_memory_to_fs (file_writer F to_json) cache).0 ≡ true
      → (L.bytes (save_memory_to_fs (file_writer F to_json) cache).1.writer
          ≡ zeros (L.position cache.writer) ++ to_json cache.mem)
        × (L.position (save_memory_to_fs (file_writer F to_json) cache).1.writer
            ≡ L.position cache.writer + length (to_json cache.mem))
  unfolding save_memory_to_fs
  saved_file cache cleared saved =
      let s = (clear_file F cache.writer).1 in
      let new = to_json cache.mem in
      ground (
        arith,
        clear_file-bytes cache.writer cleared,
        L.write_all_law new s,
        L.flush_law (F.write_all new s).1,
        write_at-empty (L.position s) new,
      )
