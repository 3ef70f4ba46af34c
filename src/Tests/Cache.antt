-- ===== src/Tests/Cache.antt =====
-- The cache of leases over bytes in memory, at concrete inputs.
use netavark.Prelude.{ℕ, ◌+◌, ◌≡◌, refl, String, some, List, [], ◌∷◌, ok, length, arith}
use netavark.Prelude.Dict.{Dict, lookup}
use netavark.Dhcp.Cache.{
  Lease, Writer, blank_lease, LeaseCache, save_memory_to_fs, add_lease, remove_lease,
}
use netavark.Dhcp.Cache.Valid.{IsValid, lookup-add_lease, lease-IsValid, add_lease-remove_lease}
use netavark.Dhcp.Cache.Clear.{
  write_at, resized, cursor_writer, OpenFile, IsFile, clear_file, file_writer,
}
use netavark.Dhcp.Cache.Saved.{saved_cursor, saved_file}

-- `{`, the number of leases, `}`.
abbrev to_json : Dict (List Lease) → List ℕ
to_json mem = 123 ∷ length mem ∷ 125 ∷ []

abbrev pub cursor : Writer
cursor = cursor_writer to_json

-- The bytes of the file, and the position of the next write.
abbrev open_file : OpenFile
open_file = record {
  State = List ℕ × ℕ;
  set_len = λ n s. (ok tt, (resized n s.0, s.1));
  write_all = λ new s. (ok tt, (write_at s.1 new s.0, s.1 + length new));
  flush = λ s. (ok tt, s);
}

abbrev open_file-IsFile : IsFile open_file
open_file-IsFile = record {
  bytes = λ s. s.0;
  position = λ s. s.1;
  set_len_law = λ n s h. (refl, refl);
  write_all_law = λ new s h. (refl, refl);
  flush_law = λ s. (refl, refl);
}

abbrev file : Writer
file = file_writer open_file to_json

abbrev pub mac : String
mac = "aa:bb:cc:dd:ee:ff"

abbrev pub lease : Lease
lease = record blank_lease { yiaddr = "192.168.1.7"; lease_time = 3600 }

abbrev empty_cache : LeaseCache file
empty_cache = record { mem = []; writer = ([], 0) }

abbrev one_lease : LeaseCache file
one_lease = (add_lease file mac lease empty_cache).1

abbrev cursor_cache : LeaseCache cursor
cursor_cache = record {
  mem = (mac, lease ∷ []) ∷ [];
  writer = record { inner = 1 ∷ 2 ∷ []; pos = 2 };
}

empty_cache-IsValid : IsValid file empty_cache
empty_cache-IsValid mac leases h = (blank_lease, ground (arith, h))

lookup-add_lease_example : lookup mac one_lease.mem ≡ some (lease ∷ [])
lookup-add_lease_example = lookup-add_lease file mac mac lease empty_cache

lease-IsValid_example : IsValid file one_lease × IsValid file (remove_lease file mac empty_cache).1
lease-IsValid_example = lease-IsValid file mac lease empty_cache empty_cache-IsValid

add_lease-remove_lease_example : (remove_lease file mac one_lease).0 ≡ some (ok lease)
unfolding save_memory_to_fs add_lease clear_file
add_lease-remove_lease_example = add_lease-remove_lease file mac lease empty_cache

saved_cursor_example : save_memory_to_fs cursor cursor_cache ≡ (
  ok tt,
  record { mem = cursor_cache.mem; writer = record { inner = 123 ∷ 1 ∷ 125 ∷ []; pos = 3 } },
)
saved_cursor_example = saved_cursor to_json cursor_cache

-- The second write to the file leaves three zeros in front.
saved_file_example :
    ((save_memory_to_fs file one_lease).1.writer.0 ≡ 0 ∷ 0 ∷ 0 ∷ 123 ∷ 1 ∷ 125 ∷ [])
    × ((save_memory_to_fs file one_lease).1.writer.1 ≡ 6)
unfolding save_memory_to_fs add_lease clear_file
saved_file_example = saved_file open_file open_file-IsFile to_json one_lease refl refl
