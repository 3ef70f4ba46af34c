-- ===== src/Dns/Kept.antt =====
-- About `delete_entry`: which lines of a network's file are kept.
use netavark.Prelude.{
  ℕ, String, ◌<>◌, ◌+◌, ◌≡◌, Option, none, some, List, [], ◌∷◌, ok, inl, inr, arith, leb, length,
  if◌then◌else◌, Bool-cases, Result-cases,
}
use text.Mathlib.TextLemmas.{append_assoc, append-nil, nil-append}
use netavark.Dns.Files.{Files, LineText}
use netavark.Dns.Server.{Aardvark}
use netavark.Dns.Entries.{write_lines, delete_entry}

-- What is relied on of files: what a file has after a call that succeeds.
pub record FileLaws (F : Files) : Type 0 where
  pub content : String → F.State → Option String
  pub read_law :
      (p t : String) (s : F.State)
      → (F.read_to_string p s).0 ≡ ok t
      → (content p s ≡ some t) × (content p (F.read_to_string p s).1 ≡ some t)
  pub create_law :
      (p : String) (s : F.State) → (F.create p s).0 ≡ ok tt → content p (F.create p s).1 ≡ some ""
  pub write_law :
      (p t c : String) (s : F.State)
      → content p s ≡ some c
      → (F.write_all p t s).0 ≡ ok tt
      → content p (F.write_all p t s).1 ≡ some (c <> t)
  pub remove_law :
      (p : String) (s : F.State)
      → (F.remove_file p s).0 ≡ ok tt
      → content p (F.remove_file p s).1 ≡ none

-- Lines, each with its end.
abbrev pub unlines : List String → String
unlines [] = ""
unlines (l ∷ ls) = l <> ("\n" <> unlines ls)

module _ (F : Files) (N : FileLaws F) (text : LineText) where
  -- The lines without the id.
  abbrev pub without : String → List String → List String
  without container_id [] = []
  without container_id (l ∷ ls) =
      let rest = without container_id ls in
      if text.contains_text l container_id then rest else l ∷ rest

  write_lines-content :
      (path container_id c : String) (lines : List String) (idx n : ℕ) (s : F.State)
      → N.content path s ≡ some c
      → (write_lines F text path container_id lines idx s).0 ≡ ok n
      → (n ≡ idx + length (without container_id lines))
        × (N.content path (write_lines F text path container_id lines idx s).1
            ≡ some (c <> unlines (without container_id lines)))
  unfolding write_lines
  write_lines-content path container_id c [] idx n s old h = ground (arith, old, h, append-nil c)
  write_lines-content path container_id c (l ∷ ls) idx n s old h =
      elim (Bool-cases (text.contains_text l container_id)) [
        | inl has ↦ ground (arith, has, h, write_lines-content path container_id c ls idx n s old)
        | inr lacks ↦
            let s1 = F.write_all path l s in
            let s2 = F.write_all path "\n" s1.1 in
            elim (Result-cases s1.0) [
              | inr (_, q) ↦ ground (arith, lacks, q, h)
              | inl (_, q) ↦ elim (Result-cases s2.0) [
                | inr (_, q') ↦ ground (arith, lacks, q, q', h)
                | inl (_, q') ↦
                    let kept = unlines (without container_id ls) in
                    let ih =
                      write_lines-content path container_id ((c <> l) <> "\n") ls (idx + 1) n s2.1
                        (N.write_law path "\n" (c <> l) s1.1 (N.write_law path l c s old q) q')
                        (ground (arith, lacks, q, q', h)) in
                    ground (
                      arith,
                      lacks,
                      q,
                      q',
                      ih,
                      append_assoc c l ("\n" <> kept),
                      append_assoc (c <> l) "\n" kept,
                    )
              ]
            ]
      ]

  -- It reads the file first.
  pub delete_entry-read :
      (a : Aardvark) (container_id network_name : String) (s : F.State)
      → (delete_entry F text a container_id network_name s).0 ≡ ok tt
      → (t : String) × ((F.read_to_string (text.join_path a.config network_name) s).0 ≡ ok t)
  unfolding delete_entry
  delete_entry-read a container_id network_name s h =
      elim (Result-cases (F.read_to_string (text.join_path a.config network_name) s).0) [
        | inl (t, q) ↦ (t, q)
        | inr (_, q) ↦ ground (arith, q, h)
      ]

  -- If `delete_entry` succeeds, the file of the network is left with exactly the lines that do not
  -- have the id of the container, in their order; with one line or none of them it is removed.
  pub delete_entry_lem :
      (a : Aardvark) (container_id network_name file_content : String) (s : F.State)
      → let path = text.join_path a.config network_name in
        (F.read_to_string path s).0 ≡ ok file_content
        → (delete_entry F text a container_id network_name s).0 ≡ ok tt
        → let kept = without container_id (text.split_terminator file_content) in
          N.content
            (text.join_path a.config network_name)
            (delete_entry F text a container_id network_name s).1
          ≡ (if leb (length kept) 1 then none else some (unlines kept))
  unfolding delete_entry
  delete_entry_lem a container_id network_name file_content s read h =
      let path = text.join_path a.config network_name in
      let s1 = (F.read_to_string path s).1 in
      let created = F.create path s1 in
      let lines = text.split_terminator file_content in
      let wrote = write_lines F text path container_id lines 0 created.1 in
      elim (Result-cases created.0) [
        | inr (_, q) ↦ ground (arith, read, q, h)
        | inl (_, q) ↦ elim (Result-cases wrote.0) [
          | inr (_, q') ↦ ground (arith, read, q, q', h)
          | inl (n, q') ↦
              let done =
                write_lines-content path container_id "" lines 0 n created.1
                  (N.create_law path s1 q) q' in
              elim (Bool-cases (leb n 1)) [
                | inl few ↦ ground (arith, read, q, q', few, done, h, N.remove_law path wrote.1)
                | inr many ↦ ground (
                  arith,
                  read,
                  q,
                  q',
                  many,
                  done,
                  h,
                  nil-append (unlines (without container_id lines)),
                )
              ]
        ]
      ]
