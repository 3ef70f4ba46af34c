-- ===== src/Dns/Committed.antt =====
-- About `commit_entries` and `delete_entry` together: an entry is added, and taken out again.
use netavark.Prelude.{
  String, ◌<>◌, ◌≤◌, ◌≡◌, true, false, some, List, [], ◌∷◌, ◌++◌, ok, err, inl, inr, arith, length,
  All, Bool-cases, Result-cases,
}
use text.Mathlib.TextLemmas.{append_assoc, append-nil, nil-append}
use netavark.Error.{IoError}
use netavark.Commands.{AardvarkEntry, is_already_exists}
use netavark.Dns.Files.{Files, LineText}
use netavark.Dns.Server.{Aardvark}
use netavark.Dns.Entries.{
  entry_line, commit_entry, open_file, lock_path, commit_all, commit_entries, delete_entry,
}
use netavark.Dns.Kept.{FileLaws, unlines, without, delete_entry_lem, delete_entry-read}

-- What is relied on besides: a file that is there is not made again, opening it to append leaves
-- it, and the lock has nothing to do with it.
pub record AppendLaws (F : Files) (N : FileLaws F) : Type 0 where
  pub create_new_law :
      (p c : String) (s : F.State)
      → N.content p s ≡ some c
      → ((e : IoError) × ((F.create_new p s).0 ≡ err e))
        × (N.content p (F.create_new p s).1 ≡ some c)
  pub append_law : (p : String) (s : F.State) → N.content p (F.open_append p s).1 ≡ N.content p s
  pub open_lock_law : (l p : String) (s : F.State) → N.content p (F.open_lock l s).1 ≡ N.content p s
  pub lock_law : (l p : String) (s : F.State) → N.content p (F.lock_exclusive l s).1 ≡ N.content p s
  pub unlock_law : (l p : String) (s : F.State) → N.content p (F.unlock l s).1 ≡ N.content p s

unlines-append :
    (ls : List String) (l : String) → unlines ls <> (l <> "\n") ≡ unlines (ls ++ (l ∷ []))
unlines-append [] l = ground (arith, nil-append (l <> "\n"), append-nil "\n")
unlines-append (m ∷ ls) l = ground (
  arith,
  unlines-append ls l,
  append_assoc m ("\n" <> unlines ls) (l <> "\n"),
  append_assoc "\n" (unlines ls) (l <> "\n"),
)

module _ (F : Files) (N : FileLaws F) (A : AppendLaws F N) (text : LineText) (a : Aardvark) where
  open_file-content :
      (path c : String) (entry : AardvarkEntry) (s : F.State)
      → N.content path s ≡ some c
      → (open_file F text path entry s).0 ≡ ok tt
      → N.content path (open_file F text path entry s).1 ≡ some c
  unfolding open_file
  open_file-content path c entry s old h =
      let ((e, there), keeps) = A.create_new_law path c s old in
      let s1 = (F.create_new path s).1 in
      elim (Bool-cases (is_already_exists e.kind)) [
        | inl b ↦ ground (arith, there, keeps, b, h, A.append_law path s1)
        | inr b ↦ ground (arith, there, b, h)
      ]

  commit_all-content :
      (show_entry : AardvarkEntry → String) (c : String) (entry : AardvarkEntry) (s : F.State)
      → let path = text.join_path a.config entry.network_name in
        N.content path s ≡ some c
        → (commit_all F text a show_entry (entry ∷ []) s).0 ≡ ok tt
        → N.content
            (text.join_path a.config entry.network_name)
            (commit_all F text a show_entry (entry ∷ []) s).1
          ≡ some (c <> (entry_line F text entry <> "\n"))
  unfolding commit_all commit_entry
  commit_all-content show_entry c entry s old h =
      let path = text.join_path a.config entry.network_name in
      let opened = open_file F text path entry s in
      let line = entry_line F text entry <> "\n" in
      elim (Result-cases opened.0) [
        | inr (_, q) ↦ ground (arith, q, h)
        | inl (_, q) ↦
            let kept = open_file-content path c entry s old q in
            elim (Result-cases (F.write_all path line opened.1).0) [
              | inl (_, q') ↦ ground (arith, q, q', N.write_law path line c opened.1 kept q')
              | inr (_, q') ↦
                  let t = (F.write_all path line opened.1).1 in
                  elim (Result-cases (F.unlock (lock_path F text a show_entry) t).0) [
                    | inl (_, q2) ↦ ground (arith, q, q', q2, h)
                    | inr (_, q2) ↦ ground (arith, q, q', q2, h)
                  ]
            ]
      ]

  -- A commit of one entry that succeeds adds its line at the end of the file that is there.
  commit_entries-content :
      (show_entry : AardvarkEntry → String) (c : String) (entry : AardvarkEntry) (s : F.State)
      → let path = text.join_path a.config entry.network_name in
        N.content path s ≡ some c
        → (commit_entries F text a show_entry (entry ∷ []) s).0 ≡ ok tt
        → N.content
            (text.join_path a.config entry.network_name)
            (commit_entries F text a show_entry (entry ∷ []) s).1
          ≡ some (c <> (entry_line F text entry <> "\n"))
  unfolding commit_entries
  commit_entries-content show_entry c entry s old h =
      let path = text.join_path a.config entry.network_name in
      let l = lock_path F text a show_entry in
      let opened = F.open_lock l s in
      let locked = F.lock_exclusive l opened.1 in
      let all = commit_all F text a show_entry (entry ∷ []) locked.1 in
      elim (Result-cases opened.0) [
        | inr (_, q) ↦ ground (arith, q, h)
        | inl (_, q) ↦ elim (Result-cases locked.0) [
          | inr (_, q1) ↦ ground (arith, q, q1, h)
          | inl (_, q1) ↦ elim (Result-cases all.0) [
            | inr (_, q2) ↦ ground (arith, q, q1, q2, h)
            | inl (_, q2) ↦
                let kept : N.content path locked.1 ≡ some c =
                  ground (arith, old, A.open_lock_law l path s, A.lock_law l path opened.1) in
                let added = commit_all-content show_entry c entry locked.1 kept q2 in
                elim (Result-cases (F.unlock l all.1).0) [
                  | inr (_, q3) ↦ ground (arith, q, q1, q2, q3, h)
                  | inl (_, q3) ↦ ground (arith, q, q1, q2, q3, added, A.unlock_law l path all.1)
                ]
          ]
        ]
      ]

  -- The lines that are left of a file with a line added.
  without-added :
      (container_id l : String) (ls : List String)
      → All (λ m. text.contains_text m container_id ≡ false) ls
      → text.contains_text l container_id ≡ true
      → without F N text container_id (ls ++ (l ∷ [])) ≡ ls
  without-added container_id l [] others has = ground (arith, has)
  without-added container_id l (m ∷ ls) others has =
      ground (arith, others.0, without-added container_id l ls others.1 has)

  -- If the file of a network has at least two lines, none of them with the id of a container, and
  -- the container's line has it and splits off again, then a commit of its entry and the deletion
  -- of the entry, where both succeed, leave the file as it was.
  pub delete_entry-commit_entries :
      (show_entry : AardvarkEntry → String) (ls : List String) (entry : AardvarkEntry) (s : F.State)
      → let path = text.join_path a.config entry.network_name in
        N.content path s ≡ some (unlines ls)
        → 2 ≤ length ls
        → All (λ m. text.contains_text m entry.container_id ≡ false) ls
        → text.contains_text (entry_line F text entry) entry.container_id ≡ true
        → let all = ls ++ (entry_line F text entry ∷ []) in
          text.split_terminator (unlines all) ≡ all
          → (commit_entries F text a show_entry (entry ∷ []) s).0 ≡ ok tt
          → let t = (commit_entries F text a show_entry (entry ∷ []) s).1 in
            (delete_entry F text a entry.container_id entry.network_name t).0 ≡ ok tt
            → let t = (commit_entries F text a show_entry (entry ∷ []) s).1 in
              N.content
                (text.join_path a.config entry.network_name)
                (delete_entry F text a entry.container_id entry.network_name t).1
              ≡ some (unlines ls)
  delete_entry-commit_entries show_entry ls entry s old two others has splits committed deleted =
      let path = text.join_path a.config entry.network_name in
      let line = entry_line F text entry in
      let t = (commit_entries F text a show_entry (entry ∷ []) s).1 in
      let added = commit_entries-content show_entry (unlines ls) entry s old committed in
      let (read, first) =
        delete_entry-read F N text a entry.container_id entry.network_name t deleted in
      ground (
        arith,
        added,
        first,
        N.read_law path read t first,
        unlines-append ls line,
        splits,
        two,
        delete_entry_lem F N text a entry.container_id entry.network_name read t first deleted,
        without-added entry.container_id line ls others has,
      )
