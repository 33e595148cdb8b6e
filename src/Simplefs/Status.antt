-- ===== src/Simplefs/Status.antt =====
-- The statuses of kernel/simplefs.c: 0, or an error, which is negative.
use agentic_os_harness.Common.{
  ℕ, zero, suc, ◌+◌, ◌≡◌, refl, Bool, true, false, not, ◌&&◌, Option, none, some, List, leb, ◌==◌,
  if◌then◌else◌, pos, negsuc, is_negative, ◌⊎◌, inl, inr, Bool-cases,
}
use agentic_os_harness.Disk.{BlockDevice}
use agentic_os_harness.Vfs.{FileInfo, has_flag, vfs_o_creat, vfs_o_trunc}
use agentic_os_harness.Vfs.Open.{OpenStatus}
use agentic_os_harness.Simplefs.State.{
  DirEntry, SimpleFs, Result, ok, err, Fs, and_then, eio, einval, enoent,
}
use agentic_os_harness.Simplefs.Sectors.{
  read_sector_of, write_sector_of, read_back, write_back, simplefs_mark_run_free,
}
use agentic_os_harness.Simplefs.Entries.{
  simplefs_normalize_path, simplefs_read_entry, simplefs_write_entry, simplefs_find_entry,
  find_entry_from, simplefs_find_free_entry, free_entry_from, same_name,
}
use agentic_os_harness.Simplefs.Files.{
  simplefs_open, create_entry, truncate_entry, open_found, info_of, new_entry, named,
}
use agentic_os_harness.Simplefs.Device.{simplefs_file_system, info_status}
use agentic_os_harness.Simplefs.State.{give, simplefs_max_files}
use agentic_os_harness.Simplefs.Entries.{entry_sector, entry_offset}
use agentic_os_harness.Simplefs.Layout.{entry_from, entry_bytes, patch}

module _ {D A : Type 0} where
  -- An error is a negative status.
  abbrev pub Fails : Result A × SimpleFs D → Type 0
  Fails (ok a, s) = Unit {0}
  Fails (err e, s) = is_negative e ≡ true

module _ {D A : Type 0} where
  either-Fails :
      (b : Bool) (x y : Result A × SimpleFs D) → Fails x → Fails y → Fails (if b then x else y)
  either-Fails true x y p q = p
  either-Fails false x y p q = q

module _ {D A B : Type 0} where
  and_then-Fails :
      (r : Result A × SimpleFs D) (f : A → Fs D B)
      → Fails r
      → ((a : A) (s : SimpleFs D) → Fails (f a s))
      → Fails (and_then r f)
  and_then-Fails (ok a, s) f h k = k a s
  and_then-Fails (err e, s) f h k = h

module _ {D : Type 0} (dev : BlockDevice D) where
  read_back-Fails : (s : SimpleFs D) (o : Option (List ℕ)) → Fails (read_back dev s o)
  unfolding read_back
  read_back-Fails s none = refl
  read_back-Fails s (some bytes) = tt

  write_back-Fails : (s : SimpleFs D) (o : Option D) → Fails (write_back dev s o)
  unfolding write_back
  write_back-Fails s none = refl
  write_back-Fails s (some disk) = tt

  read_entry-Fails : (i : ℕ) (s : SimpleFs D) → Fails (simplefs_read_entry dev i s)
  unfolding simplefs_read_entry read_sector_of
  read_entry-Fails i s =
      either-Fails (leb simplefs_max_files i) (err einval, s)
        (and_then (read_back dev s (dev.read_sector s.disk (entry_sector dev s i)))
          (λ sector. give (entry_from sector (entry_offset dev i))))
        refl
        (and_then-Fails (read_back dev s (dev.read_sector s.disk (entry_sector dev s i)))
          (λ sector. give (entry_from sector (entry_offset dev i)))
          (read_back-Fails s (dev.read_sector s.disk (entry_sector dev s i))) (λ a t. tt))

  write_entry-Fails :
      (i : ℕ) (entry : DirEntry) (s : SimpleFs D) → Fails (simplefs_write_entry dev i entry s)
  unfolding simplefs_write_entry read_sector_of write_sector_of
  write_entry-Fails i entry s =
      let lba = entry_sector dev s i in
      let store : List ℕ → Fs D (Unit {0}) = λ sector t.
        write_back dev t
          (dev.write_sector t.disk lba (patch sector (entry_offset dev i) (entry_bytes entry))) in
      either-Fails (leb simplefs_max_files i) (err einval, s)
        (and_then (read_back dev s (dev.read_sector s.disk lba)) store) refl
        (and_then-Fails (read_back dev s (dev.read_sector s.disk lba)) store
          (read_back-Fails s (dev.read_sector s.disk lba))
          (λ sector t.
            write_back-Fails t (
              dev.write_sector t.disk lba (patch sector (entry_offset dev i) (entry_bytes entry)))))

  pub find_entry_from-Fails :
      (n i : ℕ) (name : List ℕ) (s : SimpleFs D) → Fails (find_entry_from dev n i name s)
  unfolding find_entry_from
  find_entry_from-Fails zero i name s = refl
  find_entry_from-Fails (suc n) i name s =
      and_then-Fails (simplefs_read_entry dev i s) _ (read_entry-Fails i s) (λ entry t.
        elim (Bool-cases (not (entry.used == 0) && same_name entry.name name)) [
          | inl hit ↦ rw hit tt
          | inr miss ↦ rw miss (find_entry_from-Fails n (i + 1) name t)
        ])

  free_entry_from-Fails : (n i : ℕ) (s : SimpleFs D) → Fails (free_entry_from dev n i s)
  unfolding free_entry_from
  free_entry_from-Fails zero i s = refl
  free_entry_from-Fails (suc n) i s =
      and_then-Fails (simplefs_read_entry dev i s) _ (read_entry-Fails i s) (λ entry t.
        elim (Bool-cases (entry.used == 0)) [
          | inl free ↦ rw free tt
          | inr used ↦ rw used (free_entry_from-Fails n (i + 1) t)
        ])

  create_entry-Fails : (name : List ℕ) (s : SimpleFs D) → Fails (create_entry dev name s)
  unfolding create_entry simplefs_find_free_entry
  create_entry-Fails name s =
      and_then-Fails (free_entry_from dev 32 0 s) _ (free_entry_from-Fails 32 0 s) (λ index t.
        and_then-Fails (simplefs_write_entry dev index (new_entry name) t) _
          (write_entry-Fails index (new_entry name) t) (λ a u. tt))

  truncate_entry-Fails :
      (index : ℕ) (entry : DirEntry) (s : SimpleFs D) → Fails (truncate_entry dev index entry s)
  unfolding truncate_entry
  truncate_entry-Fails index entry s =
      let emptied = record entry { start_sector = 0; size_bytes = 0; allocated_sectors = 0 } in
      let t = simplefs_mark_run_free s entry.start_sector entry.allocated_sectors in
      and_then-Fails (simplefs_write_entry dev index emptied t) (λ _. give emptied)
        (write_entry-Fails index emptied t) (λ a u. tt)

  open_found-Fails :
      (name : List ℕ) (flags : ℕ) (r : Result (ℕ × DirEntry) × SimpleFs D)
      → Fails r
      → Fails (open_found dev name flags r)
  unfolding open_found
  open_found-Fails name flags (ok (index, entry), s) h =
      either-Fails (has_flag flags vfs_o_trunc) (truncate_entry dev index entry s) (ok entry, s)
        (truncate_entry-Fails index entry s) tt
  open_found-Fails name flags (err (pos n), s) h = h
  open_found-Fails name flags (err (negsuc zero), s) h = refl
  open_found-Fails name flags (err (negsuc (suc zero)), s) h =
      either-Fails (not (has_flag flags vfs_o_creat)) (err enoent, s) (create_entry dev name s) refl
        (create_entry-Fails name s)
  open_found-Fails name flags (err (negsuc (suc (suc n))), s) h = refl

  named-Fails :
      (path : Option (List ℕ)) (f : List ℕ → Fs D FileInfo) (s : SimpleFs D)
      → ((name : List ℕ) → Fails (f name s))
      → Fails (named dev path f s)
  named-Fails none f s h = refl
  named-Fails (some name) f s h = h name

  simplefs_open-Fails :
      (path : Option (List ℕ)) (flags : ℕ) (s : SimpleFs D) → Fails (simplefs_open dev path flags s)
  unfolding simplefs_open simplefs_find_entry
  simplefs_open-Fails path flags s =
      let body : List ℕ → Fs D FileInfo = λ name t.
        and_then (open_found dev name flags (simplefs_find_entry dev name t))
          (λ entry. give (info_of entry)) in
      either-Fails (not s.mounted) (err eio, s) (named dev (simplefs_normalize_path path) body s)
        refl
        (named-Fails (simplefs_normalize_path path) body s (λ name.
          and_then-Fails (open_found dev name flags (find_entry_from dev 32 0 name s))
            (λ entry. give (info_of entry))
            (open_found-Fails name flags (find_entry_from dev 32 0 name s)
              (find_entry_from-Fails 32 0 name s))
            (λ a u. tt)))

info_status-sign :
    {D : Type 0} (r : Result FileInfo × SimpleFs D)
    → Fails r
    → ((info_status r).0 ≡ pos 0) ⊎ (is_negative (info_status r).0 ≡ true)
info_status-sign (ok info, s) h = inl refl
info_status-sign (err e, s) h = inr h

-- On every block device, `simplefs_open` returns 0 or an error, as `vfs_open` relies on.
pub simplefs_file_system-OpenStatus :
    {D : Type 0} (dev : BlockDevice D) → OpenStatus (simplefs_file_system dev)
simplefs_file_system-OpenStatus dev path flags s =
    info_status-sign (simplefs_open dev (some path) flags s)
      (simplefs_open-Fails dev (some path) flags s)
