-- ===== src/Simplefs/Format.antt =====
-- What `simplefs_format` of kernel/simplefs.c leaves: a volume that is mounted and empty.
use agentic_os_harness.Common.{
  ℕ, zero, suc, ◌+◌, ◌*◌, ◌/◌, ◌%◌, ◌≤◌, ◌<◌, ◌≡◌, refl, ◌∙◌, true, false, some, List, arith, ◌==◌,
  Bool-cases, inl, inr, length, get_or, get_or-replicate, length-replicate, add32,
}
use agentic_os_harness.Disk.{BlockDevice, IsDisk, sector_size}
use agentic_os_harness.Simplefs.State.{SimpleFs, Result, ok, err, enoent}
use agentic_os_harness.Simplefs.Layout.{entry_from, superblock_sector}
use agentic_os_harness.Simplefs.Sectors.{simplefs_write_superblock, write_sector_of, write_back}
use agentic_os_harness.Simplefs.Sectors.Allocate.{length-superblock_sector}
use agentic_os_harness.Simplefs.Entries.{
  simplefs_read_entry, mark_entry, mark_entries_from, simplefs_rebuild_allocation_map, system_map,
  simplefs_find_entry, find_entry_from,
}
use agentic_os_harness.Simplefs.Entries.Slots.{read_entry-eq}
use agentic_os_harness.Simplefs.Files.{
  simplefs_format, zero_from, blank_sector, fresh_superblock, rebuilt, simplefs_validate_dev,
}

blank-used : (i : ℕ) → i < 32 → (entry_from blank_sector (i % 8 * 64)).used ≡ 0
unfolding entry_from
blank-used i h =
    let byte : (j : ℕ) → j < 512 → get_or blank_sector j 0 ≡ 0 =
      λ j b. get_or-replicate 512 j 0 0 b in
    omega (
      arith,
      byte (i % 8 * 64) (omega arith),
      byte (i % 8 * 64 + 1) (omega arith),
      byte (i % 8 * 64 + 2) (omega arith),
      byte (i % 8 * 64 + 3) (omega arith),
    )

module _ {D : Type 0} (dev : BlockDevice D) where
  -- The four sectors of the directory are 0.
  abbrev pub IsBlank : D → Type 0
  IsBlank d = (j : ℕ) → 1 ≤ j → j ≤ 4 → dev.read_sector d j ≡ some blank_sector

  -- A volume that is mounted, with the first superblock and map, and no file.
  pub record Formatted (r : Result (Unit {0}) × SimpleFs D) : Type 0 where
    pub after : SimpleFs D
    pub result : r ≡ (ok tt, after)
    pub mounted : after.mounted ≡ true
    pub superblock : after.sb ≡ fresh_superblock dev
    pub map : after.sector_used ≡ system_map dev
    pub empty : (name : List ℕ) → simplefs_find_entry dev name after ≡ (err enoent, after)

  -- The sectors that `zero_from` leaves.
  record Zeroed (s : SimpleFs D) (n start : ℕ) (r : Result (Unit {0}) × SimpleFs D) : Type 0 where
    disk : D
    result : r ≡ (ok tt, record s { disk = disk })
    zeros : (j : ℕ) → start ≤ j → j < start + n → dev.read_sector disk j ≡ some blank_sector
    others :
        (j : ℕ)
        → j < start
        → j < dev.sector_count
        → dev.read_sector disk j ≡ dev.read_sector s.disk j

module _ {D : Type 0} (dev : BlockDevice D) (disk : IsDisk dev) (sectors : 5 < dev.sector_count)
    (few : dev.sector_count ≤ 4096) where
  read_blank :
      (s : SimpleFs D) (i : ℕ)
      → s.sb.dir_start ≡ 1
      → IsBlank dev s.disk
      → i < 32
      → simplefs_read_entry dev i s ≡ (ok (entry_from blank_sector (i % 8 * 64)), s)
  read_blank s i start blank h =
      read_entry-eq dev disk sectors s i blank_sector start h
        (blank (1 + i / 8) (omega arith) (omega arith))

  find_entry_from-blank :
      (n i : ℕ) (name : List ℕ) (s : SimpleFs D)
      → s.sb.dir_start ≡ 1
      → IsBlank dev s.disk
      → i + n ≤ 32
      → find_entry_from dev n i name s ≡ (err enoent, s)
  unfolding find_entry_from
  find_entry_from-blank zero i name s start blank h = refl
  find_entry_from-blank (suc n) i name s start blank h =
      rw (read_blank s i start blank (omega arith), blank-used i (omega arith))
        (find_entry_from-blank n (i + 1) name s start blank (omega arith))

  mark_entries_from-blank :
      (n i high : ℕ) (s : SimpleFs D)
      → s.sb.dir_start ≡ 1
      → IsBlank dev s.disk
      → i + n ≤ 32
      → mark_entries_from dev n i high s ≡ (ok high, s)
  unfolding mark_entries_from mark_entry
  mark_entries_from-blank zero i high s start blank h = refl
  mark_entries_from-blank (suc n) i high s start blank h =
      rw (read_blank s i start blank (omega arith), blank-used i (omega arith))
        (mark_entries_from-blank n (i + 1) high s start blank (omega arith))

  zero_from-Zeroed :
      (n start : ℕ) (s : SimpleFs D)
      → start + n ≤ dev.sector_count
      → Zeroed dev s n start (zero_from dev n start s)
  unfolding zero_from write_sector_of write_back
  zero_from-Zeroed zero start s room = record {
    disk = s.disk;
    result = refl;
    zeros = λ j a b. absurd (omega arith);
    others = λ j a b. refl;
  }
  zero_from-Zeroed (suc n) start s room =
      let w =
        disk.writes s.disk start blank_sector (omega arith) (length-replicate {A = ℕ} 512 0) in
      let z = zero_from-Zeroed n (start + 1) (record s { disk = w.0 }) (omega arith) in
      let next : add32 start 1 ≡ start + 1 = omega (arith, room, few) in
      record {
        disk = z.disk;
        result = rw (w.1, next) z.result;
        zeros = λ j a b. elim (Bool-cases (start == j)) [
          | inl here ↦
              z.others j (ground (arith, here)) (omega arith) ∙ (w.2 j (omega arith) ∙ rw here refl)
          | inr later ↦ z.zeros j (ground (arith, later)) (omega arith)
        ];
        others = λ j a b.
            let other : (start == j) ≡ false = ground arith in
            z.others j (omega arith) b ∙ (w.2 j b ∙ rw other refl);
      }

  -- A write to sector 0 leaves the directory blank.
  still-IsBlank :
      (d : D) (bytes : List ℕ) (size : length bytes ≡ sector_size)
      → IsBlank dev d
      → IsBlank dev (disk.writes d 0 bytes (omega arith) size).0
  still-IsBlank d bytes size blank j a b =
      let other : (0 == j) ≡ false = ground arith in
      (disk.writes d 0 bytes (omega arith) size).2 j (omega arith) ∙ (rw other (blank j a b))

  -- The map is rebuilt over an empty directory.
  rebuild-IsBlank :
      (old : SimpleFs D)
      → IsBlank dev old.disk
      → (d : D) × (simplefs_rebuild_allocation_map dev (record old { sb = fresh_superblock dev })
          ≡ (
            ok tt,
            record old { disk = d; sb = fresh_superblock dev; sector_used = system_map dev },
          ))
        × IsBlank dev d
  unfolding simplefs_rebuild_allocation_map simplefs_write_superblock write_sector_of write_back
  rebuild-IsBlank old blank =
      let fresh = fresh_superblock dev in
      let t = record old { sb = fresh; sector_used = system_map dev } in
      let size = length-superblock_sector fresh in
      let w = disk.writes old.disk 0 (superblock_sector fresh) (omega arith) size in
      (
        w.0,
        rw (mark_entries_from-blank 32 0 5 t refl blank (omega arith), w.1) refl,
        still-IsBlank old.disk (superblock_sector fresh) size blank,
      )

  -- On a disk of more than 5 and at most 4096 sectors of 512 bytes, `simplefs_format` succeeds in every
  -- state: the volume is mounted with the first superblock and only the sectors of the superblock and of
  -- the directory in use, and no name is found on it.
  pub simplefs_format-Formatted :
      (s : SimpleFs D) → dev.size_of_sector ≡ 512 → Formatted dev (simplefs_format dev s)
  unfolding simplefs_format write_sector_of write_back rebuilt simplefs_find_entry
  simplefs_format-Formatted s size =
      let fresh = fresh_superblock dev in
      let valid : simplefs_validate_dev dev ≡ true = ground (arith, size, sectors, few) in
      let w =
        disk.writes s.disk 0 (superblock_sector fresh) (omega arith)
          (length-superblock_sector fresh) in
      let t = record s { disk = w.0; sb = fresh } in
      let z = zero_from-Zeroed 4 1 t (omega arith) in
      let u = record t { disk = z.disk } in
      let r = rebuild-IsBlank u (λ j a b. z.zeros j a (omega arith)) in
      let after = record s {
        disk = r.0;
        sb = fresh;
        sector_used = system_map dev;
        mounted = true;
      } in
      record {
        after = after;
        result = rw (valid, w.1) (rw (z.result) (rw (r.1) refl));
        mounted = refl;
        superblock = refl;
        map = refl;
        empty = λ name. find_entry_from-blank 32 0 name after refl r.2 (omega arith);
      }
