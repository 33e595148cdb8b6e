-- ===== src/Simplefs/Entries/Slots.antt =====
-- The slots of the directory in kernel/simplefs.c: what is written is read, and nothing else changes.
use agentic_os_harness.Common.{
  ℕ, ◌+◌, ◌*◌, ◌/◌, ◌%◌, ◌≤◌, ◌<◌, ◌≡◌, refl, ap, sym, ◌∙◌, false, some, List, arith, ltb, leb,
  ◌==◌, if◌then◌else◌, Bool-cases, inl, inr, ◌⊎◌, length,
}
use agentic_os_harness.Disk.{BlockDevice, IsDisk, sector_size}
use agentic_os_harness.Simplefs.State.{SimpleFs, DirEntry, Result, ok}
use agentic_os_harness.Simplefs.Layout.{entry_from, entry_bytes, patch}
use agentic_os_harness.Simplefs.Layout.Coding.{
  IsEntry, entry_from-patch, entry_from-same, length-patch, get_or-patch_outside,
  length-entry_bytes,
}
use agentic_os_harness.Simplefs.Sectors.{read_sector_of, write_sector_of, read_back, write_back}
use agentic_os_harness.Simplefs.Entries.{simplefs_read_entry, simplefs_write_entry, entry_sector}

-- Two slots stand in different sectors or at offsets 64 bytes apart.
slots_apart :
    (i j : ℕ)
    → i < 32
    → j < 32
    → (i == j) ≡ false
    → 1 + i / 8 ≡ 1 + j / 8
    → (j % 8 * 64 + 64 ≤ i % 8 * 64) ⊎ (i % 8 * 64 + 64 ≤ j % 8 * 64)
slots_apart i j h k n e = elim (Bool-cases (ltb j i)) [
  | inl less ↦ inl (ground (arith, less, e))
  | inr more ↦ inr (ground (arith, more, n, e))
]

-- The entry of a slot in a sector where entry `e` was written to slot `i`.
patched :
    (sector : List ℕ) (i j : ℕ) (e : DirEntry)
    → length sector ≡ sector_size
    → i < 32
    → j < 32
    → 1 + i / 8 ≡ 1 + j / 8
    → IsEntry e
    → entry_from (patch sector (i % 8 * 64) (entry_bytes e)) (j % 8 * 64)
      ≡ (if i == j then e else entry_from sector (j % 8 * 64))
patched sector i j e l h k same_sector valid =
    let room : i % 8 * 64 + length (entry_bytes e) ≤ length sector =
      omega (arith, length-entry_bytes e valid, l) in
    elim (Bool-cases (i == j)) [
      | inl here ↦
          let same : i ≡ j = ground arith in
          rw (here, ← same) (entry_from-patch sector (i % 8 * 64) e (omega (arith, room)) valid)
      | inr there ↦ rw there (
          entry_from-same (patch sector (i % 8 * 64) (entry_bytes e)) sector (j % 8 * 64)
            (length-patch sector (i % 8 * 64) (entry_bytes e) room)
            (λ x a b.
              get_or-patch_outside sector (i % 8 * 64) (entry_bytes e) x room
                (side x a b (slots_apart i j h k there same_sector))))
    ]
  where
    side :
        (x : ℕ)
        → j % 8 * 64 ≤ x
        → x < j % 8 * 64 + 64
        → (j % 8 * 64 + 64 ≤ i % 8 * 64) ⊎ (i % 8 * 64 + 64 ≤ j % 8 * 64)
        → (x < i % 8 * 64) ⊎ (i % 8 * 64 + length (entry_bytes e) ≤ x)
    side x a b (inl p) = inl (omega arith)
    side x a b (inr p) = inr (omega (arith, length-entry_bytes e valid))

module _ {D : Type 0} (dev : BlockDevice D) where
  -- What `simplefs_write_entry` does to the directory.
  pub record Replaced (s : SimpleFs D) (i : ℕ) (e : DirEntry) (r : Result (Unit {0}) × SimpleFs D)
      : Type 0 where
    pub after : SimpleFs D
    pub result : r ≡ (ok tt, after)
    pub reads :
        (j : ℕ)
        → j < 32
        → (simplefs_read_entry dev j after).0
          ≡ (if i == j then ok e else (simplefs_read_entry dev j s).0)

module _ {D : Type 0} (dev : BlockDevice D) (disk : IsDisk dev)
    (sectors : 5 < dev.sector_count) where
  pub read_entry-eq :
      (s : SimpleFs D) (j : ℕ) (sector : List ℕ)
      → s.sb.dir_start ≡ 1
      → j < 32
      → dev.read_sector s.disk (1 + j / 8) ≡ some sector
      → simplefs_read_entry dev j s ≡ (ok (entry_from sector (j % 8 * 64)), s)
  unfolding simplefs_read_entry read_sector_of read_back
  read_entry-eq s j sector start h e =
      let small : leb 32 j ≡ false = ground arith in
      let at : entry_sector dev s j ≡ 1 + j / 8 = omega (arith, start, h) in rw (small, at, e) refl

  write_entry-eq :
      (s : SimpleFs D) (i : ℕ) (e : DirEntry) (sector : List ℕ) (after : D)
      → s.sb.dir_start ≡ 1
      → i < 32
      → dev.read_sector s.disk (1 + i / 8) ≡ some sector
      → dev.write_sector s.disk (1 + i / 8) (patch sector (i % 8 * 64) (entry_bytes e)) ≡ some after
      → simplefs_write_entry dev i e s ≡ (ok tt, record s { disk = after })
  unfolding simplefs_write_entry read_sector_of read_back write_sector_of write_back
  write_entry-eq s i e sector after start h r w =
      let small : leb 32 i ≡ false = ground arith in
      let at : entry_sector dev s i ≡ 1 + i / 8 = omega (arith, start, h) in
      rw (small, at, r) (ap (write_back dev s) w)

  -- On a disk of more than 5 sectors whose directory starts at sector 1, `simplefs_write_entry` of an
  -- entry of 32 name characters and 32-bit fields to one of the 32 slots succeeds, and then that slot
  -- reads the entry and every other slot what it read before.
  pub simplefs_write_entry-Replaced :
      (s : SimpleFs D) (i : ℕ) (e : DirEntry)
      → s.sb.dir_start ≡ 1
      → i < 32
      → IsEntry e
      → Replaced dev s i e (simplefs_write_entry dev i e s)
  simplefs_write_entry-Replaced s i e start h valid =
      let old = disk.reads s.disk (1 + i / 8) (omega arith) in
      let new = patch old.0 (i % 8 * 64) (entry_bytes e) in
      let size : length new ≡ sector_size =
        length-patch old.0 (i % 8 * 64) (entry_bytes e)
          (omega (arith, length-entry_bytes e valid, old.2))
        ∙ old.2 in
      let w = disk.writes s.disk (1 + i / 8) new (omega arith) size in
      let t = record s { disk = w.0 } in
      record {
        after = t;
        result = write_entry-eq s i e old.0 w.0 start h old.1 w.1;
        reads = λ j k.
            let before = disk.reads s.disk (1 + j / 8) (omega arith) in
            let was = read_entry-eq s j before.0 start k before.1 in
            elim (Bool-cases (1 + i / 8 == 1 + j / 8)) [
              | inl here ↦
                  let same : 1 + i / 8 ≡ 1 + j / 8 = ground arith in
                  let now : dev.read_sector w.0 (1 + j / 8) ≡ some new =
                    w.2 (1 + j / 8) (omega arith) ∙ rw here refl in
                  let sector : before.0 ≡ old.0 = cc (before.1, old.1, same) in
                  ap (λ r. r.0) (read_entry-eq t j new start k now)
                  ∙ (ap ok (patched old.0 i j e old.2 h k same valid)
                      ∙ choice i j e old.0 before.0 sector (ap (λ r. r.0) was))
              | inr there ↦
                  let now : dev.read_sector w.0 (1 + j / 8) ≡ some before.0 =
                    w.2 (1 + j / 8) (omega arith) ∙ rw there before.1 in
                  let other : (i == j) ≡ false = ground arith in
                  rw other (
                    ap (λ r. r.0) (read_entry-eq t j before.0 start k now)
                    ∙ sym (ap (λ r. r.0) was))
            ];
      }
    where
      choice :
          (i j : ℕ) (e : DirEntry) (old before : List ℕ) {r : Result DirEntry}
          → before ≡ old
          → r ≡ ok (entry_from before (j % 8 * 64))
          → ok (if i == j then e else entry_from old (j % 8 * 64)) ≡ (if i == j then ok e else r)
      choice i j e old before p q = elim (Bool-cases (i == j)) [
        | inl here ↦ rw here refl
        | inr there ↦ rw there (ap (λ x. ok (entry_from x (j % 8 * 64))) (sym p) ∙ sym q)
      ]
