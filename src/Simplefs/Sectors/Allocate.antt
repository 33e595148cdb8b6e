-- ===== src/Simplefs/Sectors/Allocate.antt =====
-- `simplefs_allocate_sectors` of kernel/simplefs.c, on a disk.
use agentic_os_harness.Common.{
  ℕ, ◌+◌, ◌≤◌, ◌<◌, ◌≡◌, refl, ap, ◌∙◌, false, ◌||◌, Option, none, some, List, arith, ltb, ◌==◌,
  Bool-cases, inl, inr,
}
use agentic_os_harness.Bitmap.{bitmap_test}
use agentic_os_harness.Bitmap.Laws.{IsBitmap}
use agentic_os_harness.Simplefs.State.{SimpleFs, Result, ok, err, enospc}
use agentic_os_harness.Simplefs.Sectors.{mark_from, find_run}
use agentic_os_harness.Common.{length, u32_mod, ap, Option, some, ◌<◌}
use agentic_os_harness.Disk.{BlockDevice, IsDisk, sector_size}
use agentic_os_harness.Simplefs.State.{Superblock, SimpleFs, Result, ok, err, enospc}
use agentic_os_harness.Simplefs.Sectors.{
  take_run, simplefs_mark_run_used, simplefs_write_superblock, write_sector_of, write_back,
  raise_mark,
}
use agentic_os_harness.Simplefs.Layout.{superblock_sector}
use agentic_os_harness.Bitmap.Laws.{IsBitmap}
use agentic_os_harness.Common.{sub32, replicate}
use agentic_os_harness.Simplefs.Sectors.{run_outside, simplefs_allocate_sectors}
use agentic_os_harness.Common.{◌⊎◌, inl, inr, ltb, ◌==◌}
use agentic_os_harness.Simplefs.Sectors.FirstFit.{
  IsFree, Searched, find_run-Searched, in_run, Marked, mark_from-Marked,
}

-- The lowest run of `count` free sectors in the data area.
pub record FirstFree (used : List ℕ) (total count start : ℕ) : Type 0 where
  pub above : 5 ≤ start
  pub below : start + count ≤ total
  pub free : IsFree used count start
  pub first : (m : ℕ) → 5 ≤ m → m < start → IsFree used count m → ⊥

-- What `simplefs_allocate_sectors` does: it takes the first free run and marks it, or there is none.
module _ {D : Type 0} (s : SimpleFs D) (count : ℕ) where
  pub record Taken (r : Result ℕ × SimpleFs D) : Type 0 where
    pub start : ℕ
    pub after : SimpleFs D
    pub result : r ≡ (ok start, after)
    pub place : FirstFree s.sector_used s.sb.total_sectors count start
    pub reads :
        (j : ℕ)
        → bitmap_test after.sector_used j ≡ (in_run start count j || bitmap_test s.sector_used j)

  pub record Full (r : Result ℕ × SimpleFs D) : Type 0 where
    pub result : r ≡ (err enospc, s)
    pub none_free :
        (m : ℕ) → 5 ≤ m → m + count ≤ s.sb.total_sectors → IsFree s.sector_used count m → ⊥

pub length-superblock_sector : (sb : Superblock) → length (superblock_sector sb) ≡ sector_size
unfolding superblock_sector replicate
length-superblock_sector sb = refl

-- A free run in the data area is marked.
marks :
    {D : Type 0} (s : SimpleFs D) (count start : ℕ)
    → 0 < count
    → FirstFree s.sector_used s.sb.total_sectors count start
    → (m : Marked s.sector_used s.sb.total_sectors start count
        (mark_from count start s.sector_used))
    → simplefs_mark_run_used start count s ≡ (ok tt, record s { sector_used = m.map })
unfolding simplefs_mark_run_used
marks s count start some_sector place m =
    let e : (count == 0) ≡ false = ground arith in
    let i : run_outside s.sb start count ≡ false =
      ground (arith, place.above, place.below, some_sector) in
    rw (e, i, m.result) refl

module _ {D : Type 0} (dev : BlockDevice D) (disk : IsDisk dev)
    (sectors : 0 < dev.sector_count) where
  -- `simplefs_write_superblock` changes the device alone.
  pub write_superblock-eq :
      (s : SimpleFs D)
      → (after : D) × (simplefs_write_superblock dev s ≡ (ok tt, record s { disk = after }))
  unfolding simplefs_write_superblock write_sector_of write_back
  write_superblock-eq s =
      let w =
        disk.writes s.disk 0 (superblock_sector s.sb) sectors (length-superblock_sector s.sb) in
      (w.0, ap (write_back dev s) w.1)

  raise_mark-keeps : (s : SimpleFs D) (end : ℕ) → (raise_mark dev end s).sector_used ≡ s.sector_used
  raise_mark-keeps s end = elim (Bool-cases (ltb s.sb.next_free_sector end)) [
    | inl higher ↦ rw higher refl
    | inr lower ↦ rw lower refl
  ]

  take_run-Taken :
      (s : SimpleFs D) (count start : ℕ)
      → 0 < count
      → IsBitmap s.sector_used s.sb.total_sectors
      → FirstFree s.sector_used s.sb.total_sectors count start
      → Taken s count (take_run dev count (some start) s)
  unfolding take_run
  take_run-Taken s count start some_sector v place =
      let m =
        mark_from-Marked count start s.sb.total_sectors s.sector_used v place.below place.free in
      let t = record s { sector_used = m.map } in
      let u = raise_mark dev (start + count) t in
      let w = write_superblock-eq u in
      record {
        start = start;
        after = record u { disk = w.0 };
        result = rw (marks s count start some_sector place m, w.1) refl;
        place = place;
        reads =
            λ j. ap (λ used. bitmap_test used j) (raise_mark-keeps t (start + count)) ∙ m.reads j;
      }

  found-FirstFit :
      (s : SimpleFs D) (count last : ℕ) (r : Option ℕ)
      → 0 < count
      → last + count ≡ s.sb.total_sectors
      → IsBitmap s.sector_used s.sb.total_sectors
      → Searched s.sector_used count last 5 r
      → Taken s count (take_run dev count r s) ⊎ Full s count (take_run dev count r s)
  unfolding take_run
  found-FirstFit s count last none some_sector e v h =
      inr (record { result = refl; none_free = λ m a b. h m a (omega arith) })
  found-FirstFit s count last (some start) some_sector e v h = inl (
      take_run-Taken s count start some_sector v
        (record { above = h.0; below = omega (arith, h.1); free = h.2; first = h.3 }))

  -- On a disk with a sector at least, where the map has a bit for each of the volume's sectors, which
  -- are more than 5 and at most 4096, `simplefs_allocate_sectors` of a positive count gives the first
  -- sector of the lowest run of that many free sectors in the data area and marks the run and nothing
  -- else; or it returns VFS_ENOSPC, changes nothing, and no such run is free.
  pub simplefs_allocate_sectors-FirstFree :
      (s : SimpleFs D) (count : ℕ)
      → 0 < count
      → count < u32_mod
      → 5 < s.sb.total_sectors
      → s.sb.total_sectors ≤ 4096
      → IsBitmap s.sector_used s.sb.total_sectors
      → Taken s count (simplefs_allocate_sectors dev count s)
        ⊎ Full s count (simplefs_allocate_sectors dev count s)
  unfolding simplefs_allocate_sectors
  simplefs_allocate_sectors-FirstFree s count some_sector word more room v =
      let total = s.sb.total_sectors in
      let e : (count == 0) ≡ false = ground arith in
      elim (Bool-cases (ltb (sub32 total 5) count)) [
        | inl big ↦
            rw (e, big)
              (inr (record {
                result = refl;
                none_free = λ m a b. absurd (ground (arith, big, a, b, more, room));
              }))
        | inr fits ↦
            let last : sub32 total count + count ≡ total = ground (arith, fits, more, room) in
            rw (e, fits)
              (found-FirstFit s count (sub32 total count)
                (find_run total s.sector_used count (sub32 total count) 5) some_sector last v
                (find_run-Searched total s.sector_used count (sub32 total count) 5
                  (omega (arith, last, some_sector)) some_sector))
      ]
