-- ===== src/Simplefs/Runs.antt =====
-- Reading a run of sectors, in kernel/simplefs.c.
use agentic_os_harness.Common.{
  ℕ, zero, suc, ◌+◌, ◌-◌, ◌/◌, ◌%◌, ◌≤◌, ◌<◌, ◌≡◌, refl, ap, ◌∙◌, true, Option, none, some, List,
  ◌++◌, arith, ◌==◌, get_or, take, drop, add32, bytes_from, Bool-cases, inl, inr, is_negative,
}
use agentic_os_harness.Disk.{BlockDevice, sector_size}
use agentic_os_harness.Simplefs.State.{SimpleFs, Result, ok, err, and_then, give}
use agentic_os_harness.Simplefs.Sectors.{read_sector_of, read_back}
use agentic_os_harness.Simplefs.Files.{read_chunks, chunk_of}
use agentic_os_harness.Simplefs.Parts.{part_eq, bytes_from-append}
use agentic_os_harness.Disk.{IsSectored}

module _ {D : Type 0} (dev : BlockDevice D) where
  abbrev sector_byte : Option (List ℕ) → ℕ → ℕ
  sector_byte none o = 0
  sector_byte (some sector) o = get_or sector o 0

  -- Byte `k` of the run that begins at sector `start`.
  unfoldable pub run_byte : SimpleFs D → ℕ → ℕ → ℕ
  run_byte s start k =
      sector_byte (dev.read_sector s.disk (add32 start (k / sector_size))) (k % sector_size)

  -- A step that leaves the state as it was.
  abbrev pub Same : {A : Type 0} → SimpleFs D → Result A × SimpleFs D → Type 0
  Same s r = r.1 ≡ s

  -- Reading a run from `absolute` on.
  abbrev pub ReadsRun : SimpleFs D → ℕ → ℕ → ℕ → Result (List ℕ) × SimpleFs D → Type 0
  ReadsRun s start absolute left (ok bytes, s') =
      (bytes ≡ bytes_from (run_byte s start) left absolute) × (s' ≡ s)
  ReadsRun s start absolute left (err e, s') = (is_negative e ≡ true) × (s' ≡ s)

  after_chunk :
      (s : SimpleFs D) (start absolute left chunk : ℕ) (part : List ℕ)
      (r : Result (List ℕ) × SimpleFs D)
      → chunk ≤ left
      → part ≡ bytes_from (run_byte s start) chunk absolute
      → ReadsRun s start (absolute + chunk) (left - chunk) r
      → ReadsRun s start absolute left (and_then r (λ rest. give (part ++ rest)))
  after_chunk s start absolute left chunk part (ok rest, s') h e g = (
    ap (λ l. l ++ rest) e
        ∙ ap (λ l. bytes_from (run_byte s start) chunk absolute ++ l) g.0
        ∙ bytes_from-append (run_byte s start) left chunk (left - chunk) absolute (absolute + chunk)
            (omega (arith, h)) refl,
    g.1,
  )
  after_chunk s start absolute left chunk part (err e', s') h e g = g

  module _ (sectored : IsSectored dev) where
    -- The part of a sector that a round takes.
    chunk_part :
        (s : SimpleFs D) (start absolute left : ℕ) (sector : List ℕ)
        → dev.read_sector s.disk (add32 start (absolute / sector_size)) ≡ some sector
        → take (chunk_of absolute left) (drop (absolute % sector_size) sector)
          ≡ bytes_from (run_byte s start) (chunk_of absolute left) absolute
    unfolding run_byte
    chunk_part s start absolute left sector e =
        part_eq (chunk_of absolute left) (absolute % sector_size) absolute sector (run_byte s start)
          (ground (arith, sectored s.disk (add32 start (absolute / sector_size)) sector e))
          (λ j b.
            let short : j < sector_size - absolute % sector_size = ground (arith, b) in
            let same : (absolute + j) / sector_size ≡ absolute / sector_size =
              omega (arith, short) in
            let place : (absolute + j) % sector_size ≡ absolute % sector_size + j =
              omega (arith, short) in
            ap
              (λ l.
                sector_byte (dev.read_sector s.disk (add32 start l)) ((absolute + j) % sector_size))
              same
            ∙ ap (λ l. sector_byte l ((absolute + j) % sector_size)) e
            ∙ ap (λ l. get_or sector l 0) place)

    pub read_chunks-ReadsRun :
        (fuel start absolute left : ℕ) (s : SimpleFs D)
        → left ≤ fuel
        → ReadsRun s start absolute left (read_chunks dev fuel start absolute left s)
    unfolding read_chunks read_sector_of read_back
    read_chunks-ReadsRun zero start absolute left s h = (
      ap (λ n. bytes_from (run_byte s start) n absolute) {x = 0} {y = left} (omega (arith, h)),
      refl,
    )
    read_chunks-ReadsRun (suc fuel) start absolute left s h = elim (Bool-cases (left == 0)) [
      | inl finished ↦ rw finished (
        ap (λ n. bytes_from (run_byte s start) n absolute) {x = 0} {y = left}
            (ground (arith, finished)),
        refl,
      )
      | inr more ↦ rw more (
          round (dev.read_sector s.disk (add32 start (absolute / sector_size))) refl (
            read_chunks-ReadsRun fuel start (absolute + chunk_of absolute left)
              (left - chunk_of absolute left) s (ground (arith, h, more))))
    ]
      where
        round :
            (o : Option (List ℕ))
            → dev.read_sector s.disk (add32 start (absolute / sector_size)) ≡ o
            → ReadsRun s start (absolute + chunk_of absolute left) (left - chunk_of absolute left) (
                read_chunks dev fuel start
                  (absolute + chunk_of absolute left)
                  (left - chunk_of absolute left)
                  s)
            → ReadsRun s start absolute left (
                and_then (read_back dev s o) (λ sector t.
                  and_then
                    (read_chunks dev fuel start
                      (absolute + chunk_of absolute left)
                      (left - chunk_of absolute left)
                      t)
                    (λ rest. give (
                      take (chunk_of absolute left) (drop (absolute % sector_size) sector)
                      ++ rest))))
        round none e g = (refl, refl)
        round (some sector) e g =
            after_chunk s start absolute left (chunk_of absolute left) _ _ (ground arith)
              (chunk_part s start absolute left sector e) g
