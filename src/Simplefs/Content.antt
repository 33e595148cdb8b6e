-- ===== src/Simplefs/Content.antt =====
-- What reading a file of kernel/simplefs.c gives: the content of its run of sectors.
use agentic_os_harness.Common.{
  ℕ, zero, suc, ◌+◌, ◌-◌, ◌≡◌, refl, ap, sym, subst, ◌∙◌, Bool, true, false, not, ◌&&◌, ◌||◌,
  Option, none, some, List, [], arith, leb, ◌==◌, if◌then◌else◌, take, drop, bytes_from, pos,
  negsuc, Bool-cases, inl, inr, if_rule, is_negative,
}
use agentic_os_harness.Disk.{BlockDevice}
use agentic_os_harness.Vfs.Reads.{GivesPart}
use agentic_os_harness.Simplefs.State.{
  DirEntry, SimpleFs, Result, ok, err, Fs, and_then, give, simplefs_max_files, eio,
}
use agentic_os_harness.Simplefs.Sectors.{read_sector_of, read_back}
use agentic_os_harness.Simplefs.Entries.{
  simplefs_normalize_path, simplefs_read_entry, simplefs_find_entry, find_entry_from, same_name,
  entry_sector, entry_offset,
}
use agentic_os_harness.Simplefs.Layout.{entry_from}
use agentic_os_harness.Simplefs.Files.{simplefs_read, read_chunks, min_u32, named}
use agentic_os_harness.Simplefs.Device.{bytes_status}
use agentic_os_harness.Simplefs.Status.{Fails, find_entry_from-Fails}
use agentic_os_harness.Simplefs.Parts.{take-bytes_from, drop-bytes_from}
use agentic_os_harness.Disk.{IsSectored}
use agentic_os_harness.Simplefs.Runs.{Same, run_byte, ReadsRun, read_chunks-ReadsRun}

module _ {D : Type 0} (dev : BlockDevice D) where
  pub and_then-Same :
      {A B : Type 0} (s : SimpleFs D) (r : Result A × SimpleFs D) (f : A → Fs D B)
      → Same dev s r
      → ((a : A) → Same dev s (f a s))
      → Same dev s (and_then r f)
  and_then-Same s (ok a, t) f e h = subst (λ x. (f a x).1 ≡ s) (sym e) (h a)
  and_then-Same s (err e', t) f e h = e

  read_back-Same : (s : SimpleFs D) (o : Option (List ℕ)) → Same dev s (read_back dev s o)
  unfolding read_back
  read_back-Same s none = refl
  read_back-Same s (some bytes) = refl

  read_entry-Same : (i : ℕ) (s : SimpleFs D) → Same dev s (simplefs_read_entry dev i s)
  unfolding simplefs_read_entry read_sector_of
  read_entry-Same i s =
      if_rule (λ (r : Result DirEntry × SimpleFs D). Same dev s r) (leb simplefs_max_files i) _ _
        (λ e. refl)
        (λ e.
          and_then-Same s (read_back dev s (dev.read_sector s.disk (entry_sector dev s i)))
            (λ sector. give (entry_from sector (entry_offset dev i)))
            (read_back-Same s (dev.read_sector s.disk (entry_sector dev s i))) (λ a. refl))

  find_entry_from-Same :
      (n i : ℕ) (name : List ℕ) (s : SimpleFs D) → Same dev s (find_entry_from dev n i name s)
  unfolding find_entry_from
  find_entry_from-Same zero i name s = refl
  find_entry_from-Same (suc n) i name s =
      and_then-Same s (simplefs_read_entry dev i s) _ (read_entry-Same i s) (λ entry.
        elim (Bool-cases (not (entry.used == 0) && same_name entry.name name)) [
          | inl hit ↦ rw hit refl
          | inr miss ↦ rw miss (find_entry_from-Same n (i + 1) name s)
        ])

  pub find_entry-Same :
      (name : List ℕ) (s : SimpleFs D) → Same dev s (simplefs_find_entry dev name s)
  unfolding simplefs_find_entry
  find_entry-Same name s = find_entry_from-Same simplefs_max_files 0 name s

  pub find_entry-Fails : (name : List ℕ) (s : SimpleFs D) → Fails (simplefs_find_entry dev name s)
  unfolding simplefs_find_entry
  find_entry-Fails name s = find_entry_from-Fails dev simplefs_max_files 0 name s

  -- The content of a file: the bytes of its run.
  unfoldable pub run_of : SimpleFs D → Result (ℕ × DirEntry) × SimpleFs D → List ℕ
  run_of s (ok (index, entry), t) =
      bytes_from (run_byte dev s entry.start_sector) entry.size_bytes 0
  run_of s (err e, t) = []

  unfoldable pub named_content : SimpleFs D → Option (List ℕ) → List ℕ
  unfolding run_of
  named_content s none = []
  named_content s (some name) = run_of s (simplefs_find_entry dev name s)

  unfoldable pub content : SimpleFs D → List ℕ → List ℕ
  unfolding named_content
  content s path = if s.mounted then named_content s (simplefs_normalize_path (some path)) else []

  -- Reading a part of a file.
  abbrev pub ReadsPart : SimpleFs D → List ℕ → ℕ → ℕ → Result (List ℕ) × SimpleFs D → Type 0
  ReadsPart s file offset count (ok bytes, t) = (bytes ≡ take count (drop offset file)) × (t ≡ s)
  ReadsPart s file offset count (err e, t) = (is_negative e ≡ true) × (t ≡ s)

  run_part :
      (s : SimpleFs D) (start size offset count : ℕ)
      → take count (drop offset (bytes_from (run_byte dev s start) size 0))
        ≡ bytes_from (run_byte dev s start) (min_u32 count (size - offset)) offset
  run_part s start size offset count =
      ap (λ l. take count l)
        (drop-bytes_from (run_byte dev s start) offset size 0 offset (omega arith))
      ∙ take-bytes_from (run_byte dev s start) count (size - offset) offset

  run-ReadsPart :
      (s : SimpleFs D) (start size offset count n : ℕ) (r : Result (List ℕ) × SimpleFs D)
      → n ≡ min_u32 count (size - offset)
      → ReadsRun dev s start offset n r
      → ReadsPart s (bytes_from (run_byte dev s start) size 0) offset count r
  run-ReadsPart s start size offset count n (ok bytes, t) e h = (
    h.0
        ∙ ap (λ j. bytes_from (run_byte dev s start) j offset) e
        ∙ sym (run_part s start size offset count),
    h.1,
  )
  run-ReadsPart s start size offset count n (err e', t) e h = h

  module _ (sectored : IsSectored dev) where
    entry-ReadsPart :
        (s : SimpleFs D) (entry : DirEntry) (offset count : ℕ)
        → ReadsPart s
            (bytes_from (run_byte dev s entry.start_sector) entry.size_bytes 0)
            offset
            count
            ((if leb entry.size_bytes offset || count == 0
                then give []
                else let n = min_u32 count (entry.size_bytes - offset) in
                  read_chunks dev n entry.start_sector offset n)
              s)
    entry-ReadsPart s entry offset count =
        let n = min_u32 count (entry.size_bytes - offset) in
        elim (Bool-cases (leb entry.size_bytes offset || count == 0)) [
          | inl nothing ↦ rw nothing (
              run-ReadsPart s entry.start_sector entry.size_bytes offset count 0 (ok [], s)
                (ground (arith, nothing)) (refl, refl))
          | inr some_bytes ↦ rw some_bytes (
              run-ReadsPart s entry.start_sector entry.size_bytes offset count n
                (read_chunks dev n entry.start_sector offset n s) refl
                (read_chunks-ReadsRun dev sectored n entry.start_sector offset n s (omega arith)))
        ]

    found-ReadsPart :
        (s : SimpleFs D) (offset count : ℕ) (r : Result (ℕ × DirEntry) × SimpleFs D)
        → r.1 ≡ s
        → Fails r
        → ReadsPart s (run_of s r) offset count (
            and_then r (λ (index, entry).
              if leb entry.size_bytes offset || count == 0
              then give []
              else let n = min_u32 count (entry.size_bytes - offset) in
                read_chunks dev n entry.start_sector offset n))
    unfolding run_of
    found-ReadsPart s offset count (err e', t) e f = (f, e)
    found-ReadsPart s offset count (ok (index, entry), t) e f =
        subst
          (λ x.
            ReadsPart s (bytes_from (run_byte dev s entry.start_sector) entry.size_bytes 0) offset
              count
              ((if leb entry.size_bytes offset || count == 0
                  then give []
                  else let n = min_u32 count (entry.size_bytes - offset) in
                    read_chunks dev n entry.start_sector offset n)
                x))
          (sym e) (entry-ReadsPart s entry offset count)

    named-ReadsPart :
        (s : SimpleFs D) (offset count : ℕ) (o : Option (List ℕ))
        → ReadsPart s (named_content s o) offset count (
            named dev o
              (λ name t. and_then (simplefs_find_entry dev name t) (λ (index, entry).
                if leb entry.size_bytes offset || count == 0
                then give []
                else let n = min_u32 count (entry.size_bytes - offset) in
                  read_chunks dev n entry.start_sector offset n))
              s)
    unfolding named_content
    named-ReadsPart s offset count none = (refl, refl)
    named-ReadsPart s offset count (some name) =
        found-ReadsPart s offset count (simplefs_find_entry dev name s) (find_entry-Same name s)
          (find_entry-Fails name s)

    mounted-ReadsPart :
        (b : Bool) (s : SimpleFs D) (file : List ℕ) (offset count : ℕ)
        (r : Result (List ℕ) × SimpleFs D)
        → ReadsPart s file offset count r
        → ReadsPart s (if b then file else []) offset count (if not b then (err eio, s) else r)
    mounted-ReadsPart true s file offset count r h = h
    mounted-ReadsPart false s file offset count r h = (refl, refl)

    pub read-ReadsPart :
        (s : SimpleFs D) (path : List ℕ) (offset count : ℕ)
        → ReadsPart s
            (content s path)
            offset
            count
            (simplefs_read dev (some path) offset true count s)
    unfolding simplefs_read content
    read-ReadsPart s path offset count =
        mounted-ReadsPart s.mounted s (named_content s (simplefs_normalize_path (some path))) offset
          count _ (named-ReadsPart s offset count (simplefs_normalize_path (some path)))

    -- As the status and the bytes that kernel/vfs.c takes.
    pub read_status :
        (s : SimpleFs D) (path : List ℕ) (offset count : ℕ) (r : Result (List ℕ) × SimpleFs D)
        → ReadsPart s (content s path) offset count r
        → (let (status, part, t) = bytes_status r in
            GivesPart (content s path) offset count status part × (content t path ≡ content s path))
    read_status s path offset count (ok bytes, t) h = ((h.0, refl), ap (λ x. content x path) h.1)
    read_status s path offset count (err (pos n), t) h = absurd (let x = h.0 in cc)
    read_status s path offset count (err (negsuc n), t) h = (tt, ap (λ x. content x path) h.1)
