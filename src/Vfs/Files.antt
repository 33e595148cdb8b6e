-- ===== src/Vfs/Files.antt =====
-- The reference counts of the open-file table in kernel/vfs.c.
use agentic_os_harness.Common.{
  ℕ, zero, suc, ◌+◌, ◌-◌, ◌<◌, ◌≡◌, refl, ap, sym, ◌∙◌, true, false, ◌&&◌, some, List, arith, ltb,
  ◌==◌, if◌then◌else◌, length, length-set, set, get_or-set, set-set, set-get_or, All, All-set,
  All-get_or, All-replicate, Bool-cases, Option-cases, inl, inr, u32_mod, ℤ, pos, negsuc,
  length-replicate,
}
use agentic_os_harness.Vfs.{
  OpenFile, blank_file, file_at, vfs_fd_valid, vfs_clear_open_files, close_file, retain_file,
  vfs_close, vfs_retain, vfs_success, vfs_ebadf, vfs_max_open_files,
}

-- A file that is in use has a count from 1 to 2^32 - 1, another is all zero.
abbrev pub IsFile : OpenFile → Type 0
IsFile f =
    (f.used ≡ true → (0 < f.ref_count) × (f.ref_count < u32_mod))
    × (f.used ≡ false → f ≡ blank_file)

pub record IsFileTable (files : List OpenFile) : Type 0 where
  pub entries : All IsFile files
  pub size : length files ≡ vfs_max_open_files

blank_file-IsFile : IsFile blank_file
blank_file-IsFile = (λ e. ground arith, λ e. refl)

pub vfs_clear_open_files-IsFileTable : IsFileTable vfs_clear_open_files
unfolding vfs_clear_open_files
vfs_clear_open_files-IsFileTable = record {
  entries = All-replicate IsFile vfs_max_open_files blank_file blank_file-IsFile;
  size = length-replicate {A = OpenFile} vfs_max_open_files blank_file;
}

pub file_at-IsFile : (files : List OpenFile) (i : ℕ) → IsFileTable files → IsFile (file_at files i)
file_at-IsFile files i t = All-get_or IsFile files i blank_file blank_file-IsFile t.entries

pub set-IsFileTable :
    (files : List OpenFile) (i : ℕ) (f : OpenFile)
    → IsFileTable files
    → IsFile f
    → IsFileTable (set files i f)
set-IsFileTable files i f t v = record {
  entries = All-set IsFile files i f v t.entries;
  size = length-set files i f ∙ t.size;
}

pub fd_valid-used :
    (files : List OpenFile) (fd : ℤ) (i : ℕ)
    → vfs_fd_valid files fd ≡ some i
    → (fd ≡ pos i) × (i < vfs_max_open_files) × ((file_at files i).used ≡ true)
unfolding vfs_fd_valid
fd_valid-used files (pos n) i e =
    elim (Bool-cases (ltb n vfs_max_open_files && (file_at files n).used)) [
      | inl valid ↦ let same : n ≡ i = ground arith in (ap pos same, ground arith, ground arith)
      | inr invalid ↦ absurd (ground arith)
    ]
fd_valid-used files (negsuc n) i e = absurd (cc)

fd_valid-here :
    (files : List OpenFile) (i : ℕ)
    → i < vfs_max_open_files
    → (file_at files i).used ≡ true
    → vfs_fd_valid files (pos i) ≡ some i
unfolding vfs_fd_valid
fd_valid-here files i h e = ground arith

-- Closing `n` times.
abbrev pub close_times : ℕ → List OpenFile → ℤ → List OpenFile
close_times zero files fd = files
close_times (suc n) files fd = close_times n (vfs_close files fd).1 fd

vfs_close-shared :
    (files : List OpenFile) (i n : ℕ)
    → i < vfs_max_open_files
    → (file_at files i).used ≡ true
    → (file_at files i).ref_count ≡ suc (suc n)
    → vfs_close files (pos i)
      ≡ (vfs_success, set files i (record (file_at files i) { ref_count = suc n }))
unfolding vfs_close close_file
vfs_close-shared files i n h u e =
    let more : ltb 1 (file_at files i).ref_count ≡ true = ground arith in
    let less : (file_at files i).ref_count - 1 ≡ suc n = omega (arith, e) in
    ap (close_file files) (fd_valid-here files i h u)
    ∙ ap
        (λ b.
          if b
          then (
            vfs_success,
            set files i (record (file_at files i) { ref_count = (file_at files i).ref_count - 1 }),
          )
          else (vfs_success, set files i blank_file))
        more
    ∙ ap (λ k. (vfs_success, set files i (record (file_at files i) { ref_count = k }))) less

pub vfs_close-last :
    (files : List OpenFile) (i : ℕ)
    → i < vfs_max_open_files
    → (file_at files i).used ≡ true
    → (file_at files i).ref_count ≡ 1
    → vfs_close files (pos i) ≡ (vfs_success, set files i blank_file)
unfolding vfs_close close_file
vfs_close-last files i h u e = ap (close_file files) (fd_valid-here files i h u) ∙ rw e refl

-- In a table of 16 entries, a description with `n + 1` references stays in use for `n` closes, and the next one clears its
-- entry and nothing else.
pub close_times-cleared :
    (n : ℕ) (files : List OpenFile) (i : ℕ)
    → length files ≡ vfs_max_open_files
    → i < vfs_max_open_files
    → (file_at files i).used ≡ true
    → (file_at files i).ref_count ≡ suc n
    → ((file_at (close_times n files (pos i)) i).used ≡ true)
      × (close_times (suc n) files (pos i) ≡ set files i blank_file)
close_times-cleared zero files i l h u e =
    (u, ap (λ (r : ℤ × List OpenFile). r.1) (vfs_close-last files i h u e))
close_times-cleared (suc n) files i l h u e =
    let f = record (file_at files i) { ref_count = suc n } in
    let next = vfs_close-shared files i n h u e in
    let self : file_at (set files i f) i ≡ f =
      ground (arith, get_or-set files i i f blank_file (omega arith)) in
    let rest =
      close_times-cleared n (set files i f) i (length-set files i f ∙ l) h
        (ap (λ (x : OpenFile). x.used) self ∙ u) (ap (λ (x : OpenFile). x.ref_count) self) in
    let same = ap (λ (r : ℤ × List OpenFile). r.1) next in
    (
      ap (λ fs. (file_at (close_times n fs (pos i)) i).used) same ∙ rest.0,
      ap (λ fs. close_times (suc n) fs (pos i)) same ∙ rest.1 ∙ set-set files i f blank_file,
    )

retain_file-close :
    (files : List OpenFile) (i : ℕ)
    → length files ≡ vfs_max_open_files
    → i < vfs_max_open_files
    → (file_at files i).used ≡ true
    → 0 < (file_at files i).ref_count
    → (retain_file files (some i)).0 ≡ vfs_success
    → vfs_close (retain_file files (some i)).1 (pos i) ≡ (vfs_success, files)
unfolding retain_file
retain_file-close files i l h u p e =
    let file = file_at files i in
    let f = record file { ref_count = file.ref_count + 1 } in
    elim (Bool-cases (file.ref_count == u32_mod - 1)) [
      | inl full ↦ let x : vfs_ebadf ≡ vfs_success = rw full at e in absurd (cc)
      | inr room ↦
          let self : file_at (set files i f) i ≡ f =
            ground (arith, get_or-set files i i f blank_file (omega arith)) in
          let old : (file_at (set files i f) i).ref_count ≡ suc (suc (file.ref_count - 1)) =
            ap (λ (x : OpenFile). x.ref_count) self ∙ omega arith in
          let back : record (file_at (set files i f) i) { ref_count = suc (file.ref_count - 1) }
              ≡ file =
            ap (λ (x : OpenFile). record x { ref_count = suc (file.ref_count - 1) }) self
            ∙ ap (λ n. record file { ref_count = n }) (omega arith) in
          rw room (
            vfs_close-shared (set files i f) i (file.ref_count - 1) h
              (ap (λ (x : OpenFile). x.used) self ∙ u) old
            ∙ ap (λ x. (vfs_success, set (set files i f) i x)) back
            ∙ ap (λ x. (vfs_success, x)) (set-set files i f file ∙ set-get_or files i blank_file))
    ]

-- In a table where a file in use has from 1 to 2^32 - 1 references and every other entry is clear,
-- closing a description that was retained restores the table exactly.
pub vfs_close-vfs_retain :
    (files : List OpenFile) (fd : ℤ)
    → IsFileTable files
    → (vfs_retain files fd).0 ≡ vfs_success
    → vfs_close (vfs_retain files fd).1 fd ≡ (vfs_success, files)
unfolding vfs_retain retain_file
vfs_close-vfs_retain files fd t e = elim (Option-cases (vfs_fd_valid files fd)) [
  | inl bad ↦ let x : vfs_ebadf ≡ vfs_success = rw bad at e in absurd (cc)
  | inr ok ↦
      let at = fd_valid-used files fd ok.0 ok.1 in
      let ok' = ap (retain_file files) ok.1 in
      let good = (file_at-IsFile files ok.0 t).0 at.2 in
      let r =
        retain_file-close files ok.0 t.size at.1 at.2 good.0
          (ap (λ (x : ℤ × List OpenFile). x.0) (sym ok') ∙ e) in
      rw (at.0) (
        ap (λ (x : ℤ × List OpenFile). vfs_close x.1 (pos ok.0))
          (ap (λ g. retain_file files (vfs_fd_valid files g)) (sym at.0) ∙ ok')
        ∙ r)
]
