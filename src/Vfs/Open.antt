-- ===== src/Vfs/Open.antt =====
-- `vfs_open` of kernel/vfs.c: which descriptor it gives, and what it changes.
use agentic_os_harness.Common.{
  length, ltb, leb, ◌-◌, [], ◌∷◌, if◌then◌else◌, ℕ, zero, suc, ◌+◌, ◌≤◌, ◌<◌, ◌≡◌, refl, ap, sym,
  subst, ◌∙◌, true, false, not, Option, none, some, List, arith, ◌==◌, set, get_or-set, Bool-cases,
  inl, inr, ◌⊎◌, if_rule, ℤ, pos, negsuc, is_negative, set-set, set-get_or,
}
use agentic_os_harness.Vfs.{
  OpenFile, FileInfo, FileSystem, Vfs, blank_file, file_at, unused_file, vfs_alloc_fd, vfs_close,
  opened, open_path, copy_path_from, vfs_eio, vfs_einval, vfs_emfile, vfs_max_path, vfs_open,
  vfs_copy_path, vfs_flags_valid, vfs_success, vfs_max_open_files,
}
use agentic_os_harness.Vfs.Files.{IsFileTable, file_at-IsFile, vfs_close-last}

unused_file-first :
    (files : List OpenFile) (n i k : ℕ)
    → unused_file files n i ≡ some k
    → (i ≤ k)
      × (k < i + n)
      × ((file_at files k).used ≡ false)
      × ((j : ℕ) → i ≤ j → j < k → (file_at files j).used ≡ true)
unfolding unused_file
unused_file-first files zero i k e = absurd (cc)
unused_file-first files (suc n) i k e = elim (Bool-cases ((file_at files i).used)) [
  | inl busy ↦
      let r = unused_file-first files n (i + 1) k (rw (busy, unused_file) at e) in
      (
        omega (arith, r.0),
        omega (arith, r.1),
        r.2,
        λ j a b. elim (Bool-cases (i == j)) [
          | inl here ↦ let same : i ≡ j = ground arith in rw (← same) busy
          | inr later ↦ r.3 j (ground arith) b
        ],
      )
  | inr free ↦
      let same : i ≡ k = let t : some i ≡ some k = rw (free, unused_file) at e in cc in
      rw (← same) (omega arith, omega arith, free, λ j a b. absurd (omega arith))
]

unused_file-none :
    (files : List OpenFile) (n i : ℕ)
    → unused_file files n i ≡ none
    → (j : ℕ) → i ≤ j
    → j < i + n
    → (file_at files j).used ≡ true
unfolding unused_file
unused_file-none files zero i e j a b = absurd (omega arith)
unused_file-none files (suc n) i e j a b = elim (Bool-cases ((file_at files i).used)) [
  | inl busy ↦ elim (Bool-cases (i == j)) [
    | inl here ↦ let same : i ≡ j = ground arith in rw (← same) busy
    | inr later ↦
        unused_file-none files n (i + 1) (rw (busy, unused_file) at e) j (ground arith)
          (omega arith)
  ]
  | inr free ↦ let t : some i ≡ none = rw (free, unused_file) at e in absurd (cc)
]

-- A path is copied as it is, when it has room with the 0 behind it.
copy_path_from-eq :
    (cs : List ℕ) (i : ℕ)
    → i < vfs_max_path
    → copy_path_from cs i ≡ (if ltb (i + length cs) vfs_max_path then some cs else none)
unfolding copy_path_from
copy_path_from-eq [] i h = ground (arith, h)
copy_path_from-eq (c ∷ cs) i h = elim (Bool-cases (leb (vfs_max_path - 1) i)) [
  | inl over ↦
      let long : ltb (i + suc (length cs)) vfs_max_path ≡ false = ground (arith, over) in
      rw (over, long) refl
  | inr more ↦
      let rest = copy_path_from-eq cs (i + 1) (ground (arith, more)) in
      elim (Bool-cases (ltb (i + 1 + length cs) vfs_max_path)) [
        | inl short ↦
            let fits : ltb (i + suc (length cs)) vfs_max_path ≡ true = ground (arith, short) in
            rw (more, rest, short, fits) refl
        | inr long ↦
            let full : ltb (i + suc (length cs)) vfs_max_path ≡ false = ground (arith, long) in
            rw (more, rest, long, full) refl
      ]
]

-- A path that `vfs_copy_path` takes.
abbrev pub IsName : Option (List ℕ) → List ℕ → Type 0
IsName path name = (path ≡ some name) × (length name < vfs_max_path)

-- One that it refuses.
abbrev pub IsNoName : Option (List ℕ) → Type 0
IsNoName none = Unit {0}
IsNoName (some name) = vfs_max_path ≤ length name

copied :
    (path : Option (List ℕ)) (name : List ℕ) → vfs_copy_path path ≡ some name → IsName path name
unfolding vfs_copy_path
copied none name e = absurd (cc)
copied (some path) name e =
    let eq = copy_path_from-eq path 0 (omega arith) in
    elim (Bool-cases (ltb (0 + length path) vfs_max_path)) [
      | inl short ↦
          let r : some path ≡ some name = sym (rw short at eq) ∙ e in
          let same : path ≡ name = cc in
          (ap (λ p. some p) same, rw (← same) (ground (arith, short)))
      | inr long ↦ let r : none ≡ some name = sym (rw long at eq) ∙ e in absurd (cc)
    ]

not_copied : (path : Option (List ℕ)) → vfs_copy_path path ≡ none → IsNoName path
unfolding vfs_copy_path
not_copied none e = tt
not_copied (some path) e =
    let eq = copy_path_from-eq path 0 (omega arith) in
    elim (Bool-cases (ltb (0 + length path) vfs_max_path)) [
      | inl short ↦ let r : some path ≡ none = sym (rw short at eq) ∙ e in absurd (cc)
      | inr long ↦ ground (arith, long)
    ]

-- On a mounted file system, and with valid flags, the lowest unused descriptor is given for the path, with
-- one reference and offset 0; `simplefs_open` succeeded, and only what it did and this entry change.
pub record Given {D : Type 0} (fs : FileSystem D) (v : Vfs) (path : Option (List ℕ)) (flags : ℕ)
    (d : D) (fd : ℕ) (after : Vfs) (d' : D) : Type 0 where
  pub name : List ℕ
  pub named : IsName path name
  pub mounted : v.mounted ≡ true
  pub valid : vfs_flags_valid flags ≡ true
  pub agreed : (fs.fs_open name flags d).0 ≡ pos 0
  pub disk : d' ≡ (fs.fs_open name flags d).2
  pub in_table : fd < vfs_max_open_files
  pub was_free : (file_at v.files fd).used ≡ false
  pub lowest : (j : ℕ) → j < fd → (file_at v.files j).used ≡ true
  pub entry : after ≡ record v {
    files =
        set v.files fd
          (record { used = true; ref_count = 1; path = name; flags = flags; offset = 0 });
  }

-- Why nothing is opened, with the status and the state of the disk.
pub data Refused {D : Type 0} (fs : FileSystem D) (v : Vfs) (path : Option (List ℕ)) (flags : ℕ)
    (d : D) : ℤ → D → Type 0 where
  unmounted : v.mounted ≡ false → Refused fs v path flags d vfs_eio d
  invalid_flags :
      v.mounted ≡ true → vfs_flags_valid flags ≡ false → Refused fs v path flags d vfs_einval d
  invalid_path : v.mounted ≡ true → IsNoName path → Refused fs v path flags d vfs_einval d
  all_used :
      v.mounted ≡ true
      → ((j : ℕ) → j < vfs_max_open_files → (file_at v.files j).used ≡ true)
      → Refused fs v path flags d vfs_emfile d
  not_opened :
      (name : List ℕ)
      → IsName path name
      → is_negative (fs.fs_open name flags d).0 ≡ true
      → Refused fs v path flags d (fs.fs_open name flags d).0 (fs.fs_open name flags d).2

module _ {D : Type 0} (fs : FileSystem D) where
  -- What an open is: a descriptor, or an error that leaves the table as it was.
  abbrev pub Opens : Vfs → Option (List ℕ) → ℕ → D → ℤ × Vfs × D → Type 0
  Opens v path flags d (negsuc n, after, d') = (after ≡ v) × Refused fs v path flags d (negsuc n) d'
  Opens v path flags d (pos fd, after, d') = Given fs v path flags d fd after d'

  -- `simplefs_open` returns 0 or an error.
  abbrev pub OpenStatus : Type 0
  OpenStatus =
      (path : List ℕ) (flags : ℕ) (d : D)
      → ((fs.fs_open path flags d).0 ≡ pos 0) ⊎ (is_negative (fs.fs_open path flags d).0 ≡ true)

  opened-Opens :
      (v : Vfs) (fd : ℕ) (path : Option (List ℕ)) (name : List ℕ) (flags : ℕ) (d : D)
      → (r : ℤ × FileInfo × D) → fs.fs_open name flags d ≡ r
      → (r.0 ≡ pos 0) ⊎ (is_negative r.0 ≡ true)
      → IsName path name
      → v.mounted ≡ true
      → vfs_flags_valid flags ≡ true
      → vfs_alloc_fd v.files ≡ some fd
      → Opens v path flags d (opened fs v fd name flags r)
  unfolding opened vfs_alloc_fd
  opened-Opens v fd path name flags d (pos zero, info, d') same h p m f e =
      let u = unused_file-first v.files vfs_max_open_files 0 fd e in
      record {
        name = name;
        named = p;
        mounted = m;
        valid = f;
        agreed = ap (λ (r : ℤ × FileInfo × D). r.0) same;
        disk = sym (ap (λ (r : ℤ × FileInfo × D). r.2) same);
        in_table = u.1;
        was_free = u.2;
        lowest = λ j b. u.3 j (omega arith) b;
        entry = refl;
      }
  opened-Opens v fd path name flags d (pos (suc n), info, d') same (inl h) p m f e =
      absurd (let x : suc n ≡ 0 = cc in omega (arith, x))
  opened-Opens v fd path name flags d (pos (suc n), info, d') same (inr h) p m f e = absurd (cc)
  opened-Opens v fd path name flags d (negsuc n, info, d') same h p m f e = (
    refl,
    subst (λ (r : ℤ × FileInfo × D). Refused fs v path flags d r.0 r.2) same
        (not_opened name p (ap (λ (r : ℤ × FileInfo × D). is_negative r.0) same)),
  )

  open_path-Opens :
      OpenStatus
      → (v : Vfs) (path : Option (List ℕ)) (copy : Option (List ℕ)) (fd : Option ℕ) (flags : ℕ)
        (d : D)
      → v.mounted ≡ true
      → vfs_flags_valid flags ≡ true
      → vfs_copy_path path ≡ copy
      → vfs_alloc_fd v.files ≡ fd
      → Opens v path flags d (open_path fs v copy fd flags d)
  unfolding open_path vfs_alloc_fd
  open_path-Opens o v path none fd flags d m f c e = (refl, invalid_path m (not_copied path c))
  open_path-Opens o v path (some name) none flags d m f c e =
      (refl, all_used m (λ j b. unused_file-none v.files vfs_max_open_files 0 e j (omega arith) b))
  open_path-Opens o v path (some name) (some fd) flags d m f c e =
      opened-Opens v fd path name flags d (fs.fs_open name flags d) refl (o name flags d)
        (copied path name c) m f e

  -- Where `simplefs_open` returns 0 or an error, `vfs_open` gives the lowest unused descriptor for the
  -- path, with one reference and offset 0, only on a mounted file system, to valid flags and a path of less
  -- than 64 characters, and when `simplefs_open` succeeded with them; otherwise it answers an error, for one
  -- of the reasons and with the status that belongs to it, and leaves the table as it was.
  pub vfs_open-Opens :
      OpenStatus
      → (v : Vfs) (path : Option (List ℕ)) (flags : ℕ) (d : D)
      → Opens v path flags d (vfs_open fs v path flags d)
  unfolding vfs_open
  vfs_open-Opens o v path flags d =
      if_rule (λ (r : ℤ × Vfs × D). Opens v path flags d r) (not v.mounted) _ _
        (λ e. (refl, unmounted (ground arith)))
        (λ e.
          if_rule (λ (r : ℤ × Vfs × D). Opens v path flags d r) (not (vfs_flags_valid flags)) _ _
            (λ f. (refl, invalid_flags (ground arith) (ground arith)))
            (λ f.
              open_path-Opens o v path (vfs_copy_path path) (vfs_alloc_fd v.files) flags d
                (ground arith) (ground arith) refl refl))

  -- Where `simplefs_open` returns 0 or an error, and every unused entry is clear, closing the descriptor
  -- that `vfs_open` gave restores the table exactly.
  pub vfs_close-vfs_open :
      OpenStatus
      → (v : Vfs) (path : Option (List ℕ)) (flags : ℕ) (d : D) (fd : ℕ) → IsFileTable v.files
      → (vfs_open fs v path flags d).0 ≡ pos fd
      → vfs_close (vfs_open fs v path flags d).1.files (pos fd) ≡ (vfs_success, v.files)
  vfs_close-vfs_open o v path flags d fd t e =
      let r = vfs_open fs v path flags d in
      let g : Opens v path flags d (pos fd, r.1, r.2) =
        subst (λ z. Opens v path flags d (z, r.1, r.2)) e (vfs_open-Opens o v path flags d) in
      let f : OpenFile = record {
        used = true;
        ref_count = 1;
        path = g.name;
        flags = flags;
        offset = 0;
      } in
      let self : file_at (set v.files fd f) fd ≡ f =
        ground (arith, get_or-set v.files fd fd f blank_file (omega (arith, g.in_table, t.size))) in
      let blank : blank_file ≡ file_at v.files fd =
        sym ((file_at-IsFile v.files fd t).1 g.was_free) in
      ap (λ (x : Vfs). vfs_close x.files (pos fd)) g.entry
      ∙ vfs_close-last (set v.files fd f) fd g.in_table (ap (λ (x : OpenFile). x.used) self)
          (ap (λ (x : OpenFile). x.ref_count) self)
      ∙ ap (λ fs. (vfs_success, fs))
          (set-set v.files fd f blank_file
            ∙ ap (λ x. set v.files fd x) blank
            ∙ set-get_or v.files fd blank_file)
