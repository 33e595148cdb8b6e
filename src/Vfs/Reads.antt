-- ===== src/Vfs/Reads.antt =====
-- Reading a file through kernel/vfs.c, on a file system whose reads give the content of its files.
use agentic_os_harness.Common.{
  ℕ, zero, suc, ◌<◌, ◌≡◌, refl, ap, sym, subst, ◌∙◌, true, not, Option, none, some, List, arith,
  ltb, length, take, drop, set, get_or-set, length-set, add32, ℤ, pos, negsuc, if_rule,
}
use agentic_os_harness.Vfs.{
  FileSystem, FileInfo, OpenFile, Vfs, vfs_read, read_file, vfs_fd_valid, vfs_stat, file_at,
  blank_file, vfs_o_rdonly, advanced, vfs_max_open_files,
}
use agentic_os_harness.Vfs.Files.{IsFileTable}
use agentic_os_harness.Vfs.Open.{OpenStatus, Given}

-- A read that succeeds gives the part of the file that is there, and counts its bytes.
abbrev pub GivesPart : List ℕ → ℕ → ℕ → ℤ → List ℕ → Type 0
GivesPart file offset wanted (pos n) bytes =
    (bytes ≡ take wanted (drop offset file)) × (length bytes ≡ n)
GivesPart file offset wanted (negsuc e) bytes = Unit {0}

abbrev pub HasSize : List ℕ → ℤ → FileInfo → Type 0
HasSize file (pos zero) info = info.size ≡ length file
HasSize file other info = Unit {0}

-- The files have the content: reads give it, a status of success has its size, and reading, asking
-- for the status and opening for reading keep it.
pub record IsFiles {D : Type 0} (fs : FileSystem D) (content : D → List ℕ → List ℕ) : Type 0 where
  pub opens : OpenStatus fs
  pub reads :
      (path : List ℕ) (offset count : ℕ) (d : D)
      → let (status, part, d') = fs.fs_read path offset count d in
        GivesPart (content d path) offset count status part × (content d' path ≡ content d path)
  pub stats :
      (path : List ℕ) (d : D)
      → let (status, info, d') = fs.fs_stat (some path) d in
        HasSize (content d path) status info × (content d' path ≡ content d path)
  pub kept :
      (path : List ℕ) (d : D) → content (fs.fs_open path vfs_o_rdonly d).2 path ≡ content d path

-- The entry of a file that is open for reading, with `n` bytes read.
abbrev pub reading_entry : List ℕ → ℕ → OpenFile
reading_entry name n = record {
  used = true;
  ref_count = 1;
  path = name;
  flags = vfs_o_rdonly;
  offset = n;
}

module _ {D : Type 0} (fs : FileSystem D) (content : D → List ℕ → List ℕ)
    (files : IsFiles fs content) where
  -- The descriptor reads the file, and `n` bytes are read.
  pub record Reading (name file : List ℕ) (fd n : ℕ) (v : Vfs) (d : D) : Type 0 where
    pub slot : fd < vfs_max_open_files
    pub size : length v.files ≡ vfs_max_open_files
    pub entry : file_at v.files fd ≡ reading_entry name n
    pub shows : content d name ≡ file

  read_eq :
      (name file : List ℕ) (fd n count : ℕ) (v : Vfs) (d : D)
      → Reading name file fd n v d
      → vfs_read fs v (pos fd) true count d ≡ (
          let (status, part, d') = fs.fs_read name n count d in
          (status, part, record v { files = advanced v.files fd status }, d'))
  unfolding vfs_read read_file vfs_fd_valid
  read_eq name file fd n count v d r =
      let inside : ltb fd vfs_max_open_files ≡ true = ground (arith, r.slot) in
      rw (inside, r.entry) (rw r.entry refl)

  -- What a read of some bytes gives.
  abbrev pub Chunk : List ℕ → List ℕ → ℕ → ℕ → ℕ → ℤ × List ℕ × Vfs × D → Type 0
  Chunk name file fd n wanted (pos (suc c), part, v, d) =
      (part ≡ take wanted (drop n file))
      × (length part ≡ suc c)
      × Reading name file fd (add32 n (suc c)) v d
  Chunk name file fd n wanted (other, part, v, d) = Unit {0}

  advanced-Chunk :
      (name file : List ℕ) (fd n wanted : ℕ) (v : Vfs) (d : D) (r : ℤ × List ℕ × D)
      → Reading name file fd n v d
      → GivesPart file n wanted r.0 r.1
      → content r.2 name ≡ file
      → Chunk name file fd n wanted (r.0, r.1, record v { files = advanced v.files fd r.0 }, r.2)
  advanced-Chunk name file fd n wanted v d (pos zero, part, d') r g k = tt
  advanced-Chunk name file fd n wanted v d (negsuc e, part, d') r g k = tt
  advanced-Chunk name file fd n wanted v d (pos (suc c), part, d') r g k =
      let old = file_at v.files fd in
      let new : OpenFile = record old { offset = add32 old.offset (suc c) } in
      let self : file_at (set v.files fd new) fd ≡ new =
        ground (arith, get_or-set v.files fd fd new blank_file (omega (arith, r.slot, r.size))) in
      (
        g.0,
        g.1,
        record {
          slot = r.slot;
          size = length-set v.files fd new ∙ r.size;
          entry =
              self ∙ ap (λ (f : OpenFile). record f { offset = add32 f.offset (suc c) }) r.entry;
          shows = k;
        },
      )

  pub vfs_read-Chunk :
      (name file : List ℕ) (fd n wanted : ℕ) (v : Vfs) (d : D)
      → Reading name file fd n v d
      → Chunk name file fd n wanted (vfs_read fs v (pos fd) true wanted d)
  vfs_read-Chunk name file fd n wanted v d r =
      let g = files.reads name n wanted d in
      let part = fs.fs_read name n wanted d in
      subst (λ x. Chunk name file fd n wanted x) (sym (read_eq name file fd n wanted v d r))
        (advanced-Chunk name file fd n wanted v d part r
          (subst (λ f. GivesPart f n wanted part.0 part.1) r.shows g.0) (g.1 ∙ r.shows))

  -- The descriptor that an open for reading gave reads the file from its start.
  pub Given-Reading :
      (v : Vfs) (name : List ℕ) (d : D) (fd : ℕ) (after : Vfs) (d' : D)
      → IsFileTable v.files
      → Given fs v (some name) vfs_o_rdonly d fd after d'
      → Reading name (content d name) fd 0 after d'
  Given-Reading v name d fd after d' t g =
      let e : g.name ≡ name = let x : some name ≡ some g.name = g.named.0 in cc in
      let new = reading_entry g.name 0 in
      let self : file_at (set v.files fd new) fd ≡ new =
        ground
          (arith, get_or-set v.files fd fd new blank_file (omega (arith, g.in_table, t.size))) in
      record {
        slot = g.in_table;
        size = ap (λ (x : Vfs). length x.files) g.entry ∙ length-set v.files fd new ∙ t.size;
        entry = ap (λ (x : Vfs). file_at x.files fd) g.entry ∙ self ∙ ap (λ x. reading_entry x 0) e;
        shows =
            ap (λ x. content x name) g.disk
            ∙ ap (λ x. content (fs.fs_open x vfs_o_rdonly d).2 name) e
            ∙ files.kept name d;
      }

  -- What the status of a file gives.
  abbrev pub Found : List ℕ → List ℕ → ℤ × Option FileInfo × D → Type 0
  Found name file (pos zero, some info, d) = (info.size ≡ length file) × (content d name ≡ file)
  Found name file (other, info, d) = Unit {0}

  vfs_stat_answer :
      (name file : List ℕ) (status : ℤ) (info : FileInfo) (d : D)
      → HasSize file status info
      → content d name ≡ file
      → Found name file
          (elim status [ pos zero ↦ (pos 0, some info, d) | other ↦ (other, none, d) ])
  vfs_stat_answer name file (pos zero) info d h k = (h, k)
  vfs_stat_answer name file (pos (suc n)) info d h k = tt
  vfs_stat_answer name file (negsuc n) info d h k = tt

  pub vfs_stat-Found :
      (v : Vfs) (name : List ℕ) (d : D)
      → Found name (content d name) (vfs_stat fs v (some name) true d)
  unfolding vfs_stat
  vfs_stat-Found v name d =
      if_rule (λ (r : ℤ × Option FileInfo × D). Found name (content d name) r) (not v.mounted) _ _
        (λ e. tt)
        (λ e.
          let (status, info, d') = fs.fs_stat (some name) d in
          let s = files.stats name d in
          vfs_stat_answer name (content d name) status info d' s.0 s.1)
