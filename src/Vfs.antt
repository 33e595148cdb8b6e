-- ===== src/Vfs.antt =====
-- kernel/vfs.c: the open-file table above the file system. A path is a list of characters without 0,
-- `none` for NULL. The functions of kernel/simplefs.c are the record `FileSystem`, over the state of
-- the disk `D`, which the section takes; a status that is a byte count is not negative.
pub mod Files
pub mod Open
pub mod Reads
mod Tests
use agentic_os_harness.Common.{
  ℕ, zero, suc, ◌+◌, ◌-◌, ◌*◌, ◌<◌, ◌%◌, Bool, true, false, not, ◌&&◌, ◌||◌, Option, none, some,
  List, [], ◌∷◌, ◌++◌, ltb, leb, ◌==◌, if◌then◌else◌, get_or, set, length, replicate, add32, ℤ, pos,
  negsuc, bit_and, bit_or, u32_mod, is_negative,
}

abbrev pub vfs_max_open_files : ℕ
vfs_max_open_files = 16

abbrev pub vfs_max_path : ℕ
vfs_max_path = 64

abbrev pub vfs_o_rdonly : ℕ
vfs_o_rdonly = 1

abbrev pub vfs_o_wronly : ℕ
vfs_o_wronly = 2

abbrev pub vfs_o_creat : ℕ
vfs_o_creat = 256

abbrev pub vfs_o_trunc : ℕ
vfs_o_trunc = 512

abbrev pub vfs_success : ℤ
vfs_success = pos 0

abbrev pub vfs_einval : ℤ
vfs_einval = negsuc 0

abbrev pub vfs_eio : ℤ
vfs_eio = negsuc 3

abbrev pub vfs_emfile : ℤ
vfs_emfile = negsuc 4

abbrev pub vfs_ebadf : ℤ
vfs_ebadf = negsuc 5

-- `struct vfs_open_file`
pub record OpenFile : Type 0 where
  pub used : Bool
  pub ref_count : ℕ
  pub path : List ℕ
  pub flags : ℕ
  pub offset : ℕ

-- `struct simplefs_file_info` and `struct vfs_stat`
pub record FileInfo : Type 0 where
  pub start_sector : ℕ
  pub size : ℕ
  pub allocated_sectors : ℕ
  pub flags : ℕ

-- The functions of simplefs.h on a path that the caller has checked.
pub record FileSystem (D : Type 0) : Type 0 where
  pub fs_format : D → ℤ × D
  pub fs_mount : D → ℤ × D
  pub fs_open : List ℕ → ℕ → D → ℤ × FileInfo × D
  pub fs_read : List ℕ → ℕ → ℕ → D → ℤ × List ℕ × D
  pub fs_write : List ℕ → ℕ → List ℕ → ℕ → D → ℤ × D
  pub fs_stat : Option (List ℕ) → D → ℤ × FileInfo × D

-- The static variables; the root device is set or not.
pub record Vfs : Type 0 where
  pub root_dev : Bool
  pub mounted : Bool
  pub files : List OpenFile

-- All bytes 0.
abbrev pub blank_file : OpenFile
blank_file = record { used = false; ref_count = 0; path = []; flags = 0; offset = 0 }

abbrev pub file_at : List OpenFile → ℕ → OpenFile
file_at files fd = get_or files fd blank_file

abbrev pub has_flag : ℕ → ℕ → Bool
has_flag flags bit = not (bit_and flags bit == 0)

unfoldable pub vfs_flags_valid : ℕ → Bool
vfs_flags_valid flags =
    if not (bit_and flags (u32_mod - 1 - 771) == 0)
    then false
    else if bit_and flags 3 == 0
    then false
    else if has_flag flags vfs_o_trunc && not (has_flag flags vfs_o_wronly)
    then false
    else if has_flag flags vfs_o_creat && not (has_flag flags vfs_o_wronly)
    then false
    else true

-- The loop of `vfs_copy_path` from index `i` on: whether the path fits.
pub copy_path_from : List ℕ → ℕ → Option (List ℕ)
copy_path_from [] i = some []
copy_path_from (c ∷ cs) i =
    let rest = copy_path_from cs (i + 1) in
    if leb (vfs_max_path - 1) i then none else elim rest [ none ↦ none | some p ↦ some (c ∷ p) ]

-- `none` is VFS_EINVAL.
unfoldable pub vfs_copy_path : Option (List ℕ) → Option (List ℕ)
unfolding copy_path_from
vfs_copy_path none = none
vfs_copy_path (some path) = copy_path_from path 0

-- The loop of `vfs_alloc_fd`: the first unused file among `n` from `i` on.
pub unused_file : List OpenFile → ℕ → ℕ → Option ℕ
unused_file files zero i = none
unused_file files (suc n) i = elim ((file_at files i).used) [
  | true ↦ unused_file files n (i + 1)
  | false ↦ some i
]

unfoldable pub vfs_alloc_fd : List OpenFile → Option ℕ
unfolding unused_file
vfs_alloc_fd files = unused_file files vfs_max_open_files 0

-- The index behind a descriptor that is valid.
unfoldable pub vfs_fd_valid : List OpenFile → ℤ → Option ℕ
vfs_fd_valid files (negsuc n) = none
vfs_fd_valid files (pos fd) =
    if ltb fd vfs_max_open_files && (file_at files fd).used then some fd else none

unfoldable pub vfs_clear_open_files : List OpenFile
vfs_clear_open_files = replicate vfs_max_open_files blank_file

-- `none` stands for a NULL device or one with another sector size.
unfoldable pub vfs_init : Option ℕ → Vfs → ℤ × Vfs
unfolding vfs_clear_open_files
vfs_init none v = (vfs_einval, v)
vfs_init (some sector_size) v =
    if not (sector_size == 512)
    then (vfs_einval, v)
    else (vfs_success, record { root_dev = true; mounted = false; files = vfs_clear_open_files })

close_file : List OpenFile → Option ℕ → ℤ × List OpenFile
close_file files none = (vfs_ebadf, files)
close_file files (some fd) =
    let file = file_at files fd in
    if ltb 1 file.ref_count
    then (vfs_success, set files fd (record file { ref_count = file.ref_count - 1 }))
    else (vfs_success, set files fd blank_file)

unfoldable pub vfs_close : List OpenFile → ℤ → ℤ × List OpenFile
unfolding close_file vfs_fd_valid
vfs_close files fd = close_file files (vfs_fd_valid files fd)

retain_file : List OpenFile → Option ℕ → ℤ × List OpenFile
retain_file files none = (vfs_ebadf, files)
retain_file files (some fd) =
    let file = file_at files fd in
    if file.ref_count == u32_mod - 1
    then (vfs_ebadf, files)
    else (vfs_success, set files fd (record file { ref_count = file.ref_count + 1 }))

unfoldable pub vfs_retain : List OpenFile → ℤ → ℤ × List OpenFile
unfolding retain_file vfs_fd_valid
vfs_retain files fd = retain_file files (vfs_fd_valid files fd)

unfoldable pub vfs_close_all : Vfs → Vfs
unfolding vfs_clear_open_files
vfs_close_all v = record v { files = vfs_clear_open_files }

-- `vfs_open_files[fd].offset += (uint32_t)status`, if the status is positive
abbrev pub advanced : List OpenFile → ℕ → ℤ → List OpenFile
advanced files fd (negsuc n) = files
advanced files fd (pos zero) = files
advanced files fd (pos (suc n)) =
    let file = file_at files fd in set files fd (record file { offset = add32 file.offset (suc n) })

module _ {D : Type 0} (fs : FileSystem D) where
  unfoldable pub vfs_format : Vfs → D → ℤ × Vfs × D
  unfolding vfs_clear_open_files
  vfs_format v d =
      if not v.root_dev
      then (vfs_einval, v, d)
      else let (status, d') = fs.fs_format d in
        (status, record v { files = vfs_clear_open_files; mounted = false }, d')

  unfoldable pub vfs_mount : Vfs → D → ℤ × Vfs × D
  vfs_mount v d =
      if not v.root_dev
      then (vfs_einval, v, d)
      else let (status, d') = fs.fs_mount d in
        elim status [
          | pos zero ↦ (vfs_success, record v { mounted = true }, d')
          | other ↦ (other, record v { mounted = false }, d')
        ]

  -- What `vfs_open` does behind `simplefs_open`.
  pub opened : Vfs → ℕ → List ℕ → ℕ → ℤ × FileInfo × D → ℤ × Vfs × D
  opened v fd path flags (pos zero, info, d) = (
    pos fd,
    record v {
      files =
          set v.files fd
            (record { used = true; ref_count = 1; path = path; flags = flags; offset = 0 });
    },
    d,
  )
  opened v fd path flags (status, info, d) = (status, v, d)

  open_path : Vfs → Option (List ℕ) → Option ℕ → ℕ → D → ℤ × Vfs × D
  unfolding opened
  open_path v none fd flags d = (vfs_einval, v, d)
  open_path v (some path) none flags d = (vfs_emfile, v, d)
  open_path v (some path) (some fd) flags d = opened v fd path flags (fs.fs_open path flags d)

  unfoldable pub vfs_open : Vfs → Option (List ℕ) → ℕ → D → ℤ × Vfs × D
  unfolding open_path vfs_copy_path vfs_alloc_fd
  vfs_open v path flags d =
      if not v.mounted
      then (vfs_eio, v, d)
      else if not (vfs_flags_valid flags)
      then (vfs_einval, v, d)
      else open_path v (vfs_copy_path path) (vfs_alloc_fd v.files) flags d

  read_file : Vfs → Option ℕ → Bool → ℕ → D → ℤ × List ℕ × Vfs × D
  read_file v none buffer count d = (vfs_ebadf, [], v, d)
  read_file v (some fd) buffer count d =
      let file = file_at v.files fd in
      if not buffer && ltb 0 count
      then (vfs_einval, [], v, d)
      else if not (has_flag file.flags vfs_o_rdonly)
      then (vfs_ebadf, [], v, d)
      else let (status, bytes, d') = fs.fs_read file.path file.offset count d in
        (status, bytes, record v { files = advanced v.files fd status }, d')

  -- The flag says that `buffer` is not NULL; the bytes go there.
  unfoldable pub vfs_read : Vfs → ℤ → Bool → ℕ → D → ℤ × List ℕ × Vfs × D
  unfolding read_file vfs_fd_valid
  vfs_read v fd buffer count d = read_file v (vfs_fd_valid v.files fd) buffer count d

  write_file : Vfs → Option ℕ → Option (List ℕ) → ℕ → D → ℤ × Vfs × D
  write_file v none buffer count d = (vfs_ebadf, v, d)
  write_file v (some fd) none count d =
      let file = file_at v.files fd in
      if ltb 0 count
      then (vfs_einval, v, d)
      else if not (has_flag file.flags vfs_o_wronly)
      then (vfs_ebadf, v, d)
      else let (status, d') = fs.fs_write file.path file.offset [] count d in
        (status, record v { files = advanced v.files fd status }, d')
  write_file v (some fd) (some bytes) count d =
      let file = file_at v.files fd in
      if not (has_flag file.flags vfs_o_wronly)
      then (vfs_ebadf, v, d)
      else let (status, d') = fs.fs_write file.path file.offset bytes count d in
        (status, record v { files = advanced v.files fd status }, d')

  -- `buffer` is what it points to, `none` for NULL.
  unfoldable pub vfs_write : Vfs → ℤ → Option (List ℕ) → ℕ → D → ℤ × Vfs × D
  unfolding write_file vfs_fd_valid
  vfs_write v fd buffer count d = write_file v (vfs_fd_valid v.files fd) buffer count d

  -- The flag says that `out` is not NULL; the information goes there on success.
  unfoldable pub vfs_stat : Vfs → Option (List ℕ) → Bool → D → ℤ × Option FileInfo × D
  vfs_stat v path out d =
      if not v.mounted
      then (vfs_eio, none, d)
      else if not out
      then (vfs_einval, none, d)
      else let (status, info, d') = fs.fs_stat path d in
        elim status [ pos zero ↦ (vfs_success, some info, d') | other ↦ (other, none, d') ]
