-- ===== src/Elf/Load.antt =====
-- Reading the file and loading its segments, in kernel/elf.c. The page tables of kernel/paging.c are a
-- parameter, the record `PageTables`: mapping a page may take frames, so it works on the frame
-- allocator too. Memory is what the addresses of user space show in the directory that is loaded into;
-- page tables and the other addresses of a frame are the kernel's, and not in it. What it shows when a page
-- was mapped, `shown`, is the page tables' as well.
use agentic_os_harness.Common.{
  ℕ, zero, suc, ◌+◌, ◌-◌, ◌/◌, Bool, true, not, ◌||◌, Option, none, some, List, [], ◌∷◌, ◌++◌, ltb,
  ◌==◌, if◌then◌else◌, add32, take, drop, length, ℤ, pos, negsuc, store_bytes, bit_and,
}
use agentic_os_harness.Strings.{memset}
use agentic_os_harness.Elf.Checks.{accepted}
use agentic_os_harness.Frame.{Frames, frame_alloc, frame_free}
use agentic_os_harness.Vfs.{
  Vfs, FileSystem, FileInfo, vfs_stat, vfs_open, vfs_read, vfs_close, vfs_o_rdonly,
}
use agentic_os_harness.Elf.Image.{
  ElfHeader, ProgramHeader, header_of, program_headers, elf_einval, elf_enoent, elf_eio, elf_enospc,
  elf_max_image_size,
}
use agentic_os_harness.Elf.Checks.{align_down, align_up, frame_size, Layout}
use agentic_os_harness.Vfs.{FileInfo}

-- `paging_is_mapped` and the others, over the state of the page tables `P`.
pub record PageTables (P : Type 0) : Type 0 where
  pub is_mapped : ℕ → P → Bool
  pub is_user_writable : ℕ → P → Bool
  pub unmap_page : ℕ → P → P
  pub map_page_in_directory : ℕ → ℕ → ℕ → ℕ → Frames → P → Bool × Frames × P
  pub set_page_flags_in_directory : ℕ → ℕ → ℕ → P → Bool × P
  pub current_directory : P → ℕ
  pub shown : P → (ℕ → ℕ) → ℕ → ℕ
  pub switch_directory : ℕ → P → P

-- The state that the loader works on.
pub record Machine (D P : Type 0) : Type 0 where
  pub vfs : Vfs
  pub disk : D
  pub frames : Frames
  pub pages : P
  pub memory : ℕ → ℕ

-- A result or the status of an error.
pub data Outcome (A : Type 0) : Type 0 where
  done : A → Outcome A
  failed : ℤ → Outcome A

-- `struct elf_load_info`
pub record LoadInfo : Type 0 where
  pub entry : ℕ
  pub load_start : ℕ
  pub load_end : ℕ
  pub loaded_bytes : ℕ
  pub segment_count : ℕ

abbrev pub page_present : ℕ
page_present = 1

abbrev pub page_writable : ℕ
page_writable = 2

abbrev pub page_user : ℕ
page_user = 4

module _ {D P : Type 0} (fs : FileSystem D) where
  abbrev pub closed : ℤ → Machine D P → ℤ × Machine D P
  closed fd m =
      let (status, files) = vfs_close m.vfs.files fd in
      (status, record m { vfs = record m.vfs { files = files } })

  -- What follows a read of some bytes; a read that fails closes the file.
  abbrev pub after_read :
      {A : Type 0}
      → ℤ
      → ℤ × List ℕ × Vfs × D
      → (ℕ → List ℕ → Machine D P → Outcome A × Machine D P)
      → Machine D P
      → Outcome A × Machine D P
  after_read fd (pos (suc c), chunk, v, d) next m =
      next (suc c) chunk (record m { vfs = v; disk = d })
  after_read fd (count, chunk, v, d) next m =
      (failed elf_eio, (closed fd (record m { vfs = v; disk = d })).1)

  -- The loop of `read_file_into_buffer`, with `n` bytes read. Each round reads a byte at least, so as
  -- many rounds as the file has bytes are enough.
  unfoldable pub read_rest :
      ℕ → ℤ → ℕ → ℕ → List ℕ → Machine D P → Outcome (ℕ × List ℕ) × Machine D P
  unfolding vfs_read vfs_close
  read_rest zero fd size n bytes m = (done (n, bytes), m)
  read_rest (suc fuel) fd size n bytes m =
      let round =
        after_read fd (vfs_read fs m.vfs fd true (size - n) m.disk)
          (λ c chunk m'. read_rest fuel fd size (add32 n c) (bytes ++ chunk) m') m in
      if ltb n size then round else (done (n, bytes), m)

  -- What follows the loop.
  abbrev pub file_read : ℤ → ℕ → Outcome (ℕ × List ℕ) × Machine D P → Outcome (List ℕ) × Machine D P
  file_read fd size (failed e, m) = (failed e, m)
  file_read fd size (done (n, bytes), m) =
      let (status, m') = closed fd m in
      elim status [
        | pos zero ↦ if not (n == size) then (failed elf_eio, m') else (done bytes, m')
        | _ ↦ (failed elf_eio, m')
      ]

  abbrev pub file_opened : ℕ → ℤ → Machine D P → Outcome (List ℕ) × Machine D P
  file_opened size (pos fd) m = file_read (pos fd) size (read_rest size (pos fd) size 0 [] m)
  file_opened size (negsuc (suc zero)) m = (failed elf_enoent, m)
  file_opened size (negsuc e) m = (failed elf_eio, m)

  abbrev pub file_found :
      Option (List ℕ) → ℤ → Option FileInfo → Machine D P → Outcome (List ℕ) × Machine D P
  file_found path (pos zero) (some info) m =
      if info.size == 0 || ltb elf_max_image_size info.size
      then (failed elf_einval, m)
      else let (fd, vfs, disk) = vfs_open fs m.vfs path vfs_o_rdonly m.disk in
        file_opened info.size fd (record m { vfs = vfs; disk = disk })
  file_found path (negsuc (suc zero)) info m = (failed elf_enoent, m)
  file_found path status info m = (failed elf_eio, m)

  -- The bytes of the file are what `elf_file_buffer` holds of it.
  unfoldable pub read_file_into_buffer :
      Option (List ℕ) → Machine D P → Outcome (List ℕ) × Machine D P
  unfolding vfs_stat vfs_open read_rest
  read_file_into_buffer none m = (failed elf_einval, m)
  read_file_into_buffer (some path) m =
      let (status, info, disk) = vfs_stat fs m.vfs (some path) true m.disk in
      file_found (some path) status info (record m { disk = disk })

-- The number of pages from `start` up to `end`, which are multiples of the page size.
abbrev pub pages_between : ℕ → ℕ → ℕ
pages_between start end = (end - start) / frame_size

-- `memset` and `memcpy` of a segment.
unfoldable pub filled : List ℕ → ProgramHeader → (ℕ → ℕ) → ℕ → ℕ
unfolding memset
filled file ph memory =
    store_bytes (memset memory ph.vaddr 0 ph.memsz) ph.vaddr (take ph.filesz (drop ph.offset file))

module _ {D P : Type 0} (paging : PageTables P) where
  -- The pages that were mapped are given back.
  unfoldable pub unmap_pages : List (ℕ × ℕ) → Machine D P → Machine D P
  unfolding frame_free
  unmap_pages [] m = m
  unmap_pages ((page, phys) ∷ mapped) m =
      unmap_pages mapped
        (record m { pages = paging.unmap_page page m.pages; frames = frame_free m.frames phys })

  -- The loop of `map_segment_pages` over the `n` pages from `page` on; `mapped` are the pages and
  -- frames so far, in their order.
  unfoldable pub map_pages_from :
      ℕ → ℕ → List (ℕ × ℕ) → Machine D P → Outcome (Unit {0}) × Machine D P
  unfolding unmap_pages frame_alloc frame_free
  map_pages_from zero page mapped m = (done tt, m)
  map_pages_from (suc n) page mapped m =
      let (phys, frames) = frame_alloc m.frames in
      let m1 = record m { frames = frames } in
      let (linked, frames', pages') =
        paging.map_page_in_directory (paging.current_directory m.pages) page phys
          (page_present + page_writable + page_user) m1.frames m1.pages in
      let m2 = record m1 {
        frames = frames';
        pages = pages';
        memory = paging.shown pages' m.memory;
      } in
      let unlinked = record m1 { frames = frame_free frames' phys; pages = pages' } in
      let given_back = record m2 { frames = frame_free m2.frames phys } in
      let rest = map_pages_from n (page + frame_size) (mapped ++ (page, phys) ∷ []) m2 in
      if paging.is_mapped page m.pages
      then (failed elf_einval, m)
      else if phys == 0
      then (failed elf_enospc, unmap_pages mapped m1)
      else if not linked
      then (failed elf_enospc, unmap_pages mapped unlinked)
      else if not (paging.is_user_writable page m2.pages)
      then (failed elf_eio, unmap_pages mapped given_back)
      else rest

  unfoldable pub map_segment_pages : ℕ → ℕ → Machine D P → Outcome (Unit {0}) × Machine D P
  unfolding map_pages_from
  map_segment_pages vaddr memsz m =
      let start = align_down vaddr in
      map_pages_from (pages_between start (align_up (add32 vaddr memsz))) start [] m

  -- The loop of `protect_segment_pages`.
  unfoldable pub protect_pages_from : ℕ → ℕ → ℕ → Machine D P → Outcome (Unit {0}) × Machine D P
  protect_pages_from zero page flags m = (done tt, m)
  protect_pages_from (suc n) page flags m =
      let (changed, pages) =
        paging.set_page_flags_in_directory (paging.current_directory m.pages) page flags m.pages in
      let m' = record m { pages = pages } in
      let rest = protect_pages_from n (page + frame_size) flags m' in
      if not changed then (failed elf_eio, m') else rest

  unfoldable pub protect_segment_pages : ℕ → ℕ → ℕ → Machine D P → Outcome (Unit {0}) × Machine D P
  unfolding protect_pages_from
  protect_segment_pages vaddr memsz elf_flags m =
      let start = align_down vaddr in
      protect_pages_from (pages_between start (align_up (add32 vaddr memsz))) start
        (if not (bit_and elf_flags 2 == 0)
          then page_present + page_user + page_writable
          else page_present + page_user)
        m

  abbrev pub then_do :
      Outcome (Unit {0}) × Machine D P
      → (Machine D P → Outcome ℕ × Machine D P)
      → Outcome ℕ × Machine D P
  then_do (failed e, m) f = (failed e, m)
  then_do (done u, m) f = f m

  -- The second loop of `elf_load_from_vfs`: the result is `loaded_bytes`.
  unfoldable pub load_segments :
      List ℕ → List ProgramHeader → ℕ → Machine D P → Outcome ℕ × Machine D P
  unfolding map_segment_pages protect_segment_pages filled
  load_segments file [] loaded m = (done loaded, m)
  load_segments file (ph ∷ phs) loaded m =
      if not (ph.type == 1)
      then load_segments file phs loaded m
      else then_do (map_segment_pages ph.vaddr ph.memsz m) (λ m1.
        then_do
          (protect_segment_pages ph.vaddr ph.memsz ph.flags
            (record m1 { memory = filled file ph m1.memory }))
          (load_segments file phs (add32 loaded ph.filesz)))

module _ {D P : Type 0} (fs : FileSystem D) (paging : PageTables P) where
  abbrev pub info_of : ElfHeader → Layout → Outcome ℕ × Machine D P → Outcome LoadInfo × Machine D P
  info_of h l (failed e, m) = (failed e, m)
  info_of h l (done loaded, m) = (
    done (record {
      entry = h.entry;
      load_start = l.load_start;
      load_end = l.load_end;
      loaded_bytes = loaded;
      segment_count = length l.pages;
    }),
    m,
  )

  unfoldable pub load_accepted :
      List ℕ → Option Layout → Machine D P → Outcome LoadInfo × Machine D P
  unfolding header_of program_headers load_segments
  load_accepted file none m = (failed elf_einval, m)
  load_accepted file (some l) m =
      let h = header_of file in
      info_of h l (load_segments paging file (program_headers file h.phnum h.phoff) 0 m)

  unfoldable pub load_read : Outcome (List ℕ) × Machine D P → Outcome LoadInfo × Machine D P
  unfolding load_accepted accepted
  load_read (failed e, m) = (failed e, m)
  load_read (done file, m) = load_accepted file (accepted file) m

  -- `out` is not NULL.
  unfoldable pub elf_load_from_vfs : Option (List ℕ) → Machine D P → Outcome LoadInfo × Machine D P
  unfolding read_file_into_buffer load_read
  elf_load_from_vfs path m = load_read (read_file_into_buffer fs path m)

  abbrev pub back_to : ℕ → Outcome LoadInfo × Machine D P → Outcome LoadInfo × Machine D P
  back_to cr3 (r, m) = (r, record m { pages = paging.switch_directory cr3 m.pages })

  unfoldable pub elf_load_from_vfs_into :
      ℕ → Option (List ℕ) → Machine D P → Outcome LoadInfo × Machine D P
  unfolding elf_load_from_vfs
  elf_load_from_vfs_into cr3 path m =
      if cr3 == 0
      then (failed elf_einval, m)
      else back_to (paging.current_directory m.pages)
          (elf_load_from_vfs path (record m { pages = paging.switch_directory cr3 m.pages }))
