-- ===== src/Elf/Checks.antt =====
-- The checks of kernel/elf.c on the headers of a file.
use agentic_os_harness.Common.{
  ℕ, ◌-◌, ◌*◌, ◌%◌, Bool, true, false, not, ◌&&◌, ◌||◌, Option, none, some, List, [], ◌∷◌, ltb, leb,
  ◌==◌, if◌then◌else◌, add32, sub32, get_or, bit_and, u32_mod, length,
}
use agentic_os_harness.Elf.Image.{
  ElfHeader, ProgramHeader, header_of, program_headers, elf_max_segments, elf_max_load_memory_size,
  elf_user_load_min, elf_user_load_max,
}

abbrev pub frame_size : ℕ
frame_size = 4096

-- `value & ~(FRAME_SIZE - 1)`
abbrev pub align_down : ℕ → ℕ
align_down value = value - value % frame_size

abbrev pub align_up : ℕ → ℕ
align_up value = align_down (add32 value (frame_size - 1))

abbrev pub add_overflows : ℕ → ℕ → Bool
add_overflows a b = ltb (add32 a b) a

unfoldable pub power_of_two_or_zero : ℕ → Bool
power_of_two_or_zero value = if value == 0 then true else bit_and value (value - 1) == 0

unfoldable pub range_inside_file : ℕ → ℕ → ℕ → Bool
range_inside_file offset size file_size =
    if add_overflows offset size then false else leb (add32 offset size) file_size

unfoldable pub range_inside_user_space : ℕ → ℕ → Bool
range_inside_user_space start size =
    if size == 0 || add_overflows start size
    then false
    else if ltb start elf_user_load_min
    then false
    else leb (add32 start size) elf_user_load_max

-- Whether the status is ELF_SUCCESS; else it is ELF_EINVAL. So are the next ones.
unfoldable pub validate_header : ElfHeader → ℕ → Bool
unfolding range_inside_file
validate_header h file_size =
    let ident = λ (i : ℕ). get_or h.ident i 0 in
    if ltb file_size 52
    then false
    else if not (ident 0 == 127)
        || not (ident 1 == b'E')
        || not (ident 2 == b'L')
        || not (ident 3 == b'F')
        || not (ident 4 == 1)
        || not (ident 5 == 1)
        || not (ident 6 == 1)
    then false
    else if not (h.type == 2)
        || not (h.machine == 3)
        || not (h.version == 1)
        || not (h.ehsize == 52)
        || not (h.phentsize == 32)
        || h.phnum == 0
        || ltb elf_max_segments h.phnum
    then false
    else range_inside_file h.phoff (h.phnum * 32) file_size

unfoldable pub validate_segment : ProgramHeader → ℕ → Bool
unfolding range_inside_file range_inside_user_space power_of_two_or_zero
validate_segment ph file_size =
    if not (ph.type == 1)
    then true
    else if ph.memsz == 0 || ltb ph.memsz ph.filesz
    then false
    else if ltb elf_max_load_memory_size ph.memsz
    then false
    else if not (range_inside_file ph.offset ph.filesz file_size)
    then false
    else if not (range_inside_user_space ph.vaddr ph.memsz)
    then false
    else if not (power_of_two_or_zero ph.align)
    then false
    else if ltb 1 ph.align
        && not (bit_and ph.vaddr (ph.align - 1) == bit_and ph.offset (ph.align - 1))
    then false
    else true

unfoldable pub ranges_overlap : ℕ → ℕ → ℕ → ℕ → Bool
ranges_overlap a_start a_end b_start b_end = ltb a_start b_end && ltb b_start a_end

-- The local variables of the first loop of `elf_load_from_vfs`: the two arrays as a list of pairs, the
-- newest first, whose length is `segment_count`.
pub record Layout : Type 0 where
  pub pages : List (ℕ × ℕ)
  pub load_memory : ℕ
  pub load_start : ℕ
  pub load_end : ℕ

abbrev pub no_segment : Layout
no_segment = record { pages = []; load_memory = 0; load_start = u32_mod - 1; load_end = 0 }

-- The loop over the segments that were placed before.
unfoldable pub overlaps_any : ℕ → ℕ → List (ℕ × ℕ) → Bool
unfolding ranges_overlap
overlaps_any page_start page_end [] = false
overlaps_any page_start page_end ((start, end) ∷ pages) =
    ranges_overlap page_start page_end start end || overlaps_any page_start page_end pages

-- A segment that is loaded enters the layout.
unfoldable pub place_segment : ProgramHeader → Layout → Option Layout
unfolding overlaps_any
place_segment ph l =
    let page_start = align_down ph.vaddr in
    let page_end = align_up (add32 ph.vaddr ph.memsz) in
    let end = add32 ph.vaddr ph.memsz in
    if overlaps_any page_start page_end l.pages
    then none
    else if ltb (sub32 elf_max_load_memory_size l.load_memory) ph.memsz
    then none
    else some (record {
      pages = (page_start, page_end) ∷ l.pages;
      load_memory = add32 l.load_memory ph.memsz;
      load_start = if ltb ph.vaddr l.load_start then ph.vaddr else l.load_start;
      load_end = if ltb l.load_end end then end else l.load_end;
    })

-- The first loop of `elf_load_from_vfs`.
unfoldable pub place_segments : List ProgramHeader → ℕ → Layout → Option Layout
unfolding validate_segment place_segment
place_segments [] file_size l = some l
place_segments (ph ∷ phs) file_size l =
    if not (validate_segment ph file_size)
    then none
    else if ph.type == 1
    then elim (place_segment ph l) [ none ↦ none | some l' ↦ place_segments phs file_size l' ]
    else place_segments phs file_size l

-- The test behind the loop.
unfoldable pub entry_inside : ElfHeader → Layout → Bool
entry_inside h l = not (length l.pages == 0 || ltb h.entry l.load_start || leb l.load_end h.entry)

-- The layout of a file whose headers are accepted.
unfoldable pub accepted : List ℕ → Option Layout
unfolding header_of validate_header program_headers place_segments entry_inside
accepted file =
    let h = header_of file in
    if not (validate_header h (length file))
    then none
    else elim (place_segments (program_headers file h.phnum h.phoff) (length file) no_segment) [
      | none ↦ none
      | some l ↦ if not (entry_inside h l) then none else some l
    ]
