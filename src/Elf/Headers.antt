-- ===== src/Elf/Headers.antt =====
-- The files that kernel/elf.c accepts.
use agentic_os_harness.Common.{
  ℕ, zero, suc, ◌+◌, ◌*◌, ◌≤◌, ◌<◌, ◌≡◌, true, not, Option, none, some, List, arith, if◌then◌else◌,
  All, All-get_or, Bool-cases, inl, inr, length, word_at, u32_mod,
}
use agentic_os_harness.Elf.Image.{
  ProgramHeader, ElfHeader, header_of, program_headers, program_header_at,
}
use agentic_os_harness.Elf.Checks.{
  Layout, no_segment, validate_header, range_inside_file, place_segments, entry_inside, accepted,
}
use agentic_os_harness.Elf.Accepted.{
  IsWords, Fits, Loadable, Disjoint, total_memory, AcceptsIf, IsLayout, place_segments-Accepts,
}

abbrev pub IsBytes : List ℕ → Type 0
IsBytes file = All (λ b. b < 256) file

word_at-lt : (file : List ℕ) (i : ℕ) → IsBytes file → word_at file i < u32_mod
word_at-lt file i h =
    let byte = λ (j : ℕ). All-get_or (λ b. b < 256) file j 0 (omega arith) h in
    omega (arith, byte i, byte (i + 1), byte (i + 2), byte (i + 3))

program_headers-IsWords :
    (n : ℕ) (file : List ℕ) (i : ℕ) → IsBytes file → All IsWords (program_headers file n i)
unfolding program_headers program_header_at
program_headers-IsWords zero file i h = tt
program_headers-IsWords (suc n) file i h = (
  record {
    offset = word_at-lt file (i + 4) h;
    vaddr = word_at-lt file (i + 8) h;
    filesz = word_at-lt file (i + 16) h;
    memsz = word_at-lt file (i + 20) h;
  },
  program_headers-IsWords n file (i + 32) h,
)

-- The program headers of a file.
abbrev pub headers_of : List ℕ → List ProgramHeader
headers_of file = program_headers file (header_of file).phnum (header_of file).phoff

-- What is known of a file whose headers are accepted.
pub record Accepted (file : List ℕ) (l : Layout) : Type 0 where
  pub table : (header_of file).phoff + (header_of file).phnum * 32 ≤ length file
  pub fits : All (Loadable (Fits (length file))) (headers_of file)
  pub disjoint : Disjoint (headers_of file)
  pub small : total_memory (headers_of file) ≤ 65536
  pub entry_above : 1073741824 ≤ (header_of file).entry
  pub entry_below : (header_of file).entry < 2415919104
  pub entry_inside : (l.load_start ≤ (header_of file).entry) × ((header_of file).entry < l.load_end)

abbrev pub AcceptedIf : List ℕ → Option Layout → Type 0
AcceptedIf file none = Unit {0}
AcceptedIf file (some l) = Accepted file l

no_segment-IsLayout : IsLayout no_segment
no_segment-IsLayout = record { small = omega arith; low = omega arith; high = omega arith }

header_of-phoff : (file : List ℕ) → IsBytes file → (header_of file).phoff < u32_mod
unfolding header_of
header_of-phoff file h = word_at-lt file 28 h

validate_header-table :
    (h : ElfHeader) (size : ℕ)
    → h.phoff < u32_mod
    → validate_header h size ≡ true
    → h.phoff + h.phnum * 32 ≤ size
unfolding validate_header range_inside_file
validate_header-table h size word e = ground (arith, e, word)

-- Where the checks accept a file of at most 8192 bytes, its table of program headers lies in the file;
-- each segment to load takes memory, has its bytes in the file, at most as many as it takes memory, and
-- lies between 0x40000000 and 0x90000000; no page belongs to two of them; together they take at most
-- 64 KB; and the entry lies between the lowest and the highest address of the segments, and in that
-- range.
pub accepted-Accepted :
    (file : List ℕ) → IsBytes file → length file ≤ 8192 → AcceptedIf file (accepted file)
unfolding accepted entry_inside
accepted-Accepted file bytes short =
    let h = header_of file in
    let phs = headers_of file in
    elim (Bool-cases (validate_header h (length file))) [
      | inr bad ↦ rw bad tt
      | inl good ↦ rw good (
          finish file (validate_header-table h (length file) (header_of-phoff file bytes) good)
            (place_segments phs (length file) no_segment)
            (place_segments-Accepts phs (length file) no_segment (omega (arith, short))
              (program_headers-IsWords h.phnum file h.phoff bytes) no_segment-IsLayout))
    ]
  where
    finish :
        (file : List ℕ)
        → (header_of file).phoff + (header_of file).phnum * 32 ≤ length file
        → (o : Option Layout) → AcceptsIf (length file) (headers_of file) no_segment o
        → AcceptedIf file (elim o [
          | none ↦ none
          | some l ↦ if not (entry_inside (header_of file) l) then none else some l
        ])
    finish file t none a = tt
    finish file t (some l) a = elim (Bool-cases (entry_inside (header_of file) l)) [
      | inr out ↦ rw out tt
      | inl in_range ↦ rw in_range (record {
        table = t;
        fits = a.fits;
        disjoint = a.disjoint;
        small = omega (arith, a.memory, a.small);
        entry_above = ground (arith, in_range, a.low);
        entry_below = ground (arith, in_range, a.high);
        entry_inside = (ground (arith, in_range), ground (arith, in_range));
      })
    ]
