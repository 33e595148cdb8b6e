-- ===== src/Elf/Image.antt =====
-- The headers that kernel/elf.c reads from the bytes of a file, and the statuses that it returns.
use agentic_os_harness.Common.{
  ℕ, zero, suc, ◌+◌, ◌*◌, List, [], ◌∷◌, get_or, word_at, ℤ, negsuc, take,
}

abbrev pub elf_einval : ℤ
elf_einval = negsuc 0

abbrev pub elf_enoent : ℤ
elf_enoent = negsuc 1

abbrev pub elf_eio : ℤ
elf_eio = negsuc 2

abbrev pub elf_enospc : ℤ
elf_enospc = negsuc 3

abbrev pub elf_max_segments : ℕ
elf_max_segments = 8

abbrev pub elf_max_image_size : ℕ
elf_max_image_size = 8192

abbrev pub elf_max_load_memory_size : ℕ
elf_max_load_memory_size = 65536

abbrev pub elf_user_load_min : ℕ
elf_user_load_min = 1073741824

abbrev pub elf_user_load_max : ℕ
elf_user_load_max = 2415919104

-- `struct elf32_header`, 52 bytes
pub record ElfHeader : Type 0 where
  pub ident : List ℕ
  pub type : ℕ
  pub machine : ℕ
  pub version : ℕ
  pub entry : ℕ
  pub phoff : ℕ
  pub shoff : ℕ
  pub flags : ℕ
  pub ehsize : ℕ
  pub phentsize : ℕ
  pub phnum : ℕ
  pub shentsize : ℕ
  pub shnum : ℕ
  pub shstrndx : ℕ

-- `struct elf32_program_header`, 32 bytes
pub record ProgramHeader : Type 0 where
  pub type : ℕ
  pub offset : ℕ
  pub vaddr : ℕ
  pub paddr : ℕ
  pub filesz : ℕ
  pub memsz : ℕ
  pub flags : ℕ
  pub align : ℕ

-- The `uint16_t` at index `i`.
abbrev pub half_at : List ℕ → ℕ → ℕ
half_at bytes i = get_or bytes i 0 + get_or bytes (i + 1) 0 * 256

-- `(const struct elf32_header *)elf_file_buffer`
unfoldable pub header_of : List ℕ → ElfHeader
header_of file = record {
  ident = take 16 file;
  type = half_at file 16;
  machine = half_at file 18;
  version = word_at file 20;
  entry = word_at file 24;
  phoff = word_at file 28;
  shoff = word_at file 32;
  flags = word_at file 36;
  ehsize = half_at file 40;
  phentsize = half_at file 42;
  phnum = half_at file 44;
  shentsize = half_at file 46;
  shnum = half_at file 48;
  shstrndx = half_at file 50;
}

-- The program header at index `at` of the file.
unfoldable pub program_header_at : List ℕ → ℕ → ProgramHeader
program_header_at file at = record {
  type = word_at file at;
  offset = word_at file (at + 4);
  vaddr = word_at file (at + 8);
  paddr = word_at file (at + 12);
  filesz = word_at file (at + 16);
  memsz = word_at file (at + 20);
  flags = word_at file (at + 24);
  align = word_at file (at + 28);
}

-- The `n` program headers from index `at` on, which the two loops of `elf_load_from_vfs` go through.
unfoldable pub program_headers : List ℕ → ℕ → ℕ → List ProgramHeader
unfolding program_header_at
program_headers file zero at = []
program_headers file (suc n) at = program_header_at file at ∷ program_headers file n (at + 32)
