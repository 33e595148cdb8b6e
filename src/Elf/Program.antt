-- ===== src/Elf/Program.antt =====
-- `elf_load_from_vfs` of kernel/elf.c as a whole: what a program is when it is loaded.
use agentic_os_harness.Common.{ℕ, ◌≡◌, List}
use agentic_os_harness.Elf.Image.{header_of}
use agentic_os_harness.Elf.Checks.{Layout, accepted}
use agentic_os_harness.Elf.Load.{Machine, Outcome, done, failed, LoadInfo}
use agentic_os_harness.Elf.Headers.{Accepted, headers_of}
use agentic_os_harness.Elf.Loaded.{Image}

-- The program of `file` in memory `after`: its headers are accepted.
pub record IsLoaded (file : List ℕ) (before after : ℕ → ℕ) (info : LoadInfo) : Type 0 where
  pub layout : Layout
  pub accepted : Accepted file layout
  pub image : Image file (headers_of file) before after
  pub entry : info.entry ≡ (header_of file).entry
  pub first : info.load_start ≡ layout.load_start
  pub last : info.load_end ≡ layout.load_end

abbrev pub LoadsProgram :
    {D P : Type 0} → List ℕ → (ℕ → ℕ) → Outcome LoadInfo × Machine D P → Type 0
LoadsProgram file before (failed e, m) = Unit {0}
LoadsProgram file before (done info, m) = IsLoaded file before m.memory info
