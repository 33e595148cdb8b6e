-- ===== src/Simplefs/Serving.antt =====
-- kernel/simplefs.c as files with a content, for the readers behind kernel/vfs.c.
use agentic_os_harness.Common.{ℕ, ◌≡◌, true, List, length, is_negative}
use agentic_os_harness.Disk.{BlockDevice}
use agentic_os_harness.Vfs.{FileInfo}
use agentic_os_harness.Simplefs.State.{SimpleFs, Result, ok, err}

module _ {D : Type 0} (dev : BlockDevice D) where
  -- The status of a file, and what an open for reading does.
  abbrev HasInfo : SimpleFs D → List ℕ → Result FileInfo × SimpleFs D → Type 0
  HasInfo s file (ok info, t) = (info.size ≡ length file) × (t ≡ s)
  HasInfo s file (err e, t) = (is_negative e ≡ true) × (t ≡ s)
