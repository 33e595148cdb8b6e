-- ===== src/Process/Tests.antt =====
-- Runs of kernel/process.c on a small table.
use agentic_os_harness.Common.{
  ℕ, ◌≡◌, refl, true, false, none, some, List, ◌∷◌, arith, ℤ, pos, length, length-replicate,
  replicate,
}
use agentic_os_harness.Process.Types.{
  Process, ProcessFd, blank_process, fd_none, fd_vfs, running, zombie, kind_eq, FdKind,
}
use agentic_os_harness.Pipe.{pipe_init}
use agentic_os_harness.Vfs.{vfs_clear_open_files, vfs_ebadf}
use agentic_os_harness.Process.Fd.{
  Kernel, closed_fd, process_fd_table_init, process_fd_install_typed, process, process_fd_get,
  process_fd_close, process_fd_close_all, fd_at,
}
use agentic_os_harness.Process.Fd.Lowest.{Installed, process_fd_install_typed-Installed}
use agentic_os_harness.Process.Fd.Release.{Closed, process_fd_close-Closed, fds_of}
use agentic_os_harness.Process.Fd.CloseAll.{process_fd_close_all-closed}
use agentic_os_harness.Process.Lookup.{process_find_exited_child_by_pid, any_pid}
use agentic_os_harness.Process.Lookup.First.{FirstExited, process_find_exited_child_by_pid-First}
use agentic_os_harness.Common.{zero, suc}
use agentic_os_harness.Process.Fd.CloseAll.{IsFdTable}
use agentic_os_harness.Process.Exit.{process_mark_exit}
use agentic_os_harness.Process.Exit.Orphans.{Exited, process_mark_exit-Exited}
use agentic_os_harness.Process.Types.{max_processes}

abbrev new_process : Process
new_process = process_fd_table_init blank_process

new_process-length : length new_process.fds ≡ 16
unfolding process_fd_table_init
new_process-length = length-replicate 16 closed_fd

process_fd_install_typed-Installed_example :
    Installed new_process fd_vfs (pos 3) 1 (process_fd_install_typed new_process fd_vfs (pos 3) 1)
process_fd_install_typed-Installed_example =
    process_fd_install_typed-Installed new_process fd_vfs (pos 3) 1 new_process-length

abbrev file_entry : ProcessFd
file_entry = record { kind = fd_vfs; handle = pos 3; flags = 0 }

abbrev with_file : Process
with_file = record blank_process {
  pid = 7;
  parent_pid = 4;
  state = running;
  fds = file_entry ∷ replicate 15 closed_fd;
}

abbrev table : List Process
table =
    with_file
    ∷ record with_file { pid = 8; state = zombie; exited = true }
    ∷ replicate 14 blank_process

abbrev kernel : Kernel
kernel = record {
  sched = record {
    procs = table;
    ready_queue = none;
    current = some 0;
    schedule_count = 0;
    initialized = true;
    preemption_enabled = false;
    active_directory = 4096;
    tss_stack = none;
  };
  pipes = pipe_init;
  files = vfs_clear_open_files;
  next_pid = 9;
  process_count = 2;
  stack_free_bitmap = 65532;
  mem = λ address. 0;
}

entry_found : process_fd_get (process kernel 0) (pos 0) ≡ some (fd_vfs, pos 3)
unfolding process_fd_get
entry_found = refl

process_fd_close-Closed_example :
    ((e : FdKind × ℤ)
      → process_fd_get (process kernel 0) (pos 0) ≡ some e
      → Closed kernel 0 0 (process_fd_close kernel 0 (pos 0)).1)
    × (process_fd_get (process kernel 0) (pos 0) ≡ none
        → process_fd_close kernel 0 (pos 0) ≡ (vfs_ebadf, kernel))
process_fd_close-Closed_example = process_fd_close-Closed kernel 0 0 (omega arith)

no_entry : (n fd : ℕ) → kind_eq (fd_at (replicate n closed_fd) fd).kind fd_none ≡ true
unfolding replicate
no_entry zero fd = refl
no_entry (suc n) zero = refl
no_entry (suc n) (suc fd) = no_entry n fd

handles : IsFdTable (process kernel 0).fds
handles zero e = refl
handles (suc fd) e = absurd (let x = no_entry 15 fd in cc)

process_fd_close_all-closed_example :
    kind_eq (fd_at (fds_of (process_fd_close_all kernel 0).sched 0) 0).kind fd_none ≡ true
process_fd_close_all-closed_example =
    process_fd_close_all-closed kernel 0 (omega arith) handles 0 (omega arith)

table-length : length table ≡ max_processes
table-length = omega (arith, length-replicate 14 blank_process)

process_mark_exit-Exited_example : Exited kernel 0 (process_mark_exit kernel 0 3)
process_mark_exit-Exited_example =
    process_mark_exit-Exited kernel 0 3 table-length (omega arith) refl refl
      (λ e. absurd (omega arith)) handles

process_find_exited_child_by_pid-First_example :
    FirstExited 4 any_pid table (process_find_exited_child_by_pid table 4 any_pid)
process_find_exited_child_by_pid-First_example =
    process_find_exited_child_by_pid-First table 4 any_pid (λ e. absurd (omega arith))
