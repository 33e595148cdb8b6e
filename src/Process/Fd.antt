-- ===== src/Process/Fd.antt =====
-- The descriptor tables of kernel/process.c. A process is its slot in the table; the functions are
-- called with a process that is there. A descriptor table has 16 entries.
pub mod Lowest
pub mod Release
pub mod CloseAll
pub mod Same
use agentic_os_harness.Common.{
  ℕ, zero, suc, ◌+◌, ◌-◌, ◌<◌, ◌%◌, Bool, true, false, not, ◌&&◌, ◌||◌, Option, none, some, List,
  [], ◌∷◌, ltb, leb, ◌==◌, if◌then◌else◌, get_or, set, length, replicate, ℤ, pos, negsuc, bit_and,
  bit_or, u32_mod, is_negative,
}
use agentic_os_harness.Process.Types.{
  Process, ProcessFd, FdKind, fd_none, fd_vfs, fd_pipe_read, fd_pipe_write, kind_eq, blocked,
  state_eq, BlockReason, reason_eq, process_max_fds, max_processes,
}
use agentic_os_harness.Pipe.{
  Pipe, PipeResult, copied, ebadf, pipe_handle_index, pipe_close, pipe_retain,
}
use agentic_os_harness.Vfs.{
  OpenFile, vfs_close, vfs_retain, vfs_success, vfs_einval, vfs_eio, vfs_emfile, vfs_ebadf,
}
use agentic_os_harness.Scheduler.{Sched, proc_at, write_proc, scheduler_wake}

-- The process table with the scheduler, the pipes, the open files, and the words of the kernel stacks
-- by their address.
pub record Kernel : Type 0 where
  pub sched : Sched
  pub pipes : List Pipe
  pub files : List OpenFile
  pub next_pid : ℕ
  pub process_count : ℕ
  pub stack_free_bitmap : ℕ
  pub mem : ℕ → ℕ

abbrev pub process_fd_cloexec : ℕ
process_fd_cloexec = 1

abbrev pub closed_fd : ProcessFd
closed_fd = record { kind = fd_none; handle = negsuc 0; flags = 0 }

abbrev pub fd_at : List ProcessFd → ℕ → ProcessFd
fd_at fds fd = get_or fds fd closed_fd

abbrev pub process : Kernel → ℕ → Process
process k i = proc_at k.sched.procs i

abbrev pub write_process : Kernel → ℕ → Process → Kernel
write_process k i p = record k { sched = write_proc k.sched i p }

unfoldable pub process_fd_table_init : Process → Process
process_fd_table_init p = record p { fds = replicate process_max_fds closed_fd }

-- The loop of `process_fd_install_typed`: the first free entry among `n` from `fd` on.
pub free_fd : List ProcessFd → ℕ → ℕ → Option ℕ
free_fd fds zero fd = none
free_fd fds (suc n) fd = elim (kind_eq (fd_at fds fd).kind fd_none) [
  | true ↦ some fd
  | false ↦ free_fd fds n (fd + 1)
]

install_at : Process → Option ℕ → ProcessFd → ℤ × Process
install_at p none entry = (vfs_emfile, p)
install_at p (some fd) entry = (pos fd, record p { fds = set p.fds fd entry })

unfoldable pub process_fd_install_typed : Process → FdKind → ℤ → ℕ → ℤ × Process
unfolding free_fd install_at
process_fd_install_typed p kind handle flags =
    if kind_eq kind fd_none
      || is_negative handle
      || not (bit_and flags (u32_mod - 1 - process_fd_cloexec) == 0)
    then (vfs_einval, p)
    else install_at p (free_fd p.fds process_max_fds 0)
        (record { kind = kind; handle = handle; flags = flags })

unfoldable pub process_fd_install : Process → ℤ → ℕ → ℤ × Process
unfolding process_fd_install_typed
process_fd_install p handle flags = process_fd_install_typed p fd_vfs handle flags

-- The kind and the handle that go out through the pointers; `none` is VFS_EBADF.
unfoldable pub process_fd_get : Process → ℤ → Option (FdKind × ℤ)
process_fd_get p (negsuc n) = none
process_fd_get p (pos fd) =
    if leb process_max_fds fd
      || kind_eq (fd_at p.fds fd).kind fd_none
      || is_negative (fd_at p.fds fd).handle
    then none
    else some ((fd_at p.fds fd).kind, (fd_at p.fds fd).handle)

unfoldable pub process_fd_resolve : Process → ℤ → ℤ
unfolding process_fd_get
process_fd_resolve p fd = elim (process_fd_get p fd) [ none ↦ vfs_ebadf | some e ↦ e.1 ]

abbrev pub is_pipe_kind : FdKind → Bool
is_pipe_kind kind = kind_eq kind fd_pipe_read || kind_eq kind fd_pipe_write

abbrev same_pipe : Option ℕ → ℕ → Bool
same_pipe none index = false
same_pipe (some i) index = i == index

-- Whether `process_wake_pipe_waiter` wakes the process.
waits_on_entry : List Pipe → Option (FdKind × ℤ) → ℕ → Bool
waits_on_entry pipes none index = false
waits_on_entry pipes (some (kind, handle)) index =
    is_pipe_kind kind && same_pipe (pipe_handle_index pipes handle) index

pub waits_on : List Pipe → Process → ℕ → BlockReason → Bool
unfolding process_fd_get waits_on_entry
waits_on pipes p index reason =
    state_eq p.state blocked
    && reason_eq p.block_reason reason
    && waits_on_entry pipes (process_fd_get p p.blocked_fd) index

-- The loop of `process_wake_pipe_waiter` over `n` slots from `i` on.
pub wake_from : ℕ → ℕ → List Pipe → ℕ → BlockReason → Sched → Sched
unfolding waits_on
wake_from zero i pipes index reason s = s
wake_from (suc n) i pipes index reason s = elim (waits_on pipes (proc_at s.procs i) index reason) [
  | true ↦ scheduler_wake s i
  | false ↦ wake_from n (i + 1) pipes index reason s
]

unfoldable pub process_wake_pipe_waiter : List Pipe → ℕ → BlockReason → Sched → Sched
unfolding wake_from
process_wake_pipe_waiter pipes index reason s = wake_from max_processes 0 pipes index reason s

-- `pipe_close` of the kernel, which wakes a waiter of the process table.
pub close_pipe : Kernel → ℤ → PipeResult × Kernel
unfolding process_wake_pipe_waiter
close_pipe k handle =
    let (r, pipes, sched) = pipe_close process_wake_pipe_waiter k.pipes handle k.sched in
    (r, record k { pipes = pipes; sched = sched })

abbrev pub pipe_status : PipeResult → ℤ
pipe_status (copied zero) = vfs_success
pipe_status _ = vfs_eio

-- What `process_fd_close` does to the handle behind the entry that it cleared.
pub close_handle : Kernel → FdKind → ℤ → ℤ × Kernel
unfolding close_pipe
close_handle k kind handle =
    if is_pipe_kind kind
    then (let (r, k') = close_pipe k handle in (pipe_status r, k'))
    else let (status, files) = vfs_close k.files handle in (status, record k { files = files })

abbrev pub index_of : ℤ → ℕ
index_of (pos fd) = fd
index_of (negsuc n) = 0

close_entry : Kernel → ℕ → ℤ → Option (FdKind × ℤ) → ℤ × Kernel
unfolding close_handle
close_entry k i fd none = (vfs_ebadf, k)
close_entry k i fd (some (kind, handle)) =
    let p = process k i in
    close_handle (write_process k i (record p { fds = set p.fds (index_of fd) closed_fd })) kind
      handle

unfoldable pub process_fd_close : Kernel → ℕ → ℤ → ℤ × Kernel
unfolding close_entry process_fd_get
process_fd_close k i fd = close_entry k i fd (process_fd_get (process k i) fd)

-- The loop of `process_fd_close_on_exec` over `n` descriptors from `fd` on.
pub close_on_exec_from : ℕ → ℕ → Kernel → ℕ → Kernel
unfolding process_fd_close
close_on_exec_from zero fd k i = k
close_on_exec_from (suc n) fd k i =
    let entry = fd_at (process k i).fds fd in
    close_on_exec_from n (fd + 1)
      (if not (kind_eq entry.kind fd_none) && not (bit_and entry.flags process_fd_cloexec == 0)
        then (process_fd_close k i (pos fd)).1
        else k)
      i

unfoldable pub process_fd_close_on_exec : Kernel → ℕ → Kernel
unfolding close_on_exec_from
process_fd_close_on_exec k i = close_on_exec_from process_max_fds 0 k i

-- The loop of `process_fd_close_all`.
pub close_all_from : ℕ → ℕ → Kernel → ℕ → Kernel
unfolding process_fd_close
close_all_from zero fd k i = k
close_all_from (suc n) fd k i =
    close_all_from n (fd + 1)
      (if not (kind_eq (fd_at (process k i).fds fd).kind fd_none)
        then (process_fd_close k i (pos fd)).1
        else k)
      i

unfoldable pub process_fd_close_all : Kernel → ℕ → Kernel
unfolding close_all_from
process_fd_close_all k i = close_all_from process_max_fds 0 k i

abbrev pub succeeded : ℤ → Bool
succeeded (pos zero) = true
succeeded _ = false

-- The reference that a child takes on the handle of an entry.
pub retain_handle : Kernel → FdKind → ℤ → Bool × Kernel
retain_handle k kind handle =
    if is_pipe_kind kind
    then (let (r, pipes) = pipe_retain k.pipes handle in
        (succeeded (pipe_status r), record k { pipes = pipes }))
    else let (status, files) = vfs_retain k.files handle in
      (succeeded status, record k { files = files })

-- The loop of `process_fd_inherit` over `n` descriptors from `fd` on, as its status.
pub inherit_from : ℕ → ℕ → Kernel → ℕ → ℕ → ℤ × Kernel
unfolding retain_handle process_fd_close_all
inherit_from zero fd k child parent = (vfs_success, k)
inherit_from (suc n) fd k child parent =
    let entry = fd_at (process k parent).fds fd in
    let (retained, k1) = retain_handle k entry.kind entry.handle in
    let p = process k1 child in
    let next =
      inherit_from n (fd + 1)
        (if kind_eq entry.kind fd_none
          then k
          else write_process k1 child (record p { fds = set p.fds fd entry }))
        child parent in
    if kind_eq entry.kind fd_none || retained
    then next
    else (vfs_ebadf, process_fd_close_all k1 child)

unfoldable pub process_fd_inherit : Kernel → ℕ → ℕ → ℤ × Kernel
unfolding inherit_from
process_fd_inherit k child parent = inherit_from process_max_fds 0 k child parent
