-- ===== src/Process/Resume.antt =====
-- What kernel/process.c does when it goes back to a process: it completes the call that blocked it, and
-- delivers its signals. User memory is a byte for each address, over the page tables `P`.
use agentic_os_harness.Common.{
  ℕ, zero, suc, ◌+◌, ◌-◌, ◌^◌, Bool, true, false, not, ◌&&◌, ◌||◌, Option, none, some, List, ◌==◌,
  if◌then◌else◌, bit_and, bytes_from, store_bytes, word_bytes, u32_mod, ℤ, negsuc,
}
use agentic_os_harness.Process.Types.{
  Process, block_none, block_pipe_read, block_pipe_write, reason_eq, zombie, running, state_eq,
  FdKind, fd_pipe_read, fd_pipe_write, kind_eq, max_processes,
}
use agentic_os_harness.Pipe.{
  Pipe, PipeResult, copied, ebadf, would_block, broken, pipe_read, pipe_write,
}
use agentic_os_harness.Scheduler.{Sched, proc_at, scheduler_exit_current}
use agentic_os_harness.Uaccess.{UaccessResult, success, VmFaultResult, copy_to_user}
use agentic_os_harness.Process.Fd.{
  Kernel, process, write_process, process_fd_get, process_wake_pipe_waiter,
}
use agentic_os_harness.Process.Lookup.{process_get_current, process_get_by_pid}
use agentic_os_harness.Process.Wait.{sigkill, sigterm, sigchld}
use agentic_os_harness.Process.Exit.{write_word, eax_at, process_mark_exit}
use agentic_os_harness.Process.Create.{Paging, process_destroy}

unfoldable pub process_get_count : Kernel → ℕ
process_get_count k = k.process_count

unfoldable pub process_set_address_space : Process → ℕ → Process
process_set_address_space p cr3 = record p { cr3 = cr3 }

-- `(uint32_t)-n` as include/syscall.h writes its errors
abbrev pub syscall_efault : ℕ
syscall_efault = u32_mod - 2

abbrev pub syscall_ebadf : ℕ
syscall_ebadf = u32_mod - 9

abbrev pub syscall_eagain : ℕ
syscall_eagain = u32_mod - 13

abbrev pub syscall_epipe : ℕ
syscall_epipe = u32_mod - 15

-- What the interrupted call returns.
abbrev pub pipe_status : PipeResult → ℕ
pipe_status broken = syscall_epipe
pipe_status would_block = syscall_eagain
pipe_status ebadf = syscall_ebadf
pipe_status (copied n) = n

-- `((struct interrupt_frame *)proc->esp)->eax = value`, where there is a frame
abbrev pub set_eax : Kernel → ℕ → ℕ → Kernel
set_eax k i value =
    let esp = (process k i).esp in
    if esp == 0 then k else record k { mem = write_word k.mem (eax_at esp) value }

-- A transfer of the kernel's pipes, and user memory.
abbrev pub read_done :
    Kernel → (ℕ → ℕ) → ℕ → PipeResult × List ℕ × List Pipe × Sched → PipeResult × Kernel × (ℕ → ℕ)
read_done k user buffer (result, bytes, pipes, sched) =
    (result, record k { pipes = pipes; sched = sched }, store_bytes user buffer bytes)

abbrev pub write_done :
    Kernel → (ℕ → ℕ) → PipeResult × List Pipe × Sched → PipeResult × Kernel × (ℕ → ℕ)
write_done k user (result, pipes, sched) = (result, record k { pipes = pipes; sched = sched }, user)

-- The transfer that a blocked process waited for, by the entry of its descriptor.
retried : Kernel → (ℕ → ℕ) → ℕ → Option (FdKind × ℤ) → PipeResult × Kernel × (ℕ → ℕ)
unfolding process_wake_pipe_waiter
retried k user i none = (ebadf, k, user)
retried k user i (some (kind, handle)) =
    let p = process k i in
    if reason_eq p.block_reason block_pipe_read && kind_eq kind fd_pipe_read
    then read_done k user p.blocked_buffer (
        pipe_read process_wake_pipe_waiter k.pipes handle (not (p.blocked_buffer == 0))
          p.blocked_count k.sched)
    else if reason_eq p.block_reason block_pipe_write && kind_eq kind fd_pipe_write
    then write_done k user (
        pipe_write process_wake_pipe_waiter k.pipes handle
          (if p.blocked_buffer == 0
            then none
            else some (bytes_from user p.blocked_count p.blocked_buffer))
          p.blocked_count k.sched)
    else (ebadf, k, user)

-- The fields that are cleared behind the transfer.
abbrev pub unblocked : Process → Process
unblocked p = record p {
  block_reason = block_none;
  blocked_fd = negsuc 0;
  blocked_buffer = 0;
  blocked_count = 0;
}

unfoldable pub process_complete_pipe_io : Kernel → (ℕ → ℕ) → ℕ → Kernel × (ℕ → ℕ)
unfolding retried process_fd_get
process_complete_pipe_io k user i =
    let p = process k i in
    let (result, k1, user') = retried k user i (process_fd_get p p.blocked_fd) in
    let k2 = set_eax k1 i (pipe_status result) in
    if not (reason_eq p.block_reason block_pipe_read)
      && not (reason_eq p.block_reason block_pipe_write)
    then (k, user)
    else (write_process k2 i (unblocked (process k2 i)), user')

abbrev same_slot : Option ℕ → ℕ → Bool
same_slot none i = false
same_slot (some j) i = j == i

-- Nobody will wait for the zombie.
abandoned : List Process → Process → Option ℕ → Bool
abandoned procs p none = true
abandoned procs p (some parent) =
    p.waited || p.parent_pid == 0 || state_eq (proc_at procs parent).state zombie

module _ {P : Type 0} (paging : Paging P) (stack_pool : ℕ)
    (prepare : Process → ℕ → P → VmFaultResult × P) where
  -- The loop of `process_complete_context_switch` over `n` slots from `i` on.
  unfoldable pub reap_from : ℕ → ℕ → Option ℕ → Kernel → P → Kernel × P
  unfolding abandoned process_destroy process_get_by_pid
  reap_from zero i current k pages = (k, pages)
  reap_from (suc n) i current k pages =
      let p = process k i in
      let (k', pages') =
        if same_slot current i || not (state_eq p.state zombie)
        then (k, pages)
        else if abandoned k.sched.procs p (process_get_by_pid k.sched.procs p.parent_pid)
        then process_destroy paging stack_pool k pages i
        else (k, pages) in
      reap_from n (i + 1) current k' pages'

  -- The copy of the child's status to the parent.
  abbrev pub status_copied : Kernel → ℕ → UaccessResult × (ℕ → ℕ) × P → Kernel × (ℕ → ℕ) × P
  status_copied k i (success, user, pages) = (k, user, pages)
  status_copied k i (other, user, pages) = (set_eax k i syscall_efault, user, pages)

  unfoldable pub complete_wait : Kernel → (ℕ → ℕ) → P → ℕ → Kernel × (ℕ → ℕ) × P
  unfolding copy_to_user
  complete_wait k user pages i =
      let p = process k i in
      let (k1, user', pages') =
        if p.wait_status_ptr == 0
        then (k, user, pages)
        else status_copied k i (
            copy_to_user prepare k.sched.procs k.sched.active_directory user p.wait_status_ptr
              (some (word_bytes p.wait_result_status)) 4 pages) in
      if not p.wait_completion_pending then (k, user, pages) else (
        write_process k1 i (record (process k1 i) {
          wait_status_ptr = 0;
          wait_result_status = 0;
          wait_completion_pending = false;
        }),
        user',
        pages',
      )

  completed_current : Kernel → (ℕ → ℕ) → P → Option ℕ → Kernel × (ℕ → ℕ) × P
  unfolding complete_wait process_complete_pipe_io
  completed_current k user pages none = (k, user, pages)
  completed_current k user pages (some i) =
      let (k1, user1, pages1) = complete_wait k user pages i in
      let (k2, user2) = process_complete_pipe_io k1 user1 i in (k2, user2, pages1)

  unfoldable pub process_complete_context_switch : Kernel → (ℕ → ℕ) → P → Kernel × (ℕ → ℕ) × P
  unfolding completed_current reap_from process_get_current
  process_complete_context_switch k user pages =
      let current = process_get_current k.sched.procs in
      let (k1, user1, pages1) = completed_current k user pages current in
      let (k2, pages2) = reap_from max_processes 0 current k1 pages1 in (k2, user1, pages2)

-- Whether a signal is pending.
abbrev pub pending : Process → ℕ → Bool
pending p signum = not (bit_and p.pending_signals (2 ^ signum) == 0)

abbrev pub without_signal : Process → ℕ → Process
without_signal p signum = record p {
  pending_signals = bit_and p.pending_signals (u32_mod - 1 - 2 ^ signum);
}

-- The process in slot `i` ends by a signal, and another one takes its place.
unfoldable pub ended_by : Kernel → ℕ → ℕ → ℕ → ℕ × Kernel
unfolding process_mark_exit scheduler_exit_current
ended_by k i signum esp =
    let p = without_signal (process k i) signum in
    let k1 = process_mark_exit (write_process k i (record p { killed_by_signal = signum })) i 0 in
    let (esp', sched) = scheduler_exit_current k1.sched esp in (esp', record k1 { sched = sched })

-- What a round of the loop finds for the current process: the end of the loop, or the next round.
pub data Round : Type 0 where
  stop : Round
  again : ℕ → Kernel → Round

unfoldable pub signal_round : Kernel → ℕ → Option ℕ → Round
unfolding ended_by
signal_round k esp none = stop
signal_round k esp (some i) =
    let p = process k i in
    if not (state_eq p.state running)
    then stop
    else if esp == 0 || not (bit_and (k.mem (esp + 52)) 3 == 3)
    then stop
    else if pending p sigkill
    then (let (esp', k') = ended_by k i sigkill esp in again esp' k')
    else if pending p sigterm
    then (let (esp', k') = ended_by k i sigterm esp in again esp' k')
    else if pending p sigchld
    then again esp (write_process k i (without_signal p sigchld))
    else stop

-- The loop, of at most `fuel` rounds; `none` is to run out of them.
unfoldable pub process_deliver_signals : ℕ → Kernel → ℕ → Option (ℕ × Kernel)
unfolding signal_round process_get_current
process_deliver_signals zero k esp = none
process_deliver_signals (suc fuel) k esp =
    elim (signal_round k esp (process_get_current k.sched.procs)) [
      | stop ↦ some (esp, k)
      | again esp' k' ↦ process_deliver_signals fuel k' esp'
    ]
