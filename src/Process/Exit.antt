-- ===== src/Process/Exit.antt =====
-- `process_mark_exit` of kernel/process.c: the process becomes a zombie without descriptors, its
-- children lose their parent, and its parent gets SIGCHLD and, if it waits for this child, the result.
pub mod Orphans
use agentic_os_harness.Common.{
  ℕ, zero, suc, ◌+◌, ◌-◌, ◌*◌, ◌%◌, ◌^◌, Bool, true, false, not, ◌&&◌, ◌||◌, Option, none, some,
  List, ◌==◌, if◌then◌else◌, bit_and, bit_or, set, u32_mod,
}
use agentic_os_harness.Process.Types.{
  Process, block_none, dead, zombie, blocked, state_eq, max_processes,
}
use agentic_os_harness.Scheduler.{proc_at, scheduler_remove, scheduler_wake}
use agentic_os_harness.Process.Fd.{Kernel, process, write_process, process_fd_close_all}
use agentic_os_harness.Process.Lookup.{process_get_by_pid, any_pid}
use agentic_os_harness.Process.Wait.{process_send_signal, sigkill, sigterm, sigchld}

abbrev pub write_word : (ℕ → ℕ) → ℕ → ℕ → ℕ → ℕ
write_word mem address word x = if x == address then word else mem x

-- `W_EXITCODE` of include/syscall.h
abbrev pub w_exitcode : ℕ → ℕ → ℕ
w_exitcode code sig = bit_or (code % 256 * 256) (sig % 128)

-- Bit 31 marks a status that is kept whole.
abbrev pub stored_exit_code : ℕ → ℕ
stored_exit_code code = if bit_and code (2 ^ 31) == 0 then code % 256 else code

-- The loop over the children, `n` slots from `i` on.
abbrev pub orphaned : ℕ → Process → Process
orphaned pid p =
    if not (state_eq p.state dead) && p.parent_pid == pid
    then (if state_eq p.state zombie
        then record p { parent_pid = 0; waited = true }
        else record p { parent_pid = 0 })
    else p

pub orphan_from : ℕ → ℕ → List Process → ℕ → List Process
orphan_from zero i procs pid = procs
orphan_from (suc n) i procs pid =
    orphan_from n (i + 1) (set procs i (orphaned pid (proc_at procs i))) pid

-- `((struct interrupt_frame *)esp)->eax`
abbrev pub eax_at : ℕ → ℕ
eax_at esp = esp + 28

-- The parent waits for the child that exits.
abbrev pub waits_for : Process → Process → Bool
waits_for parent p =
    state_eq parent.state blocked
    && parent.waiting_for_child
    && (parent.wait_target_pid == any_pid || parent.wait_target_pid == p.pid)

abbrev pub completed : Process → ℕ → Process
completed parent status = record parent {
  wait_result_status = status;
  wait_completion_pending = true;
  waiting_for_child = false;
  block_reason = block_none;
}

-- What the exit of slot `i` does for its parent in slot `j`.
pub notify : Kernel → ℕ → ℕ → ℕ → Kernel
unfolding process_send_signal
notify k i j status =
    let k1 = write_process k j (process_send_signal (process k j) sigchld).1 in
    let p = process k1 i in
    let parent = process k1 j in
    if waits_for parent p
    then (let k2 =
          write_process k1 j
            (completed parent (if parent.wait_is_waitpid then status else p.exit_code)) in
        let k3 =
          if parent.esp == 0
          then k2
          else record k2 { mem = write_word k2.mem (eax_at parent.esp) p.pid } in
        let k4 = write_process k3 i (record (process k3 i) { waited = true }) in
        record k4 { sched = scheduler_wake k4.sched j })
    else k1

pub tell_parent : Kernel → ℕ → ℕ → Option ℕ → Kernel
unfolding notify
tell_parent k i status none = write_process k i (record (process k i) { waited = true })
tell_parent k i status (some j) =
    if state_eq (process k j).state zombie
    then write_process k i (record (process k i) { waited = true })
    else notify k i j status

-- The first part: out of the queue, with its code, its descriptors closed, a zombie.
pub exited_kernel : Kernel → ℕ → ℕ → Kernel
unfolding process_fd_close_all scheduler_remove
exited_kernel k i code =
    let k1 = record k { sched = scheduler_remove k.sched i } in
    let k2 =
      write_process k1 i
        (record (process k1 i) { exit_code = stored_exit_code code; exited = true }) in
    let k3 = process_fd_close_all k2 i in
    write_process k3 i (record (process k3 i) { state = zombie; block_reason = block_none })

abbrev pub encoded_status : Process → ℕ
encoded_status p =
    if p.killed_by_signal == 0 then w_exitcode p.exit_code 0 else w_exitcode 0 p.killed_by_signal

unfoldable pub process_mark_exit : Kernel → ℕ → ℕ → Kernel
unfolding exited_kernel orphan_from tell_parent process_get_by_pid
process_mark_exit k i code =
    if state_eq (process k i).state dead || state_eq (process k i).state zombie
    then k
    else let k1 = exited_kernel k i code in
      let p = process k1 i in
      let procs = orphan_from max_processes 0 k1.sched.procs p.pid in
      let k2 = record k1 { sched = record k1.sched { procs = procs } } in
      tell_parent k2 i (encoded_status p) (process_get_by_pid procs (process k2 i).parent_pid)

unfoldable pub process_mark_signal_exit : Kernel → ℕ → ℕ → Kernel
unfolding process_mark_exit
process_mark_signal_exit k i signum =
    if not (signum == sigkill) && not (signum == sigterm)
    then k
    else let p = process k i in
      process_mark_exit
        (write_process k i (record p {
          pending_signals = bit_and p.pending_signals (u32_mod - 1 - 2 ^ signum);
          killed_by_signal = signum;
        }))
        i 0
