-- ===== src/Process/Wait.antt =====
-- Waiting in kernel/process.c: for a child, for a pipe, and the signals that are pending.
use agentic_os_harness.Common.{
  ℕ, ◌^◌, Bool, true, false, not, ◌&&◌, ◌||◌, ◌==◌, if◌then◌else◌, bit_or, ℤ, pos, negsuc,
}
use agentic_os_harness.Process.Types.{
  Process, BlockReason, block_none, block_wait_child, block_pipe_read, block_pipe_write, reason_eq,
  dead, zombie, state_eq,
}
use agentic_os_harness.Process.Lookup.{any_pid}

unfoldable pub process_begin_waitpid : Process → ℕ → ℕ → Process
process_begin_waitpid p status_ptr target_pid = record p {
  waiting_for_child = true;
  wait_target_pid = target_pid;
  wait_status_ptr = status_ptr;
  wait_result_status = 0;
  wait_completion_pending = false;
  wait_is_waitpid = false;
  block_reason = block_wait_child;
}

unfoldable pub process_begin_wait : Process → ℕ → Process
unfolding process_begin_waitpid
process_begin_wait p status_ptr = process_begin_waitpid p status_ptr any_pid

unfoldable pub process_cancel_wait : Process → Process
process_cancel_wait p = record p {
  waiting_for_child = false;
  wait_target_pid = 0;
  wait_status_ptr = 0;
  wait_result_status = 0;
  wait_completion_pending = false;
  block_reason = block_none;
}

unfoldable pub process_begin_pipe_wait : Process → BlockReason → ℤ → ℕ → ℕ → Process
process_begin_pipe_wait p reason fd buffer count =
    if not (reason_eq reason block_pipe_read) && not (reason_eq reason block_pipe_write)
    then p
    else record p {
      block_reason = reason;
      blocked_fd = fd;
      blocked_buffer = buffer;
      blocked_count = count;
    }

abbrev pub sigkill : ℕ
sigkill = 9

abbrev pub sigterm : ℕ
sigterm = 15

abbrev pub sigchld : ℕ
sigchld = 17

unfoldable pub process_signal_init : Process → Process
process_signal_init p = record p { pending_signals = 0; killed_by_signal = 0 }

abbrev pub signal_valid : ℕ → Bool
signal_valid signum = signum == sigkill || signum == sigterm || signum == sigchld

unfoldable pub process_send_signal : Process → ℕ → ℤ × Process
process_send_signal p signum =
    if not (signal_valid signum) || state_eq p.state dead || state_eq p.state zombie
    then (negsuc 0, p)
    else (pos 0, record p { pending_signals = bit_or p.pending_signals (2 ^ signum) })
