-- ===== src/Process/Types.antt =====
-- The enumerations and structs of include/process.h. A pointer to a process is its slot in
-- `process_table`, `none` for NULL; fields that only ever hold 0 or 1 are Booleans.
use agentic_os_harness.Common.{ℕ, Bool, true, false, Option, List, ℤ}
use agentic_os_harness.Common.{replicate, pos, none, ◌∷◌, []}

-- `enum block_reason`
pub data BlockReason : Type 0 where
  block_none block_wait_child block_pipe_read block_pipe_write : BlockReason

-- `enum process_fd_kind`
pub data FdKind : Type 0 where
  fd_none fd_vfs fd_pipe_read fd_pipe_write : FdKind

-- `enum process_state`
pub data ProcessState : Type 0 where
  dead ready running blocked zombie : ProcessState

-- `struct process_fd`
pub record ProcessFd : Type 0 where
  pub kind : FdKind
  pub handle : ℤ
  pub flags : ℕ

-- `struct process`
pub record Process : Type 0 where
  pub pid : ℕ
  pub esp : ℕ
  pub ebp : ℕ
  pub eip : ℕ
  pub cr3 : ℕ
  pub interrupt_frame : Bool
  pub priority : ℕ
  pub dynamic_priority : ℕ
  pub run_count : ℕ
  pub test_marker_permissions : List ℕ
  pub state : ProcessState
  pub kernel_stack : Option ℕ
  pub user_stack : ℕ
  pub next : Option ℕ
  pub parent_pid : ℕ
  pub exit_code : ℕ
  pub exited : Bool
  pub waited : Bool
  pub waiting_for_child : Bool
  pub wait_target_pid : ℕ
  pub wait_status_ptr : ℕ
  pub wait_result_status : ℕ
  pub wait_completion_pending : Bool
  pub wait_is_waitpid : Bool
  pub block_reason : BlockReason
  pub blocked_fd : ℤ
  pub blocked_buffer : ℕ
  pub blocked_count : ℕ
  pub pending_signals : ℕ
  pub killed_by_signal : ℕ
  pub heap_start : ℕ
  pub heap_end : ℕ
  pub fds : List ProcessFd

abbrev pub max_processes : ℕ
max_processes = 16

abbrev pub process_default_priority : ℕ
process_default_priority = 1

abbrev pub process_max_priority : ℕ
process_max_priority = 16

abbrev pub process_max_fds : ℕ
process_max_fds = 16

-- The constants of an enumeration, compared.
abbrev pub kind_eq : FdKind → FdKind → Bool
kind_eq fd_none fd_none = true
kind_eq fd_vfs fd_vfs = true
kind_eq fd_pipe_read fd_pipe_read = true
kind_eq fd_pipe_write fd_pipe_write = true
kind_eq _ _ = false

abbrev pub state_eq : ProcessState → ProcessState → Bool
state_eq dead dead = true
state_eq ready ready = true
state_eq running running = true
state_eq blocked blocked = true
state_eq zombie zombie = true
state_eq _ _ = false

abbrev pub reason_eq : BlockReason → BlockReason → Bool
reason_eq block_none block_none = true
reason_eq block_wait_child block_wait_child = true
reason_eq block_pipe_read block_pipe_read = true
reason_eq block_pipe_write block_pipe_write = true
reason_eq _ _ = false

-- A slot that was never used: all bytes 0.
unfoldable pub blank_process : Process
blank_process = record {
  pid = 0;
  esp = 0;
  ebp = 0;
  eip = 0;
  cr3 = 0;
  interrupt_frame = false;
  priority = 0;
  dynamic_priority = 0;
  run_count = 0;
  test_marker_permissions = 0 ∷ 0 ∷ [];
  state = dead;
  kernel_stack = none;
  user_stack = 0;
  next = none;
  parent_pid = 0;
  exit_code = 0;
  exited = false;
  waited = false;
  waiting_for_child = false;
  wait_target_pid = 0;
  wait_status_ptr = 0;
  wait_result_status = 0;
  wait_completion_pending = false;
  wait_is_waitpid = false;
  block_reason = block_none;
  blocked_fd = pos 0;
  blocked_buffer = 0;
  blocked_count = 0;
  pending_signals = 0;
  killed_by_signal = 0;
  heap_start = 0;
  heap_end = 0;
  fds = replicate process_max_fds (record { kind = fd_none; handle = pos 0; flags = 0 });
}
