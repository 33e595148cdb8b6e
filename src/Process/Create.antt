-- ===== src/Process/Create.antt =====
-- Creating and destroying processes in kernel/process.c. `Paging` has the functions of kernel/paging.c
-- that are called, over the state of the page tables `P`, and `stack_pool` is the address of the pool
-- of kernel stacks, which the linker chooses. A kernel stack is its slot in the pool.
use agentic_os_harness.Common.{
  ℕ, zero, suc, ◌+◌, ◌-◌, ◌*◌, ◌^◌, Bool, true, false, not, ◌||◌, Option, none, some, List, [], ◌∷◌,
  leb, ◌==◌, if◌then◌else◌, bit_and, bit_or, add32, u16_mod, replicate, ℤ, negsuc,
}
use agentic_os_harness.Process.Types.{
  Process, dead, ready, state_eq, block_none, blank_process, max_processes,
  process_default_priority,
}
use agentic_os_harness.Process.Fd.{
  Kernel, process, write_process, process_fd_table_init, process_fd_close_all, process_fd_inherit,
  succeeded,
}
use agentic_os_harness.Process.Markers.{process_clear_test_markers}
use agentic_os_harness.Process.Lookup.{search}
use agentic_os_harness.Process.Wait.{process_signal_init}
use agentic_os_harness.Process.Exit.{write_word}

abbrev pub stack_slots : ℕ
stack_slots = 16

abbrev pub kernel_stack_size : ℕ
kernel_stack_size = 4096

abbrev pub user_stack_top : ℕ
user_stack_top = 2952790016

abbrev pub process_heap_start : ℕ
process_heap_start = 2415919104

-- Bit `i` of the bitmap is set while stack slot `i` is free.
abbrev pub slot_free : ℕ → ℕ → Bool
slot_free bitmap i = not (bit_and bitmap (2 ^ i) == 0)

-- The loop of `allocate_stack` over `n` slots from `i` on.
pub free_slot : ℕ → ℕ → ℕ → Option ℕ
free_slot bitmap zero i = none
free_slot bitmap (suc n) i = elim (slot_free bitmap i) [
  | true ↦ some i
  | false ↦ free_slot bitmap n (i + 1)
]

take_slot : ℕ → Option ℕ → Option ℕ × ℕ
take_slot bitmap none = (none, bitmap)
take_slot bitmap (some i) = (some i, bit_and bitmap (u16_mod - 1 - 2 ^ i))

unfoldable pub allocate_stack : ℕ → ℕ → Option ℕ × ℕ
unfolding free_slot take_slot
allocate_stack bitmap size =
    if not (size == kernel_stack_size)
    then (none, bitmap)
    else take_slot bitmap (free_slot bitmap stack_slots 0)

unfoldable pub free_stack : ℕ → Option ℕ → ℕ
free_stack bitmap none = bitmap
free_stack bitmap (some slot) = if leb stack_slots slot then bitmap else bit_or bitmap (2 ^ slot)

unfoldable pub process_init : Kernel → Kernel
process_init k = record k {
  sched = record k.sched { procs = replicate max_processes blank_process };
  next_pid = 1;
  process_count = 0;
  stack_free_bitmap = u16_mod - 1;
}

-- The words pushed one after the other below `top`: the last address and the memory.
abbrev pub push_words : List ℕ → ℕ → (ℕ → ℕ) → ℕ × (ℕ → ℕ)
push_words [] top mem = (top, mem)
push_words (word ∷ words) top mem = push_words words (top - 4) (write_word mem (top - 4) word)

-- The first frame of a process, from its top.
abbrev pub user_frame : ℕ → List ℕ
user_frame entry = 35 ∷ user_stack_top ∷ 514 ∷ 27 ∷ entry ∷ replicate 8 0

abbrev pub kernel_frame : ℕ → List ℕ
kernel_frame entry = entry ∷ replicate 4 0

abbrev pub preemptive_frame : ℕ → List ℕ
preemptive_frame entry = 514 ∷ 8 ∷ entry ∷ 16 ∷ 16 ∷ 16 ∷ 16 ∷ replicate 8 0

abbrev pub is_dead : Process → Bool
is_dead p = state_eq p.state dead

-- The fields that a new process gets before its stack.
pub prepared : Process → ℕ → ℕ → Bool → Process
unfolding process_clear_test_markers process_signal_init process_fd_table_init
prepared p pid cr3 framed =
    process_fd_table_init (record (process_signal_init (process_clear_test_markers p)) {
      pid = pid;
      state = ready;
      cr3 = cr3;
      interrupt_frame = framed;
      priority = process_default_priority;
      dynamic_priority = process_default_priority;
      run_count = 0;
      parent_pid = 0;
      exit_code = 0;
      exited = false;
      waited = false;
      waiting_for_child = false;
      wait_target_pid = 0;
      wait_status_ptr = 0;
      wait_result_status = 0;
      wait_completion_pending = false;
      wait_is_waitpid = false;
      block_reason = block_none;
      blocked_fd = negsuc 0;
      blocked_buffer = 0;
      blocked_count = 0;
      heap_start = process_heap_start;
      heap_end = process_heap_start;
    })

module _ (stack_pool : ℕ) where
  -- The address behind the last word of a stack.
  abbrev pub stack_top : ℕ → ℕ
  stack_top slot = stack_pool + slot * kernel_stack_size + kernel_stack_size

  -- The end of `process_create`: with the stack that was found, or with none.
  finish_create : Kernel → ℕ → ℕ → List ℕ → Option ℕ → Option ℕ × Kernel
  finish_create k i entry frame none = (
    none,
    write_process k i (record (process k i) { kernel_stack = none; state = dead; pid = 0 }),
  )
  finish_create k i entry frame (some slot) =
      let (top, mem) = push_words frame (stack_top slot) k.mem in
      let k' =
        write_process k i
          (record (process k i) { kernel_stack = some slot; esp = top; ebp = 0; eip = entry }) in
      (some i, record k' { mem = mem; process_count = add32 k.process_count 1 })

  create_in : Kernel → Option ℕ → ℕ → Bool → List ℕ → Option ℕ × Kernel
  unfolding prepared allocate_stack finish_create
  create_in k none entry framed frame = (none, k)
  create_in k (some i) entry framed frame =
      let k1 =
        write_process k i (prepared (process k i) k.next_pid k.sched.active_directory framed) in
      let (stack, bitmap) = allocate_stack k.stack_free_bitmap kernel_stack_size in
      finish_create (record k1 { next_pid = add32 k.next_pid 1; stack_free_bitmap = bitmap }) i
        entry frame stack

  unfoldable pub process_create : Kernel → ℕ → Bool → Option ℕ × Kernel
  unfolding create_in
  process_create k entry is_user =
      if leb max_processes k.process_count
      then (none, k)
      else create_in k (search is_dead k.sched.procs) entry false
          (if is_user then user_frame entry else kernel_frame entry)

  unfoldable pub process_create_preemptive : Kernel → ℕ → Option ℕ × Kernel
  unfolding create_in
  process_create_preemptive k entry =
      if leb max_processes k.process_count
      then (none, k)
      else create_in k (search is_dead k.sched.procs) entry true (preemptive_frame entry)

-- The fields of a slot that `process_destroy` leaves.
pub destroyed : Process → Process
unfolding process_clear_test_markers process_signal_init process_fd_table_init
destroyed p = process_fd_table_init (record (process_signal_init (process_clear_test_markers p)) {
  state = dead;
  pid = 0;
  kernel_stack = none;
  esp = 0;
  ebp = 0;
  eip = 0;
  cr3 = 0;
  interrupt_frame = false;
  priority = 0;
  dynamic_priority = 0;
  run_count = 0;
  parent_pid = 0;
  exit_code = 0;
  exited = false;
  waited = false;
  waiting_for_child = false;
  wait_status_ptr = 0;
  wait_result_status = 0;
  wait_completion_pending = false;
  wait_target_pid = 0;
  block_reason = block_none;
  blocked_fd = negsuc 0;
  blocked_buffer = 0;
  blocked_count = 0;
  heap_start = 0;
  heap_end = 0;
  user_stack = 0;
  next = none;
})

pub record Paging (P : Type 0) : Type 0 where
  pub paging_clone_directory : ℕ → P → ℕ × P
  pub paging_destroy_address_space : ℕ → P → P

-- Where `struct interrupt_frame` has its fields, and its size.
abbrev pub frame_size : ℕ
frame_size = 68

-- `memcpy` of `n` words.
abbrev pub copy_words : ℕ → (ℕ → ℕ) → ℕ → ℕ → ℕ → ℕ
copy_words zero mem dest source = mem
copy_words (suc n) mem dest source =
    copy_words n (write_word mem dest (mem source)) (dest + 4) (source + 4)

module _ {P : Type 0} (paging : Paging P) (stack_pool : ℕ) where
  unfoldable pub process_destroy : Kernel → P → ℕ → Kernel × P
  unfolding destroyed free_stack
  process_destroy k pages i =
      if state_eq (process k i).state dead
      then (k, pages)
      else let k1 = process_fd_close_all k i in
        let p = process k1 i in
        let k2 = write_process k1 i (destroyed p) in
        (
          record k2 {
            stack_free_bitmap = free_stack k1.stack_free_bitmap p.kernel_stack;
            process_count = if k1.process_count == 0 then 0 else k1.process_count - 1;
          },
          paging.paging_destroy_address_space p.cr3 pages,
        )

  -- The frame of the child: the parent's, with eax 0 and interrupts on.
  abbrev pub fork_frame : (ℕ → ℕ) → ℕ → ℕ → ℕ → ℕ
  fork_frame mem esp parent_frame =
      let mem1 = copy_words 17 mem esp parent_frame in
      let mem2 = write_word mem1 (esp + 28) 0 in
      write_word mem2 (esp + 56) (bit_or (mem2 (esp + 56)) 512)

  -- The fields of the child behind its stack and its directory.
  abbrev pub forked : Process → Process → ℕ → ℕ → ℕ → (ℕ → ℕ) → Process
  forked child parent pid cr3 esp mem = record child {
    pid = pid;
    esp = esp;
    ebp = mem (esp + 8);
    eip = mem (esp + 48);
    cr3 = cr3;
    interrupt_frame = true;
    priority = parent.priority;
    dynamic_priority = parent.priority;
    run_count = 0;
    test_marker_permissions = parent.test_marker_permissions;
    state = ready;
    user_stack = mem (esp + 60);
    parent_pid = parent.pid;
    block_reason = block_none;
    blocked_fd = negsuc 0;
    pending_signals = 0;
    killed_by_signal = 0;
    heap_start = parent.heap_start;
    heap_end = parent.heap_end;
    next = none;
  }

  -- The end of `process_fork`, behind `process_fd_inherit`.
  finish_fork : ℤ × Kernel → P → ℕ → ℕ → ℕ → ℕ → Option ℕ × Kernel × P
  unfolding free_stack
  finish_fork (status, k) pages parent child cr3 slot =
      if succeeded status
      then (
        some child,
        record (write_process k parent (record (process k parent) { interrupt_frame = true })) {
          process_count = add32 k.process_count 1;
        },
        pages,
      )
      else (
        none,
        record (write_process k child blank_process) {
          stack_free_bitmap = free_stack k.stack_free_bitmap (some slot);
        },
        paging.paging_destroy_address_space cr3 pages,
      )

  fork_with : Kernel → P → ℕ → ℕ → ℕ → ℕ → ℕ × P → Option ℕ × Kernel × P
  unfolding free_stack finish_fork
  fork_with k pages parent parent_frame child slot (cr3, pages') =
      if cr3 == 0
      then (
        none,
        record (write_process k child blank_process) {
          stack_free_bitmap = free_stack k.stack_free_bitmap (some slot);
        },
        pages',
      )
      else let esp = stack_top stack_pool slot - frame_size in
        let mem = fork_frame k.mem esp parent_frame in
        let k1 =
          write_process k child
            (forked (process k child) (process k parent) k.next_pid cr3 esp mem) in
        finish_fork
          (process_fd_inherit (record k1 { mem = mem; next_pid = add32 k.next_pid 1 }) child parent)
          pages' parent child cr3 slot

  fork_stack : Kernel → P → ℕ → ℕ → ℕ → Option ℕ → Option ℕ × Kernel × P
  unfolding fork_with
  fork_stack k pages parent parent_frame child none = (none, k, pages)
  fork_stack k pages parent parent_frame child (some slot) =
      fork_with (write_process k child (record (process k child) { kernel_stack = some slot }))
        pages parent parent_frame child slot
        (paging.paging_clone_directory (process k parent).cr3 pages)

  fork_in : Kernel → P → ℕ → ℕ → Option ℕ → Option ℕ × Kernel × P
  unfolding fork_stack process_fd_table_init allocate_stack
  fork_in k pages parent parent_frame none = (none, k, pages)
  fork_in k pages parent parent_frame (some child) =
      let (stack, bitmap) = allocate_stack k.stack_free_bitmap kernel_stack_size in
      fork_stack
        (record (write_process k child (process_fd_table_init blank_process)) {
          stack_free_bitmap = bitmap;
        })
        pages parent parent_frame child stack

  -- `parent_frame` is an address, 0 for NULL; `cs` is its word 13.
  unfoldable pub process_fork : Kernel → P → ℕ → ℕ → Option ℕ × Kernel × P
  unfolding fork_in
  process_fork k pages parent parent_frame =
      if parent_frame == 0
        || not (bit_and (k.mem (parent_frame + 52)) 3 == 3)
        || (process k parent).cr3 == 0
        || leb max_processes k.process_count
      then (none, k, pages)
      else fork_in k pages parent parent_frame (search is_dead k.sched.procs)
