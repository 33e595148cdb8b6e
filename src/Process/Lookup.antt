-- ===== src/Process/Lookup.antt =====
-- The searches of the process table in kernel/process.c: each returns the first slot that fits.
pub mod First
use agentic_os_harness.Common.{
  ℕ, zero, suc, ◌+◌, ◌-◌, Bool, true, false, not, ◌&&◌, ◌||◌, Option, none, some, List, ◌==◌,
  if◌then◌else◌, u32_mod,
}
use agentic_os_harness.Process.Types.{Process, dead, running, zombie, state_eq, max_processes}
use agentic_os_harness.Scheduler.{proc_at}

-- The loop of a search over `n` slots from `i` on.
unfoldable pub first_slot : (Process → Bool) → List Process → ℕ → ℕ → Option ℕ
first_slot fits procs zero i = none
first_slot fits procs (suc n) i = elim (fits (proc_at procs i)) [
  | true ↦ some i
  | false ↦ first_slot fits procs n (i + 1)
]

abbrev pub search : (Process → Bool) → List Process → Option ℕ
search fits procs = first_slot fits procs max_processes 0

-- `(uint32_t)-1`
abbrev pub any_pid : ℕ
any_pid = u32_mod - 1

unfoldable pub process_get_current : List Process → Option ℕ
unfolding first_slot
process_get_current procs = search (λ p. state_eq p.state running) procs

abbrev pub has_pid : ℕ → Process → Bool
has_pid pid p = p.pid == pid && not (state_eq p.state dead)

unfoldable pub process_get_by_pid : List Process → ℕ → Option ℕ
unfolding first_slot
process_get_by_pid procs pid = if pid == 0 then none else search (has_pid pid) procs

abbrev pub is_target : ℕ → Process → Bool
is_target target p = target == any_pid || p.pid == target

abbrev pub is_exited_child : ℕ → ℕ → Process → Bool
is_exited_child parent_pid target p =
    not (p.pid == 0)
    && p.parent_pid == parent_pid
    && state_eq p.state zombie
    && p.exited
    && not p.waited
    && is_target target p

unfoldable pub process_find_exited_child_by_pid : List Process → ℕ → ℕ → Option ℕ
unfolding first_slot
process_find_exited_child_by_pid procs parent_pid target =
    if parent_pid == 0 then none else search (is_exited_child parent_pid target) procs

unfoldable pub process_find_exited_child : List Process → ℕ → Option ℕ
unfolding process_find_exited_child_by_pid
process_find_exited_child procs parent_pid =
    process_find_exited_child_by_pid procs parent_pid any_pid

abbrev pub is_child : ℕ → ℕ → Process → Bool
is_child parent_pid target p =
    not (state_eq p.state dead) && p.parent_pid == parent_pid && not p.waited && is_target target p

abbrev pub found : Option ℕ → Bool
found none = false
found (some i) = true

unfoldable pub process_has_child_by_pid : List Process → ℕ → ℕ → Bool
unfolding first_slot
process_has_child_by_pid procs parent_pid target =
    if parent_pid == 0 then false else found (search (is_child parent_pid target) procs)

unfoldable pub process_has_child : List Process → ℕ → Bool
unfolding process_has_child_by_pid
process_has_child procs parent_pid = process_has_child_by_pid procs parent_pid any_pid

unfoldable pub process_has_exited_child : List Process → ℕ → Bool
unfolding process_find_exited_child
process_has_exited_child procs parent_pid = found (process_find_exited_child procs parent_pid)
