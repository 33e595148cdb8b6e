-- ===== src/Process/Fd/Same.antt =====
-- The fields of the process table that `process_fd_close_all` of kernel/process.c leaves alone.
use agentic_os_harness.Common.{
  ℕ, zero, suc, ◌+◌, ◌≡◌, refl, ◌∙◌, true, not, Option, none, some, List, Bool-cases, inl, inr,
  if_rule, ℤ, pos,
}
use agentic_os_harness.Process.Types.{
  Process, ProcessFd, FdKind, BlockReason, ready, blocked, state_eq, max_processes, process_max_fds,
  kind_eq, fd_none,
}
use agentic_os_harness.Pipe.{Pipe}
use agentic_os_harness.Pipe.World.{pipe_close-keeps}
use agentic_os_harness.Scheduler.{Sched, proc_at}
use agentic_os_harness.Scheduler.Choice.{field-set}
use agentic_os_harness.Scheduler.Wake.{scheduler_wake-same}
use agentic_os_harness.Process.Fd.{
  Kernel, process, write_process, fd_at, wake_from, waits_on, process_wake_pipe_waiter, close_pipe,
  close_handle, close_entry, process_fd_close, process_fd_get, close_all_from, process_fd_close_all,
  is_pipe_kind,
}

module _ {A : Type 0} (f : Process → A)
    (next : (p : Process) (n : Option ℕ) → f (record p { next = n }) ≡ f p)
    (dynamic : (p : Process) (n : ℕ) → f (record p { dynamic_priority = n }) ≡ f p)
    (woken : (p : Process) → state_eq p.state blocked ≡ true → f (record p { state = ready }) ≡ f p)
    (table : (p : Process) (fds : List ProcessFd) → f (record p { fds = fds }) ≡ f p) where
  wake_from-same :
      (n i : ℕ) (pipes : List Pipe) (index : ℕ) (reason : BlockReason) (s : Sched) (j : ℕ)
      → f (proc_at (wake_from n i pipes index reason s).procs j) ≡ f (proc_at s.procs j)
  unfolding wake_from
  wake_from-same zero i pipes index reason s j = refl
  wake_from-same (suc n) i pipes index reason s j =
      elim (Bool-cases (waits_on pipes (proc_at s.procs i) index reason)) [
        | inl waits ↦ rw (waits, wake_from) (scheduler_wake-same f next dynamic woken s i j)
        | inr passes ↦ rw (passes, wake_from) (wake_from-same n (i + 1) pipes index reason s j)
      ]

  close_handle-same :
      (k : Kernel) (kind : FdKind) (handle : ℤ) (j : ℕ)
      → f (process (close_handle k kind handle).1 j) ≡ f (process k j)
  unfolding close_handle close_pipe process_wake_pipe_waiter
  close_handle-same k kind handle j =
      if_rule (λ (r : ℤ × Kernel). f (process r.1 j) ≡ f (process k j)) (is_pipe_kind kind) _ _
        (λ e.
          pipe_close-keeps process_wake_pipe_waiter (λ s. f (proc_at s.procs j) ≡ f (process k j))
            (λ pipes i reason w h. wake_from-same max_processes 0 pipes i reason w j ∙ h) k.pipes
            handle k.sched refl)
        (λ e. refl)

  close_entry-same :
      (k : Kernel) (i : ℕ) (fd : ℤ) (o : Option (FdKind × ℤ)) (j : ℕ)
      → f (process (close_entry k i fd o).1 j) ≡ f (process k j)
  unfolding close_entry
  close_entry-same k i fd none j = refl
  close_entry-same k i fd (some (kind, handle)) j =
      close_handle-same (write_process k i _) kind handle j
      ∙ field-set f k.sched.procs i j _ (table _ _)

  pub process_fd_close-same :
      (k : Kernel) (i : ℕ) (fd : ℤ) (j : ℕ)
      → f (process (process_fd_close k i fd).1 j) ≡ f (process k j)
  unfolding process_fd_close
  process_fd_close-same k i fd j = close_entry-same k i fd (process_fd_get (process k i) fd) j

  close_all_from-same :
      (n fd : ℕ) (k : Kernel) (i j : ℕ) → f (process (close_all_from n fd k i) j) ≡ f (process k j)
  unfolding close_all_from
  close_all_from-same zero fd k i j = refl
  close_all_from-same (suc n) fd k i j =
      close_all_from-same n (fd + 1) _ i j
      ∙ if_rule (λ (r : Kernel). f (process r j) ≡ f (process k j))
          (not (kind_eq (fd_at (process k i).fds fd).kind fd_none)) _ k
          (λ e. process_fd_close-same k i (pos fd) j) (λ e. refl)

  -- Closing every descriptor changes states, queue links and descriptors only.
  pub process_fd_close_all-same :
      (k : Kernel) (i j : ℕ) → f (process (process_fd_close_all k i) j) ≡ f (process k j)
  unfolding process_fd_close_all
  process_fd_close_all-same k i j = close_all_from-same process_max_fds 0 k i j
