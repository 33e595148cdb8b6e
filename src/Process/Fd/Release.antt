-- ===== src/Process/Fd/Release.antt =====
-- Closing descriptors in kernel/process.c.
use agentic_os_harness.Common.{
  ℕ, zero, suc, ◌+◌, ◌<◌, ◌≡◌, ◌≢◌, refl, ap, ◌∙◌, true, Option, none, some, List, [], ◌∷◌, arith,
  length, set, get_or-set, get_or-set_ne, Bool-cases, inl, inr, if_rule, ℤ, pos,
}
use agentic_os_harness.Process.Types.{
  Process, ProcessFd, FdKind, BlockReason, fd_none, kind_eq, max_processes, blank_process,
}
use agentic_os_harness.Pipe.{Pipe}
use agentic_os_harness.Pipe.World.{pipe_close-keeps}
use agentic_os_harness.Vfs.{vfs_ebadf}
use agentic_os_harness.Scheduler.{Sched, proc_at}
use agentic_os_harness.Scheduler.Wake.{scheduler_wake-same}
use agentic_os_harness.Process.Fd.{
  Kernel, process, write_process, closed_fd, fd_at, wake_from, waits_on, process_wake_pipe_waiter,
  close_pipe, close_handle, close_entry, process_fd_close, process_fd_get, is_pipe_kind,
}

abbrev pub fds_of : Sched → ℕ → List ProcessFd
fds_of s j = (proc_at s.procs j).fds

wake_from-fds :
    (n i : ℕ) (pipes : List Pipe) (index : ℕ) (reason : BlockReason) (s : Sched) (j : ℕ)
    → fds_of (wake_from n i pipes index reason s) j ≡ fds_of s j
unfolding wake_from
wake_from-fds zero i pipes index reason s j = refl
wake_from-fds (suc n) i pipes index reason s j =
    elim (Bool-cases (waits_on pipes (proc_at s.procs i) index reason)) [
      | inl waits ↦
          rw (waits, wake_from)
            (scheduler_wake-same (λ (p : Process). p.fds) (λ p x. refl) (λ p x. refl) (λ p e. refl)
              s i j)
      | inr passes ↦ rw (passes, wake_from) (wake_from-fds n (i + 1) pipes index reason s j)
    ]

close_pipe-fds :
    (k : Kernel) (handle : ℤ) (j : ℕ) → fds_of (close_pipe k handle).1.sched j ≡ fds_of k.sched j
unfolding close_pipe process_wake_pipe_waiter
close_pipe-fds k handle j =
    pipe_close-keeps process_wake_pipe_waiter (λ s. fds_of s j ≡ fds_of k.sched j)
      (λ pipes i reason w h. wake_from-fds max_processes 0 pipes i reason w j ∙ h) k.pipes handle
      k.sched refl

-- What lies behind a handle is released without a change to any descriptor table.
close_handle-fds :
    (k : Kernel) (kind : FdKind) (handle : ℤ) (j : ℕ)
    → fds_of (close_handle k kind handle).1.sched j ≡ fds_of k.sched j
unfolding close_handle
close_handle-fds k kind handle j =
    if_rule (λ (r : ℤ × Kernel). fds_of r.1.sched j ≡ fds_of k.sched j) (is_pipe_kind kind) _ _
      (λ e. close_pipe-fds k handle j) (λ e. refl)

-- The descriptor table with entry `fd` cleared.
abbrev pub without : List ProcessFd → ℕ → List ProcessFd
without fds fd = set fds fd closed_fd

close_entry-fds :
    (k : Kernel) (i fd : ℕ) (e : FdKind × ℤ)
    → i < length k.sched.procs
    → fds_of (close_entry k i (pos fd) (some e)).1.sched i ≡ without (fds_of k.sched i) fd
unfolding close_entry
close_entry-fds k i fd (kind, handle) inside =
    let p = record (process k i) { fds = without (fds_of k.sched i) fd } in
    let self : proc_at (set k.sched.procs i p) i ≡ p =
      ground (arith, get_or-set k.sched.procs i i p blank_process inside) in
    close_handle-fds (write_process k i p) kind handle i ∙ ap (λ (x : Process). x.fds) self

close_entry-others :
    (k : Kernel) (i j fd : ℕ) (o : Option (FdKind × ℤ))
    → i ≢ j
    → fds_of (close_entry k i (pos fd) o).1.sched j ≡ fds_of k.sched j
unfolding close_entry
close_entry-others k i j fd none n = refl
close_entry-others k i j fd (some (kind, handle)) n =
    let p = record (process k i) { fds = without (fds_of k.sched i) fd } in
    close_handle-fds (write_process k i p) kind handle j
    ∙ ap (λ (x : Process). x.fds) (get_or-set_ne k.sched.procs i j p blank_process n)

-- What `process_fd_close` leaves of the descriptor tables.
pub record Closed (k : Kernel) (i fd : ℕ) (after : Kernel) : Type 0 where
  pub own : fds_of after.sched i ≡ without (fds_of k.sched i) fd
  pub others : (j : ℕ) → i ≢ j → fds_of after.sched j ≡ fds_of k.sched j
  pub gone : process_fd_get (process after i) (pos fd) ≡ none

pub get-without :
    (fds : List ProcessFd) (fd : ℕ) → kind_eq (fd_at (without fds fd) fd).kind fd_none ≡ true
get-without [] fd = refl
get-without (x ∷ fds) zero = refl
get-without (x ∷ fds) (suc fd) = get-without fds fd

get-kind :
    (p : Process) (fd : ℕ)
    → kind_eq (fd_at p.fds fd).kind fd_none ≡ true
    → process_fd_get p (pos fd) ≡ none
unfolding process_fd_get
get-kind p fd e = ground (arith, e)

-- Closing a descriptor that `process_fd_get` finds clears its entry, so that it is found no more, and
-- changes no other descriptor of any process; closing another one answers EBADF and changes nothing.
pub process_fd_close-Closed :
    (k : Kernel) (i fd : ℕ)
    → i < length k.sched.procs
    → ((e : FdKind × ℤ)
        → process_fd_get (process k i) (pos fd) ≡ some e
        → Closed k i fd (process_fd_close k i (pos fd)).1)
      × (process_fd_get (process k i) (pos fd) ≡ none
          → process_fd_close k i (pos fd) ≡ (vfs_ebadf, k))
unfolding process_fd_close close_entry
process_fd_close-Closed k i fd inside = (
  λ e h.
      let own : fds_of (process_fd_close k i (pos fd)).1.sched i ≡ without (fds_of k.sched i) fd =
        ap (λ o. fds_of (close_entry k i (pos fd) o).1.sched i) h
        ∙ close_entry-fds k i fd e inside in
      record {
        own = own;
        others = λ j n. close_entry-others k i j fd (process_fd_get (process k i) (pos fd)) n;
        gone = get-kind (process (process_fd_close k i (pos fd)).1 i) fd (
            ap (λ fds. kind_eq (fd_at fds fd).kind fd_none) own
            ∙ get-without (fds_of k.sched i) fd);
      },
  λ h. ap (close_entry k i (pos fd)) h,
)
