-- ===== src/Process/Fd/CloseAll.antt =====
-- `process_fd_close_all` of kernel/process.c.
use agentic_os_harness.Common.{
  ℕ, zero, suc, ◌+◌, ◌<◌, ◌≡◌, refl, ap, sym, subst, ◌∙◌, true, false, not, ◌||◌, Option, none,
  some, List, [], ◌∷◌, arith, leb, ◌==◌, if◌then◌else◌, length, length-set, Bool-cases, inl, inr,
  ◌⊎◌, if_rule, ℤ, pos, is_negative,
}
use agentic_os_harness.Process.Types.{
  Process, ProcessFd, FdKind, BlockReason, fd_none, kind_eq, process_max_fds, max_processes,
}
use agentic_os_harness.Pipe.{Pipe}
use agentic_os_harness.Pipe.World.{pipe_close-keeps}
use agentic_os_harness.Scheduler.{Sched, proc_at}
use agentic_os_harness.Scheduler.Wake.{scheduler_wake-length}
use agentic_os_harness.Process.Fd.{
  Kernel, process, write_process, fd_at, wake_from, waits_on, process_wake_pipe_waiter, close_pipe,
  close_handle, close_entry, process_fd_close, process_fd_get, close_all_from, process_fd_close_all,
  is_pipe_kind,
}
use agentic_os_harness.Process.Fd.Release.{fds_of, without, process_fd_close-Closed, get-without}
use agentic_os_harness.Common.{refl}

wake_from-length :
    (n i : ℕ) (pipes : List Pipe) (index : ℕ) (reason : BlockReason) (s : Sched)
    → length (wake_from n i pipes index reason s).procs ≡ length s.procs
unfolding wake_from
wake_from-length zero i pipes index reason s = refl
wake_from-length (suc n) i pipes index reason s =
    elim (Bool-cases (waits_on pipes (proc_at s.procs i) index reason)) [
      | inl waits ↦ rw (waits, wake_from) (scheduler_wake-length s i)
      | inr passes ↦ rw (passes, wake_from) (wake_from-length n (i + 1) pipes index reason s)
    ]

close_handle-length :
    (k : Kernel) (kind : FdKind) (handle : ℤ)
    → length (close_handle k kind handle).1.sched.procs ≡ length k.sched.procs
unfolding close_handle close_pipe process_wake_pipe_waiter
close_handle-length k kind handle =
    if_rule (λ (r : ℤ × Kernel). length r.1.sched.procs ≡ length k.sched.procs) (is_pipe_kind kind)
      _ _
      (λ e.
        pipe_close-keeps process_wake_pipe_waiter (λ s. length s.procs ≡ length k.sched.procs)
          (λ pipes i reason w h. wake_from-length max_processes 0 pipes i reason w ∙ h) k.pipes
          handle k.sched refl)
      (λ e. refl)

close_entry-length :
    (k : Kernel) (i : ℕ) (fd : ℤ) (o : Option (FdKind × ℤ))
    → length (close_entry k i fd o).1.sched.procs ≡ length k.sched.procs
unfolding close_entry
close_entry-length k i fd none = refl
close_entry-length k i fd (some (kind, handle)) =
    close_handle-length (write_process k i _) kind handle ∙ length-set k.sched.procs i _

pub process_fd_close-length :
    (k : Kernel) (i : ℕ) (fd : ℤ)
    → length (process_fd_close k i fd).1.sched.procs ≡ length k.sched.procs
unfolding process_fd_close
process_fd_close-length k i fd = close_entry-length k i fd (process_fd_get (process k i) fd)

-- An open entry has a handle that is not negative, as `process_fd_install_typed` demands.
abbrev pub IsFdTable : List ProcessFd → Type 0
IsFdTable fds =
    (fd : ℕ)
    → kind_eq (fd_at fds fd).kind fd_none ≡ false
    → is_negative (fd_at fds fd).handle ≡ false

without-kind :
    (fds : List ProcessFd) (fd j : ℕ)
    → (kind_eq (fd_at (without fds fd) j).kind fd_none ≡ true)
      ⊎ (fd_at (without fds fd) j ≡ fd_at fds j)
without-kind [] fd j = inr refl
without-kind (x ∷ fds) zero zero = inl refl
without-kind (x ∷ fds) zero (suc j) = inr refl
without-kind (x ∷ fds) (suc fd) zero = inr refl
without-kind (x ∷ fds) (suc fd) (suc j) = without-kind fds fd j

without-IsFdTable : (fds : List ProcessFd) (fd : ℕ) → IsFdTable fds → IsFdTable (without fds fd)
without-IsFdTable fds fd v j e = elim (without-kind fds fd j) [
  | inl gone ↦ absurd (cc)
  | inr same ↦
      ap (λ (x : ProcessFd). is_negative x.handle) same
      ∙ v j (ap (λ (x : ProcessFd). kind_eq x.kind fd_none) (sym same) ∙ e)
]

get-open :
    (p : Process) (fd : ℕ)
    → IsFdTable p.fds
    → fd < process_max_fds
    → kind_eq (fd_at p.fds fd).kind fd_none ≡ false
    → process_fd_get p (pos fd) ≡ some ((fd_at p.fds fd).kind, (fd_at p.fds fd).handle)
unfolding process_fd_get
get-open p fd v h e =
    let shown : (leb process_max_fds fd
          || kind_eq (fd_at p.fds fd).kind fd_none
          || is_negative (fd_at p.fds fd).handle)
        ≡ false =
      ground (arith, e, v fd e) in
    ap (λ b. if b then none else some ((fd_at p.fds fd).kind, (fd_at p.fds fd).handle)) shown

-- A kernel where the descriptors of `i` below `fd` are closed.
record Below (k : Kernel) (i fd : ℕ) : Type 0 where
  pub inside : i < length k.sched.procs
  pub valid : IsFdTable (fds_of k.sched i)
  pub closed : (j : ℕ) → j < fd → kind_eq (fd_at (fds_of k.sched i) j).kind fd_none ≡ true

Below-close :
    (k : Kernel) (i fd : ℕ)
    → fd < process_max_fds
    → Below k i fd
    → kind_eq (fd_at (fds_of k.sched i) fd).kind fd_none ≡ false
    → Below (process_fd_close k i (pos fd)).1 i (fd + 1)
Below-close k i fd h b e =
    let c = (process_fd_close-Closed k i fd b.inside).0 _ (get-open (process k i) fd b.valid h e) in
    record {
      inside = omega (arith, b.inside, process_fd_close-length k i (pos fd));
      valid =
          subst (λ fds. IsFdTable fds) (sym c.own)
            (without-IsFdTable (fds_of k.sched i) fd b.valid);
      closed = λ j l.
          subst (λ fds. kind_eq (fd_at fds j).kind fd_none ≡ true) (sym c.own)
            (elim (without-kind (fds_of k.sched i) fd j) [
              | inl gone ↦ gone
              | inr same ↦ elim (Bool-cases (fd == j)) [
                | inl here ↦
                    let at : fd ≡ j = ground arith in
                    subst
                      (λ m. kind_eq (fd_at (without (fds_of k.sched i) fd) m).kind fd_none ≡ true)
                      at (get-without (fds_of k.sched i) fd)
                | inr other ↦
                    ap (λ (x : ProcessFd). kind_eq x.kind fd_none) same ∙ b.closed j (ground arith)
              ]
            ]);
    }

close_all_from-Below :
    (n fd : ℕ) (k : Kernel) (i : ℕ)
    → fd + n ≡ process_max_fds
    → Below k i fd
    → Below (close_all_from n fd k i) i process_max_fds
unfolding close_all_from
close_all_from-Below zero fd k i e b = subst (λ m. Below k i m) (omega (arith, e)) b
close_all_from-Below (suc n) fd k i e b = close_all_from-Below n (fd + 1) _ i (omega (arith, e)) (
    if_rule (λ (r : Kernel). Below r i (fd + 1))
      (not (kind_eq (fd_at (fds_of k.sched i) fd).kind fd_none)) _ k
      (λ o. Below-close k i fd (omega (arith, e)) b (ground arith))
      (λ o. record {
        inside = b.inside;
        valid = b.valid;
        closed = λ j l. elim (Bool-cases (fd == j)) [
          | inl here ↦
              let at : fd ≡ j = ground arith in
              subst (λ m. kind_eq (fd_at (fds_of k.sched i) m).kind fd_none ≡ true) at
                (ground arith)
          | inr other ↦ b.closed j (ground arith)
        ];
      }))

-- `process_fd_close_all` leaves no descriptor of the process open, where every open entry has a
-- handle that is not negative.
pub process_fd_close_all-closed :
    (k : Kernel) (i : ℕ)
    → i < length k.sched.procs
    → IsFdTable (fds_of k.sched i)
    → (fd : ℕ) → fd < process_max_fds
    → kind_eq (fd_at (fds_of (process_fd_close_all k i).sched i) fd).kind fd_none ≡ true
unfolding process_fd_close_all
process_fd_close_all-closed k i inside v fd h =
    (close_all_from-Below process_max_fds 0 k i refl
        (record { inside = inside; valid = v; closed = λ j l. absurd (omega arith) })).closed
      fd h

close_all_from-length :
    (n fd : ℕ) (k : Kernel) (i : ℕ)
    → length (close_all_from n fd k i).sched.procs ≡ length k.sched.procs
unfolding close_all_from
close_all_from-length zero fd k i = refl
close_all_from-length (suc n) fd k i =
    close_all_from-length n (fd + 1) _ i
    ∙ if_rule (λ (r : Kernel). length r.sched.procs ≡ length k.sched.procs)
        (not (kind_eq (fd_at (process k i).fds fd).kind fd_none)) _ k
        (λ e. process_fd_close-length k i (pos fd)) (λ e. refl)

pub process_fd_close_all-length :
    (k : Kernel) (i : ℕ) → length (process_fd_close_all k i).sched.procs ≡ length k.sched.procs
unfolding process_fd_close_all
process_fd_close_all-length k i = close_all_from-length process_max_fds 0 k i
