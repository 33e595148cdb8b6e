-- ===== src/Process/Exit/Orphans.antt =====
-- What `process_mark_exit` of kernel/process.c leaves of the process and of its children.
use agentic_os_harness.Common.{
  ℕ, zero, suc, ◌+◌, ◌≤◌, ◌<◌, ◌≡◌, ◌≢◌, refl, ap, sym, subst, ◌∙◌, Bool, true, false, not, ◌&&◌,
  ◌||◌, Option, none, some, List, arith, ◌==◌, if◌then◌else◌, length, length-set, set, get_or-set,
  get_or-set_ne, Bool-cases, inl, inr, if_rule, ℤ,
}
use agentic_os_harness.Process.Types.{
  Process, ProcessFd, ready, blocked, dead, zombie, state_eq, kind_eq, fd_none, max_processes,
  process_max_fds, blank_process,
}
use agentic_os_harness.Scheduler.{proc_at, scheduler_remove}
use agentic_os_harness.Scheduler.Choice.{field-set}
use agentic_os_harness.Scheduler.Wake.{
  scheduler_wake-same, scheduler_remove-same, scheduler_remove-length,
}
use agentic_os_harness.Scheduler.Refine.{proc_at-set_self}
use agentic_os_harness.Process.Fd.{Kernel, process, write_process, process_fd_close_all, fd_at}
use agentic_os_harness.Process.Fd.CloseAll.{
  IsFdTable, process_fd_close_all-closed, process_fd_close_all-length,
}
use agentic_os_harness.Process.Fd.Same.{process_fd_close_all-same}
use agentic_os_harness.Process.Lookup.{process_get_by_pid}
use agentic_os_harness.Process.Wait.{process_send_signal, sigchld, signal_valid}
use agentic_os_harness.Process.Exit.{
  orphaned, orphan_from, waits_for, completed, notify, tell_parent, exited_kernel, encoded_status,
  process_mark_exit, stored_exit_code, write_word, eax_at,
}
use agentic_os_harness.Process.Types.{ProcessState, running, block_none}

-- The fields that the parent's part of an exit leaves alone.
abbrev View : Type 0
View = Bool × Bool × ℕ × Bool × List ProcessFd

abbrev view : Process → View
view p = (state_eq p.state dead, state_eq p.state zombie, p.parent_pid, p.exited, p.fds)

woken-view :
    (p : Process) → state_eq p.state blocked ≡ true → view (record p { state = ready }) ≡ view p
woken-view p e = go p.state e
  where
    go :
        (x : ProcessState)
        → state_eq x blocked ≡ true
        → view (record p { state = ready }) ≡ view (record p { state = x })
    go blocked e = refl
    go dead e = absurd (cc)
    go ready e = absurd (cc)
    go running e = absurd (cc)
    go zombie e = absurd (cc)

send-view : (p : Process) (signum : ℕ) → view (process_send_signal p signum).1 ≡ view p
unfolding process_send_signal
send-view p signum =
    if_rule (λ (r : ℤ × Process). view r.1 ≡ view p)
      (not (signal_valid signum) || state_eq p.state dead || state_eq p.state zombie) _ _
      (λ e. refl) (λ e. refl)

write-view :
    (k : Kernel) (i j : ℕ) (p : Process)
    → view p ≡ view (process k i)
    → view (process (write_process k i p) j) ≡ view (process k j)
write-view k i j p e = field-set view k.sched.procs i j p e

notify-view :
    (k : Kernel) (i m status j : ℕ) → view (process (notify k i m status) j) ≡ view (process k j)
unfolding notify
notify-view k i m status j =
    let k1 = write_process k m (process_send_signal (process k m) sigchld).1 in
    let sent : view (process k1 j) ≡ view (process k j) =
      write-view k m j (process_send_signal (process k m) sigchld).1
        (send-view (process k m) sigchld) in
    let parent = process k1 m in
    let p = process k1 i in
    let done = completed parent (if parent.wait_is_waitpid then status else p.exit_code) in
    let k2 = write_process k1 m done in
    let k3 : Kernel =
      if parent.esp == 0
      then k2
      else record k2 { mem = write_word k2.mem (eax_at parent.esp) p.pid } in
    let same3 : view (process k3 j) ≡ view (process k2 j) =
      if_rule (λ (r : Kernel). view (process r j) ≡ view (process k2 j)) (parent.esp == 0) k2 _
        (λ e. refl) (λ e. refl) in
    let k4 = write_process k3 i (record (process k3 i) { waited = true }) in
    if_rule (λ (r : Kernel). view (process r j) ≡ view (process k j)) (waits_for parent p) _ k1
      (λ e.
        scheduler_wake-same view (λ p n. refl) (λ p n. refl) woken-view k4.sched m j
        ∙ write-view k3 i j (record (process k3 i) { waited = true }) refl
        ∙ same3
        ∙ write-view k1 m j done refl
        ∙ sent)
      (λ e. sent)

tell_parent-view :
    (k : Kernel) (i status : ℕ) (o : Option ℕ) (j : ℕ)
    → view (process (tell_parent k i status o) j) ≡ view (process k j)
unfolding tell_parent
tell_parent-view k i status none j = write-view k i j (record (process k i) { waited = true }) refl
tell_parent-view k i status (some m) j =
    if_rule (λ (r : Kernel). view (process r j) ≡ view (process k j))
      (state_eq (process k m).state zombie) _ _
      (λ e. write-view k i j (record (process k i) { waited = true }) refl)
      (λ e. notify-view k i m status j)

orphan_from-before :
    (n i : ℕ) (procs : List Process) (pid j : ℕ)
    → j < i
    → proc_at (orphan_from n i procs pid) j ≡ proc_at procs j
unfolding orphan_from
orphan_from-before zero i procs pid j h = refl
orphan_from-before (suc n) i procs pid j h =
    orphan_from-before n (i + 1) _ pid j (omega arith)
    ∙ get_or-set_ne procs i j _ blank_process (λ e. omega (arith, e))

-- Every slot of the loop is treated once.
orphan_from-at :
    (n i : ℕ) (procs : List Process) (pid j : ℕ)
    → i ≤ j
    → j < i + n
    → j < length procs
    → proc_at (orphan_from n i procs pid) j ≡ orphaned pid (proc_at procs j)
unfolding orphan_from
orphan_from-at zero i procs pid j a b l = absurd (omega arith)
orphan_from-at (suc n) i procs pid j a b l = elim (Bool-cases (i == j)) [
  | inl here ↦
      let same : i ≡ j = ground arith in
      let p = orphaned pid (proc_at procs i) in
      let self : proc_at (set procs i p) i ≡ p =
        ground (arith, get_or-set procs i i p blank_process (omega arith)) in
      subst
        (λ m.
          proc_at (orphan_from n (i + 1) (set procs i p) pid) m ≡ orphaned pid (proc_at procs m))
        same (orphan_from-before n (i + 1) (set procs i p) pid i (omega arith) ∙ self)
  | inr later ↦
      let p = orphaned pid (proc_at procs i) in
      orphan_from-at n (i + 1) (set procs i p) pid j (ground arith) (omega arith)
        (omega (arith, length-set procs i p))
      ∙ ap (orphaned pid) (get_or-set_ne procs i j p blank_process (λ e. ground arith))
]

abbrev kept : Process → Bool × Bool × List ProcessFd
kept p = (state_eq p.state zombie, p.exited, p.fds)

orphaned-kept : (pid : ℕ) (p : Process) → kept (orphaned pid p) ≡ kept p
orphaned-kept pid p =
    if_rule (λ (r : Process). kept r ≡ kept p) (not (state_eq p.state dead) && p.parent_pid == pid)
      _ p
      (λ e.
        if_rule (λ (r : Process). kept r ≡ kept p) (state_eq p.state zombie) _ _ (λ z. refl)
          (λ z. refl))
      (λ e. refl)

orphaned-parent :
    (pid : ℕ) (p : Process)
    → pid ≢ 0
    → state_eq (orphaned pid p).state dead ≡ false
    → (orphaned pid p).parent_pid ≢ pid
orphaned-parent pid p n =
    if_rule (λ (r : Process). state_eq r.state dead ≡ false → r.parent_pid ≢ pid)
      (not (state_eq p.state dead) && p.parent_pid == pid) _ p
      (λ e.
        if_rule (λ (r : Process). state_eq r.state dead ≡ false → r.parent_pid ≢ pid)
          (state_eq p.state zombie) _ _ (λ z d q. n (sym q)) (λ z d q. n (sym q)))
      (λ e d q. ground arith)

-- The exit of slot `i`, as the kernel is left.
pub record Exited (k : Kernel) (i : ℕ) (after : Kernel) : Type 0 where
  pub is_zombie : state_eq (process after i).state zombie ≡ true
  pub has_exited : (process after i).exited ≡ true
  pub closed :
      (fd : ℕ) → fd < process_max_fds → kind_eq (fd_at (process after i).fds fd).kind fd_none ≡ true
  pub orphans :
      (j : ℕ)
      → j < max_processes
      → state_eq (process after j).state dead ≡ false
      → (process after j).parent_pid ≢ (process k i).pid

-- The kernel behind the first part of an exit.
record Ended (k : Kernel) (i : ℕ) (after : Kernel) : Type 0 where
  pub size : length after.sched.procs ≡ length k.sched.procs
  pub same_pid : (process after i).pid ≡ (process k i).pid
  pub core : (state_eq (process after i).state zombie ≡ true) × ((process after i).exited ≡ true)
  pub no_fds :
      (fd : ℕ) → fd < process_max_fds → kind_eq (fd_at (process after i).fds fd).kind fd_none ≡ true

exited_kernel-Ended :
    (k : Kernel) (i code : ℕ)
    → i < length k.sched.procs
    → IsFdTable (process k i).fds
    → Ended k i (exited_kernel k i code)
unfolding exited_kernel
exited_kernel-Ended k i code inside v =
    let k1 : Kernel = record k { sched = scheduler_remove k.sched i } in
    let len1 = scheduler_remove-length k.sched i in
    let fds1 = scheduler_remove-same (λ (p : Process). p.fds) (λ p n. refl) k.sched i i in
    let pid1 = scheduler_remove-same (λ (p : Process). p.pid) (λ p n. refl) k.sched i i in
    let p2 = record (process k1 i) { exit_code = stored_exit_code code; exited = true } in
    let k2 = write_process k1 i p2 in
    let self2 : process k2 i ≡ p2 = proc_at-set_self k1.sched.procs i p2 (omega (arith, len1)) in
    let len2 : length k2.sched.procs ≡ length k.sched.procs =
      length-set k1.sched.procs i p2 ∙ len1 in
    let v2 : IsFdTable (process k2 i).fds =
      subst (λ fds. IsFdTable fds) (sym (ap (λ (p : Process). p.fds) self2 ∙ fds1)) v in
    let k3 = process_fd_close_all k2 i in
    let len3 = process_fd_close_all-length k2 i ∙ len2 in
    let p4 = record (process k3 i) { state = zombie; block_reason = block_none } in
    let self4 : process (write_process k3 i p4) i ≡ p4 =
      proc_at-set_self k3.sched.procs i p4 (omega (arith, len3)) in
    let exited3 =
      process_fd_close_all-same (λ (p : Process). p.exited) (λ p n. refl) (λ p n. refl)
        (λ p e. refl) (λ p t. refl) k2 i i in
    let pid3 =
      process_fd_close_all-same (λ (p : Process). p.pid) (λ p n. refl) (λ p n. refl) (λ p e. refl)
        (λ p t. refl) k2 i i in
    record {
      size = length-set k3.sched.procs i p4 ∙ len3;
      same_pid =
          ap (λ (p : Process). p.pid) self4 ∙ pid3 ∙ ap (λ (p : Process). p.pid) self2 ∙ pid1;
      core = (
        ap (λ (p : Process). state_eq p.state zombie) self4,
        ap (λ (p : Process). p.exited) self4 ∙ exited3 ∙ ap (λ (p : Process). p.exited) self2,
      );
      no_fds = λ fd h.
          ap (λ (p : Process). kind_eq (fd_at p.fds fd).kind fd_none) self4
          ∙ process_fd_close_all-closed k2 i (omega (arith, len2)) v2 fd h;
    }

abbrev orphaned_kernel : Kernel → ℕ → Kernel
orphaned_kernel k i = record k {
  sched = record k.sched { procs = orphan_from max_processes 0 k.sched.procs (process k i).pid };
}

tell_parent-Exited :
    (k k1 : Kernel) (i : ℕ)
    → Ended k i k1
    → length k.sched.procs ≡ max_processes
    → i < max_processes
    → (process k i).pid ≢ 0
    → (status : ℕ) (o : Option ℕ) → Exited k i (tell_parent (orphaned_kernel k1 i) i status o)
tell_parent-Exited k k1 i d size inside known status o =
    let pid = (process k1 i).pid in
    let k2 = orphaned_kernel k1 i in
    let after = tell_parent k2 i status o in
    let told : (j : ℕ) → view (process after j) ≡ view (process k2 j) =
      λ j. tell_parent-view k2 i status o j in
    let treated : (j : ℕ) → j < max_processes → process k2 j ≡ orphaned pid (process k1 j) = λ j h.
      orphan_from-at max_processes 0 k1.sched.procs pid j (omega arith) (omega arith)
        (omega (arith, d.size, size)) in
    let own : kept (process after i) ≡ kept (process k1 i) =
      ap (λ (x : View). (x.1, x.3, x.4)) (told i)
      ∙ ap kept (treated i inside)
      ∙ orphaned-kept pid (process k1 i) in
    record {
      is_zombie = ap (λ (x : Bool × Bool × List ProcessFd). x.0) own ∙ d.core.0;
      has_exited = ap (λ (x : Bool × Bool × List ProcessFd). x.1) own ∙ d.core.1;
      closed = λ fd h.
          ap (λ (x : Bool × Bool × List ProcessFd). kind_eq (fd_at x.2 fd).kind fd_none) own
          ∙ d.no_fds fd h;
      orphans = λ j h alive same.
          let t : view (process after j) ≡ view (orphaned pid (process k1 j)) =
            told j ∙ ap view (treated j h) in
          orphaned-parent pid (process k1 j) (λ z. known (sym d.same_pid ∙ z))
            (ap (λ (x : View). x.0) (sym t) ∙ alive)
            (ap (λ (x : View). x.2) (sym t) ∙ same ∙ sym d.same_pid);
    }

-- Where the table has 16 slots, a live process that has a process identifier and valid descriptors
-- ends as a zombie that has exited, has no open descriptor, and is the parent of no process that is
-- left.
pub process_mark_exit-Exited :
    (k : Kernel) (i code : ℕ)
    → length k.sched.procs ≡ max_processes
    → i < max_processes
    → state_eq (process k i).state dead ≡ false
    → state_eq (process k i).state zombie ≡ false
    → (process k i).pid ≢ 0
    → IsFdTable (process k i).fds
    → Exited k i (process_mark_exit k i code)
unfolding process_mark_exit
process_mark_exit-Exited k i code size inside alive active known v =
    if_rule (λ (r : Kernel). Exited k i r)
      (state_eq (process k i).state dead || state_eq (process k i).state zombie) k _
      (λ e. absurd (ground arith))
      (λ e.
        let k1 = exited_kernel k i code in
        tell_parent-Exited k k1 i (exited_kernel-Ended k i code (omega (arith, size)) v) size inside
          known (encoded_status (process k1 i))
          (process_get_by_pid (orphan_from max_processes 0 k1.sched.procs (process k1 i).pid)
            (process (orphaned_kernel k1 i) i).parent_pid))
