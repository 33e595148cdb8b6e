-- ===== src/Scheduler/Range.antt =====
-- The priorities that kernel/scheduler.c keeps in the process table.
use agentic_os_harness.Common.{
  ℕ, zero, suc, ◌≤◌, sym, subst, Option, none, some, List, arith, ltb, if◌then◌else◌, length, set,
  All, All-set, All-get_or, Bool-cases, inl, inr, if_rule,
}
use agentic_os_harness.Process.Types.{
  Process, blank_process, ready, running, state_eq, process_max_priority,
}
use agentic_os_harness.Scheduler.{
  Sched, proc_at, write_proc, aged, age_from, age_ready_queue, queued, started, start, enqueue,
  link_last, last_from, unlink, unlink_best, dequeue_best, bypass, points_to, before_from,
  requeue_current, schedule_next, scheduler_schedule, find_best_ready,
}
use agentic_os_harness.Scheduler.Start.{switch_address_space-SameQueue}
use agentic_os_harness.Common.{
  All, All-set, All-get_or, if_rule, set, length, Option, some, none, sym, subst,
}
use agentic_os_harness.Process.Types.{
  Process, blank_process, ready, running, state_eq, process_max_priority,
}
use agentic_os_harness.Scheduler.{
  Sched, write_proc, aged, age_from, age_ready_queue, queued, started, start, enqueue, link_last,
  last_from, unlink, unlink_best, dequeue_best, bypass, points_to, before_from, requeue_current,
  schedule_next, scheduler_schedule, find_best_ready,
}

-- Both priorities of a process are in the range that the kernel sets.
abbrev pub InRange : Process → Type 0
InRange p = (p.priority ≤ process_max_priority) × (p.dynamic_priority ≤ process_max_priority)

pub blank-InRange : InRange blank_process
unfolding blank_process
blank-InRange = (omega arith, omega arith)

pub proc-InRange : (ps : List Process) (i : ℕ) → All InRange ps → InRange (proc_at ps i)
proc-InRange ps i a = All-get_or InRange ps i blank_process blank-InRange a

bypass-InRange :
    (s : Sched) (o : Option ℕ) (b : ℕ) → All InRange s.procs → All InRange (bypass s o b).procs
bypass-InRange s none b a = a
bypass-InRange s (some p) b a = All-set InRange s.procs p _ (proc-InRange s.procs p a) a

unlink-InRange : (s : Sched) (b : ℕ) → All InRange s.procs → All InRange (unlink s b).procs
unfolding unlink
unlink-InRange s b a =
    let u : Sched =
      if points_to s.ready_queue b
      then record s { ready_queue = (proc_at s.procs b).next }
      else bypass s (before_from (length s.procs) s.procs s.ready_queue b) b in
    let v : All InRange u.procs =
      if_rule (λ (r : Sched). All InRange r.procs) (points_to s.ready_queue b) _ _ (λ e. a)
        (λ e. bypass-InRange s (before_from (length s.procs) s.procs s.ready_queue b) b a) in
    All-set InRange u.procs b _ (proc-InRange u.procs b v) v

queued-InRange : (p : Process) → InRange p → InRange (queued p)
queued-InRange p h = (h.0, ground (arith, h))

link_last-InRange :
    (s : Sched) (h : Option ℕ) (i : ℕ) → All InRange s.procs → All InRange (link_last s h i).procs
unfolding link_last
link_last-InRange s none i a = a
link_last-InRange s (some h) i a =
    let last = last_from (length s.procs) s.procs h in
    All-set InRange s.procs last _ (proc-InRange s.procs last a) a

pub enqueue-InRange : (s : Sched) (i : ℕ) → All InRange s.procs → All InRange (enqueue s i).procs
unfolding enqueue
enqueue-InRange s i a =
    link_last-InRange (write_proc s i (queued (proc_at s.procs i))) s.ready_queue i (
      All-set InRange s.procs i _ (queued-InRange (proc_at s.procs i) (proc-InRange s.procs i a)) a)

requeue_current-InRange :
    (s : Sched) (o : Option ℕ) → All InRange s.procs → All InRange (requeue_current s o).procs
unfolding requeue_current
requeue_current-InRange s none a = a
requeue_current-InRange s (some c) a =
    let p = record (proc_at s.procs c) { state = ready } in
    if_rule (λ (r : Sched). All InRange r.procs) (state_eq (proc_at s.procs c).state running)
      (enqueue (write_proc s c p) c) s
      (λ e.
        enqueue-InRange (write_proc s c p) c
          (All-set InRange s.procs c p (proc-InRange s.procs c a) a))
      (λ e. a)

aged-InRange : (p : Process) → InRange p → InRange (aged p)
aged-InRange p h = elim (Bool-cases (ltb p.dynamic_priority process_max_priority)) [
  | inl less ↦ rw less (h.0, ground (arith, less))
  | inr same ↦ rw same h
]

age_from-InRange :
    (fuel : ℕ) (ps : List Process) (o : Option ℕ)
    → All InRange ps
    → All InRange (age_from fuel ps o)
unfolding age_from
age_from-InRange zero ps o a = a
age_from-InRange (suc fuel) ps none a = a
age_from-InRange (suc fuel) ps (some p) a =
    age_from-InRange fuel (set ps p (aged (proc_at ps p))) (proc_at ps p).next
      (All-set InRange ps p _ (aged-InRange (proc_at ps p) (proc-InRange ps p a)) a)

started-InRange : (p : Process) → InRange p → InRange (started p)
started-InRange p h = (h.0, ground (arith, h))

start-InRange : (s : Sched) (i : ℕ) → All InRange s.procs → All InRange (start s i).procs
unfolding start age_ready_queue
start-InRange s i a =
    let s1 = age_ready_queue s in
    let b = age_from-InRange (length s.procs) s.procs s.ready_queue a in
    let s2 = record (write_proc s1 i (started (proc_at s1.procs i))) { current = some i } in
    let c =
      All-set InRange s1.procs i _
        (started-InRange (proc_at s1.procs i) (proc-InRange s1.procs i b)) b in
    subst (All InRange) (sym (switch_address_space-SameQueue s2 i).same_procs) c

schedule_next-InRange :
    (s : Sched) (o : Option ℕ)
    → All InRange s.procs
    → All InRange (schedule_next (unlink_best s o)).procs
unfolding schedule_next unlink_best
schedule_next-InRange s none a = a
schedule_next-InRange s (some b) a =
    let u = unlink s b in
    start-InRange (requeue_current u u.current) b
      (requeue_current-InRange u u.current (unlink-InRange s b a))

-- A step of the scheduler keeps the priorities in their range.
pub scheduler_schedule-InRange :
    (s : Sched) → All InRange s.procs → All InRange (scheduler_schedule s).procs
unfolding scheduler_schedule dequeue_best
scheduler_schedule-InRange s a = schedule_next-InRange s (find_best_ready s) a
