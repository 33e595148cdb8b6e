-- ===== src/Scheduler.antt =====
-- kernel/scheduler.c: the ready queue, a list linked through the `next` fields of the process table,
-- and the choice of the next process. A pointer to a process is its slot in the table. Each public
-- function runs with interrupts off, so it is one step. A walk along the queue has as many rounds as
-- the table has slots; a queue without a cycle is never longer. `paging_switch_directory` and
-- `tss_set_kernel_stack` are the two fields that they write.
pub mod Queue
pub mod Walk
pub mod Refine
pub mod Choice
pub mod Start
pub mod Wake
pub mod Schedule
pub mod Range
pub mod Fairness
mod Tests
use agentic_os_harness.Common.{
  ℕ, zero, suc, ◌+◌, ◌-◌, ◌%◌, Bool, true, false, not, ◌&&◌, ◌||◌, Option, none, some, List, [],
  ◌∷◌, ltb, leb, ◌==◌, if◌then◌else◌, get_or, set, length, replicate, add32, ℤ, negsuc,
}
use agentic_os_harness.Process.Types.{
  Process, ProcessState, ready, running, blocked, zombie, dead, state_eq, process_default_priority,
  process_max_priority, blank_process,
}

-- The static variables of scheduler.c, the process table, the active page directory and the kernel
-- stack of the task state segment.
pub record Sched : Type 0 where
  pub procs : List Process
  pub ready_queue : Option ℕ
  pub current : Option ℕ
  pub schedule_count : ℕ
  pub initialized : Bool
  pub preemption_enabled : Bool
  pub active_directory : ℕ
  pub tss_stack : Option ℕ

abbrev pub proc_at : List Process → ℕ → Process
proc_at procs i = get_or procs i blank_process

abbrev pub write_proc : Sched → ℕ → Process → Sched
write_proc s i p = record s { procs = set s.procs i p }

-- `paging_switch_directory`, where the process has a directory that is not the active one
abbrev pub load_directory : Sched → ℕ → Sched
load_directory s cr3 =
    if not (cr3 == 0) && not (cr3 == s.active_directory)
    then record s { active_directory = cr3 - cr3 % 4096 }
    else s

-- `tss_set_kernel_stack`
abbrev pub load_stack : Sched → Option ℕ → Sched
load_stack s none = s
load_stack s (some stack) = record s { tss_stack = some stack }

pub switch_address_space : Sched → ℕ → Sched
switch_address_space s i =
    load_stack (load_directory s (proc_at s.procs i).cr3) (proc_at s.procs i).kernel_stack

-- `proc->priority ? proc->priority : PROCESS_DEFAULT_PRIORITY`
abbrev pub base_priority : Process → ℕ
base_priority p = if p.priority == 0 then process_default_priority else p.priority

-- `while (p->next) p = p->next;`
pub last_from : ℕ → List Process → ℕ → ℕ
last_from zero procs p = p
last_from (suc fuel) procs p = elim (proc_at procs p).next [
  | none ↦ p
  | some q ↦ last_from fuel procs q
]

-- What `enqueue` writes to the process itself.
abbrev pub queued : Process → Process
queued p = record p {
  next = none;
  dynamic_priority = if p.dynamic_priority == 0 then base_priority p else p.dynamic_priority;
}

link_last : Sched → Option ℕ → ℕ → Sched
unfolding last_from
link_last s none i = record s { ready_queue = some i }
link_last s (some head) i =
    let last = last_from (length s.procs) s.procs head in
    write_proc s last (record (proc_at s.procs last) { next = some i })

pub enqueue : Sched → ℕ → Sched
unfolding link_last
enqueue s i = link_last (write_proc s i (queued (proc_at s.procs i))) s.ready_queue i

-- The loop of `find_best_ready`.
pub best_from : ℕ → List Process → ℕ → Option ℕ → ℕ
best_from zero procs best proc = best
best_from (suc fuel) procs best none = best
best_from (suc fuel) procs best (some p) =
    best_from fuel procs
      (if ltb (proc_at procs best).dynamic_priority (proc_at procs p).dynamic_priority
        then p
        else best)
      (proc_at procs p).next

pub best_ready : List Process → Option ℕ → Option ℕ
unfolding best_from
best_ready procs none = none
best_ready procs (some head) = some (best_from (length procs) procs head (some head))

pub find_best_ready : Sched → Option ℕ
unfolding best_ready
find_best_ready s = best_ready s.procs s.ready_queue

abbrev pub points_to : Option ℕ → ℕ → Bool
points_to none i = false
points_to (some j) i = j == i

-- `while (prev && prev->next != best) prev = prev->next;`
pub before_from : ℕ → List Process → Option ℕ → ℕ → Option ℕ
before_from zero procs prev best = none
before_from (suc fuel) procs none best = none
before_from (suc fuel) procs (some p) best = elim (points_to (proc_at procs p).next best) [
  | true ↦ some p
  | false ↦ before_from fuel procs (proc_at procs p).next best
]

-- `prev->next = best->next`, if there is a `prev`
abbrev pub bypass : Sched → Option ℕ → ℕ → Sched
bypass s none best = s
bypass s (some prev) best =
    write_proc s prev (record (proc_at s.procs prev) { next = (proc_at s.procs best).next })

-- Takes `best` out of the queue.
pub unlink : Sched → ℕ → Sched
unfolding before_from
unlink s best =
    let s' =
      if points_to s.ready_queue best
      then record s { ready_queue = (proc_at s.procs best).next }
      else bypass s (before_from (length s.procs) s.procs s.ready_queue best) best in
    write_proc s' best (record (proc_at s'.procs best) { next = none })

pub unlink_best : Sched → Option ℕ → Option ℕ × Sched
unfolding unlink
unlink_best s none = (none, s)
unlink_best s (some best) = (some best, unlink s best)

pub dequeue_best : Sched → Option ℕ × Sched
unfolding unlink_best find_best_ready
dequeue_best s = unlink_best s (find_best_ready s)

-- What `age_ready_queue` writes to each process of the queue.
abbrev pub aged : Process → Process
aged p =
    if ltb p.dynamic_priority process_max_priority
    then record p { dynamic_priority = p.dynamic_priority + 1 }
    else p

pub age_from : ℕ → List Process → Option ℕ → List Process
age_from zero procs proc = procs
age_from (suc fuel) procs none = procs
age_from (suc fuel) procs (some p) =
    age_from fuel (set procs p (aged (proc_at procs p))) (proc_at procs p).next

pub age_ready_queue : Sched → Sched
unfolding age_from
age_ready_queue s = record s { procs = age_from (length s.procs) s.procs s.ready_queue }

-- What the scheduler writes to the process that it starts.
abbrev pub started : Process → Process
started p = record p {
  dynamic_priority = base_priority p;
  state = running;
  run_count = add32 p.run_count 1;
}

-- From `age_ready_queue()` on, in `scheduler_schedule_locked` and in `scheduler_stop_current_locked`.
pub start : Sched → ℕ → Sched
unfolding age_ready_queue switch_address_space
start s i =
    let s1 = age_ready_queue s in
    let s2 = record (write_proc s1 i (started (proc_at s1.procs i))) { current = some i } in
    let s3 = switch_address_space s2 i in record s3 { schedule_count = add32 s3.schedule_count 1 }

-- The running process goes back to the queue.
pub requeue_current : Sched → Option ℕ → Sched
unfolding enqueue
requeue_current s none = s
requeue_current s (some c) =
    if state_eq (proc_at s.procs c).state running
    then enqueue (write_proc s c (record (proc_at s.procs c) { state = ready })) c
    else s

pub schedule_next : Option ℕ × Sched → Sched
unfolding requeue_current start
schedule_next (none, s) = s
schedule_next (some next, s) = start (requeue_current s s.current) next

unfoldable pub scheduler_schedule : Sched → Sched
unfolding dequeue_best schedule_next
scheduler_schedule s = schedule_next (dequeue_best s)

unfoldable pub scheduler_init : Sched → Sched
scheduler_init s = record s {
  ready_queue = none;
  current = none;
  schedule_count = 0;
  initialized = true;
  preemption_enabled = false;
}

unfoldable pub scheduler_add : Sched → ℕ → Sched
unfolding enqueue
scheduler_add s i = enqueue s i

-- Whether a process may be resumed from an interrupt frame.
abbrev pub resumable : List Process → Option ℕ → Bool
resumable procs none = false
resumable procs (some i) = (proc_at procs i).interrupt_frame && not ((proc_at procs i).esp == 0)

abbrev pub esp_of : List Process → Option ℕ → ℕ
esp_of procs none = 0
esp_of procs (some i) = (proc_at procs i).esp

abbrev pub has_frame : List Process → Option ℕ → Bool
has_frame procs none = false
has_frame procs (some i) = (proc_at procs i).interrupt_frame

-- `current->esp = interrupted_esp`
pub save_esp : Sched → Option ℕ → ℕ → Sched
save_esp s none esp = s
save_esp s (some c) esp = write_proc s c (record (proc_at s.procs c) { esp = esp })

abbrev pub is_none : Option ℕ → Bool
is_none none = true
is_none (some i) = false

unfoldable pub scheduler_preempt : Sched → ℕ → ℕ × Sched
unfolding save_esp find_best_ready scheduler_schedule
scheduler_preempt s esp =
    if not s.initialized || not s.preemption_enabled || is_none s.ready_queue
    then (esp, s)
    else if not (is_none s.current) && not (has_frame s.procs s.current)
    then (esp, s)
    else let s1 = save_esp s s.current esp in
      if not (has_frame s1.procs (find_best_ready s1))
      then (esp, s1)
      else let s2 = scheduler_schedule s1 in
        if not (resumable s2.procs s2.current) then (esp, s2) else (esp_of s2.procs s2.current, s2)

-- The process that stops, as `scheduler_stop_current_locked` leaves it.
abbrev pub stopped : Process → ℕ → ProcessState → Process
stopped p esp state = record p { esp = esp; interrupt_frame = true; state = state }

-- `if (next) enqueue(next);`
pub put_back : Sched → Option ℕ → Sched
unfolding enqueue
put_back s none = s
put_back s (some next) = enqueue s next

-- `scheduler_stop_current_locked` behind the call of `dequeue_best`.
stop_with : Option ℕ × Sched → ℕ → ℕ → Bool → ℕ × Sched
unfolding put_back start
stop_with (next, s) c esp resume =
    if resumable s.procs next
    then (esp_of s.procs next, elim next [ none ↦ s | some i ↦ start s i ])
    else let s' = put_back s next in
      if resume
      then (esp, write_proc s' c (record (proc_at s'.procs c) { state = running }))
      else (0, s')

pub stop_current : Sched → Option ℕ → ℕ → ProcessState → Bool → ℕ × Sched
unfolding stop_with dequeue_best
stop_current s none esp state resume = (0, s)
stop_current s (some c) esp state resume =
    if esp == 0
    then (0, s)
    else stop_with (dequeue_best (write_proc s c (stopped (proc_at s.procs c) esp state))) c esp
        resume

unfoldable pub scheduler_block_current : Sched → ℕ → ℕ × Sched
unfolding stop_current
scheduler_block_current s esp = stop_current s s.current esp blocked true

unfoldable pub scheduler_exit_current : Sched → ℕ → ℕ × Sched
unfolding stop_current
scheduler_exit_current s esp = stop_current s s.current esp zombie false

unfoldable pub scheduler_set_preemption_enabled : Sched → Bool → Sched
scheduler_set_preemption_enabled s enabled = record s { preemption_enabled = enabled }

unfoldable pub scheduler_set_priority : Sched → ℕ → ℕ → Sched
scheduler_set_priority s i priority =
    let p = if priority == 0 then process_default_priority else priority in
    let p' = if ltb process_max_priority p then process_max_priority else p in
    write_proc s i (record (proc_at s.procs i) { priority = p'; dynamic_priority = p' })

unfoldable pub scheduler_set_current : Sched → Option ℕ → Sched
unfolding switch_address_space
scheduler_set_current s none = record s { current = none }
scheduler_set_current s (some i) =
    switch_address_space
      (write_proc (record s { current = some i }) i
        (record (proc_at s.procs i) { state = running }))
      i

-- The loop of `scheduler_remove`: `prev` is the item before `item`.
pub remove_from : ℕ → Sched → Option ℕ → Option ℕ → ℕ → Sched
remove_from zero s prev item i = s
remove_from (suc fuel) s prev none i = s
remove_from (suc fuel) s prev (some item) i = elim (item == i) [
  | true ↦
      (let rest = (proc_at s.procs item).next in
        let s' =
          let unlinked : Sched = elim prev [
            | none ↦ record s { ready_queue = rest }
            | some p ↦ write_proc s p (record (proc_at s.procs p) { next = rest })
          ] in
          unlinked in
        write_proc s' item (record (proc_at s'.procs item) { next = none }))
  | false ↦ remove_from fuel s (some item) (proc_at s.procs item).next i
]

unfoldable pub scheduler_remove : Sched → ℕ → Sched
unfolding remove_from
scheduler_remove s i = remove_from (length s.procs) s none s.ready_queue i

unfoldable pub scheduler_wake : Sched → ℕ → Sched
unfolding enqueue
scheduler_wake s i =
    if state_eq (proc_at s.procs i).state blocked
    then enqueue (write_proc s i (record (proc_at s.procs i) { state = ready })) i
    else s

-- `yield` behind its guards: the two processes that `context_switch` is called for.
switched : List Process → Option ℕ → Option ℕ → Option (ℕ × ℕ)
switched procs (some prev) (some now) =
    if not (prev == now) && state_eq (proc_at procs prev).state ready
    then some (prev, now)
    else none
switched procs _ _ = none

unfoldable pub yield : Sched → Option (ℕ × ℕ) × Sched
unfolding scheduler_schedule switched
yield s =
    if not s.initialized
    then (none, s)
    else if has_frame s.procs s.current
    then (none, s)
    else let s' = scheduler_schedule s in (switched s'.procs s.current s'.current, s')
