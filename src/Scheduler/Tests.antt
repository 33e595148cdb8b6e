-- ===== src/Scheduler/Tests.antt =====
-- Runs of kernel/scheduler.c on a small table.
use agentic_os_harness.Common.{
  ℕ, ◌<◌, refl, true, false, none, [], ◌∷◌, arith, length, length-replicate, replicate,
}
use agentic_os_harness.Process.Types.{blank_process}
use agentic_os_harness.Scheduler.{Sched, enqueue, scheduler_schedule}
use agentic_os_harness.Scheduler.Refine.{Holds, enqueue-Holds}
use agentic_os_harness.Scheduler.Schedule.{Schedules, scheduler_schedule-Schedules, enqueue-length}
use agentic_os_harness.Common.{All, All-replicate, ◌+◌, ◌-◌}
use agentic_os_harness.Scheduler.Range.{InRange, enqueue-InRange, blank-InRange}
use agentic_os_harness.Scheduler.Choice.{prio}
use agentic_os_harness.Scheduler.Fairness.{position, StartsWithin, scheduler_schedule-StartsWithin}

abbrev idle : Sched
idle = record {
  procs = replicate 16 blank_process;
  ready_queue = none;
  current = none;
  schedule_count = 0;
  initialized = true;
  preemption_enabled = false;
  active_directory = 4096;
  tss_stack = none;
}

idle-Holds : Holds idle []
idle-Holds = record { chain = refl; distinct = tt }

inside : (i : ℕ) → i < 16 → i < length idle.procs
inside i h = omega (arith, length-replicate 16 blank_process)

enqueue-Holds_example : Holds (enqueue idle 3) (3 ∷ [])
enqueue-Holds_example = enqueue-Holds idle 3 [] idle-Holds refl (inside 3 (omega arith))

two-Holds : Holds (enqueue (enqueue idle 3) 5) (3 ∷ 5 ∷ [])
two-Holds =
    enqueue-Holds (enqueue idle 3) 5 (3 ∷ []) enqueue-Holds_example refl
      (omega (arith, enqueue-length idle 3, inside 5 (omega arith)))

scheduler_schedule-Schedules_example :
    Schedules
      (enqueue (enqueue idle 3) 5)
      (3 ∷ 5 ∷ [])
      (scheduler_schedule (enqueue (enqueue idle 3) 5))
unfolding enqueue
scheduler_schedule-Schedules_example =
    scheduler_schedule-Schedules (enqueue (enqueue idle 3) 5) (3 ∷ 5 ∷ []) two-Holds tt

two-InRange : All InRange (enqueue (enqueue idle 3) 5).procs
two-InRange =
    enqueue-InRange (enqueue idle 3) 5
      (enqueue-InRange idle 3 (All-replicate InRange 16 blank_process blank-InRange))

scheduler_schedule-StartsWithin_example :
    StartsWithin
      (16 - prio (enqueue (enqueue idle 3) 5).procs 5 + position 5 (3 ∷ 5 ∷ []) + 1)
      (enqueue (enqueue idle 3) 5)
      5
unfolding enqueue
scheduler_schedule-StartsWithin_example =
    scheduler_schedule-StartsWithin (enqueue (enqueue idle 3) 5) (3 ∷ 5 ∷ []) 5 two-Holds tt
      two-InRange refl
