-- ===== src/Scheduler/Fairness.antt =====
-- Ageing in kernel/scheduler.c: a process that waits is started after a bounded number of steps.
use agentic_os_harness.Common.{
  ℕ, zero, suc, ◌+◌, ◌-◌, ◌≤◌, ◌<◌, ◌≡◌, ◌≢◌, refl, ap, sym, subst, ◌∙◌, true, false, some, List,
  [], ◌∷◌, ◌++◌, arith, ltb, ◌==◌, if◌then◌else◌, length, All, Bool-cases, inl, inr,
}
use agentic_os_harness.Process.Types.{Process, running, process_max_priority}
use agentic_os_harness.Scheduler.{Sched, proc_at, scheduler_schedule}
use agentic_os_harness.Scheduler.Queue.{member, erase}
use agentic_os_harness.Scheduler.Refine.{Holds}
use agentic_os_harness.Scheduler.Choice.{prio, Leads}
use agentic_os_harness.Scheduler.Schedule.{
  Outside, Scheduled, scheduler_schedule-Schedules, waiting_behind, member-in_table,
}
use agentic_os_harness.Common.{All, length, some, sym, subst}
use agentic_os_harness.Process.Types.{Process, running, process_max_priority}
use agentic_os_harness.Scheduler.{Sched, scheduler_schedule}
use agentic_os_harness.Scheduler.Range.{InRange, proc-InRange, scheduler_schedule-InRange}
use agentic_os_harness.Scheduler.Choice.{Leads-member}
use agentic_os_harness.Scheduler.Walk.{Chain-in_table}

-- Where a slot stands in the queue.
abbrev pub position : ℕ → List ℕ → ℕ
position i [] = 0
position i (x ∷ q) = if x == i then 0 else suc (position i q)

position-append : (i : ℕ) (q r : List ℕ) → member i q ≡ true → position i (q ++ r) ≡ position i q
position-append i [] r m = absurd (cc)
position-append i (x ∷ q) r m = ground (arith, position-append i q r)

position-erase : (i b : ℕ) (q : List ℕ) → i ≢ b → position i (erase b q) ≤ position i q
position-erase i b [] n = omega arith
position-erase i b (x ∷ q) n = ground (arith, position-erase i b q n)

member-erase_other :
    (i b : ℕ) (q : List ℕ) → i ≢ b → member i q ≡ true → member i (erase b q) ≡ true
member-erase_other i b [] n m = m
member-erase_other i b (x ∷ q) n m = ground (arith, member-erase_other i b q n)

member-append_left : (i : ℕ) (q r : List ℕ) → member i q ≡ true → member i (q ++ r) ≡ true
member-append_left i [] r m = absurd (cc)
member-append_left i (x ∷ q) r m = ground (arith, member-append_left i q r)

All-member : (P : ℕ → Type 0) (i : ℕ) (q : List ℕ) → All P q → member i q ≡ true → P i
All-member P i [] a m = absurd (cc)
All-member P i (x ∷ q) a m = elim (Bool-cases (x == i)) [
  | inl here ↦ subst P (ground arith) a.0
  | inr later ↦ All-member P i q a.1 (ground arith)
]

-- A process with the priority of the one that leads stands behind it.
position-Leads :
    (ps : List Process) (b i : ℕ) (q : List ℕ)
    → Leads ps b q
    → member i q ≡ true
    → i ≢ b
    → prio ps b ≤ prio ps i
    → position i (erase b q) < position i q
position-Leads ps b i [] l m n h = absurd l
position-Leads ps b i (x ∷ q) (inl a) m n h = ground (arith, a.0)
position-Leads ps b i (x ∷ q) (inr a) m n h = elim (Bool-cases (x == i)) [
  | inl here ↦
      let same : x ≡ i = ground arith in
      let lower : prio ps i < prio ps b = subst (λ y. prio ps y < prio ps b) same a.0 in
      absurd (omega (arith, lower, h))
  | inr later ↦
      let other : (x == b) ≡ false = elim (Bool-cases (x == b)) [
        | inl at_b ↦
            let same : x ≡ b = ground arith in
            let lower : prio ps b < prio ps b = subst (λ y. prio ps y < prio ps b) same a.0 in
            absurd (omega (arith, lower))
        | inr differs ↦ differs
      ] in
      rw (other, later) (omega (arith, position-Leads ps b i q a.1 (ground arith) n h))
]

-- `n` calls of `scheduler_schedule`.
unfoldable pub rounds : ℕ → Sched → Sched
rounds zero s = s
rounds (suc n) s = rounds n (scheduler_schedule s)

-- Within `bound` calls the process at slot `j` is the current one and runs.
pub record StartsWithin (bound : ℕ) (s : Sched) (j : ℕ) : Type 0 where
  pub count : ℕ
  pub soon : count ≤ bound
  pub now : (rounds count s).current ≡ some j
  pub runs : (proc_at (rounds count s).procs j).state ≡ running

-- The steps that a process may have to wait for: its priority rises, or it moves up.
abbrev pub patience : List Process → ℕ → List ℕ → ℕ
patience ps j q = process_max_priority - prio ps j + position j q

patience-falls :
    (s : Sched) (q : List ℕ) (j : ℕ) (r : Sched)
    → (t : Scheduled s q r) → All InRange s.procs
    → member j q ≡ true
    → j ≢ t.best
    → patience r.procs j (waiting_behind s t.best q) < patience s.procs j q
patience-falls s q j r t a m n =
    let inside = member-erase_other j t.best q n m in
    let old = t.older j inside in
    let top = (proc-InRange s.procs t.best a).1 in
    let place : position j (waiting_behind s t.best q) ≡ position j (erase t.best q) =
      position-append j (erase t.best q) _ inside in
    elim (Bool-cases (ltb (prio s.procs j) process_max_priority)) [
      | inl less ↦
          let rises : prio r.procs j ≡ prio s.procs j + 1 = old ∙ rw less refl in
          ground (arith, less, rises, place, position-erase j t.best q n)
      | inr full ↦
          let stays : prio r.procs j ≡ prio s.procs j = old ∙ rw full refl in
          let up = position-Leads s.procs t.best j q t.leads m n (ground (arith, full, top)) in
          omega (arith, stays, place, up)
    ]

-- The queue behind a step is again one that does not hold the current process.
Outside-step :
    (s : Sched) (q : List ℕ) (r : Sched)
    → Holds s q
    → (t : Scheduled s q r) → Outside r.procs (waiting_behind s t.best q) r.current
Outside-step s q r v t =
    let member_best = Leads-member s.procs t.best q t.leads in
    let room : t.best < length r.procs = omega (
      arith,
      t.size,
      member-in_table t.best (length s.procs) q (Chain-in_table s.procs s.ready_queue q v.chain)
          member_best,
    ) in
    subst (Outside r.procs (waiting_behind s t.best q)) (sym t.now) (room, t.apart)

starts_now :
    (fuel : ℕ) (s : Sched) (q : List ℕ) (j : ℕ)
    → (t : Scheduled s q (scheduler_schedule s)) → t.best ≡ j
    → StartsWithin (suc fuel) s j
unfolding rounds
starts_now fuel s q j t same = record {
  count = 1;
  soon = omega arith;
  now = t.now ∙ ap some same;
  runs = subst (λ i. (proc_at (scheduler_schedule s).procs i).state ≡ running) same t.runs;
}

starts_later :
    (fuel : ℕ) (s : Sched) (j : ℕ)
    → StartsWithin fuel (scheduler_schedule s) j
    → StartsWithin (suc fuel) s j
unfolding rounds
starts_later fuel s j k = record {
  count = suc k.count;
  soon = omega (arith, k.soon);
  now = k.now;
  runs = k.runs;
}

starts_within :
    (fuel : ℕ) (s : Sched) (q : List ℕ) (j : ℕ)
    → Holds s q
    → Outside s.procs q s.current
    → All InRange s.procs
    → member j q ≡ true
    → patience s.procs j q ≤ fuel
    → StartsWithin (suc fuel) s j
starts_within fuel s [] j v o a m h = absurd (cc)
starts_within zero s (x ∷ q) j v o a m h =
    let t = scheduler_schedule-Schedules s (x ∷ q) v o in
    elim (Bool-cases (t.best == j)) [
      | inl chosen ↦ starts_now 0 s (x ∷ q) j t (ground arith)
      | inr passed ↦ absurd (
          omega (
            arith,
            h,
            patience-falls s (x ∷ q) j (scheduler_schedule s) t a m (λ e. ground (arith, passed)),
          ))
    ]
starts_within (suc fuel) s (x ∷ q) j v o a m h =
    let t = scheduler_schedule-Schedules s (x ∷ q) v o in
    elim (Bool-cases (t.best == j)) [
      | inl chosen ↦ starts_now (suc fuel) s (x ∷ q) j t (ground arith)
      | inr passed ↦
          let n : j ≢ t.best = λ e. ground (arith, passed) in
          let r = scheduler_schedule s in
          let less = patience-falls s (x ∷ q) j r t a m n in
          starts_later (suc fuel) s j (
            starts_within fuel r (waiting_behind s t.best (x ∷ q)) j t.waiting
              (Outside-step s (x ∷ q) r v t) (scheduler_schedule-InRange s a)
              (member-append_left j (erase t.best (x ∷ q)) _
                (member-erase_other j t.best (x ∷ q) n m))
              (omega (arith, less, h)))
    ]

-- No process starves. From a queue of distinct processes that does not hold the current one, where all
-- priorities of the table are at most 16, calls of `scheduler_schedule` alone make each queued process
-- the current one and running after at most (16 - its dynamic priority) + its place in the queue + 1
-- of them.
pub scheduler_schedule-StartsWithin :
    (s : Sched) (q : List ℕ) (j : ℕ)
    → Holds s q
    → Outside s.procs q s.current
    → All InRange s.procs
    → member j q ≡ true
    → StartsWithin (16 - prio s.procs j + position j q + 1) s j
scheduler_schedule-StartsWithin s q j v o a m =
    subst (λ n. StartsWithin n s j) (omega arith)
      (starts_within (patience s.procs j q) s q j v o a m (omega arith))
