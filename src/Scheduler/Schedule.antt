-- ===== src/Scheduler/Schedule.antt =====
-- `scheduler_schedule` of kernel/scheduler.c as an operation of the queue.
use agentic_os_harness.Common.{
  ℕ, ◌<◌, ◌≡◌, ◌≢◌, refl, ap, ◌∙◌, true, false, Option, none, some, List, [], ◌∷◌, ◌++◌, arith,
  if◌then◌else◌, length, length-set, get_or-set_ne, Bool-cases, inl, inr, append-nil, if_rule,
}
use agentic_os_harness.Process.Types.{Process, blank_process, ready, running, state_eq}
use agentic_os_harness.Scheduler.{
  Sched, proc_at, write_proc, base_priority, aged, points_to, before_from, bypass, unlink, enqueue,
  link_last, requeue_current,
}
use agentic_os_harness.Scheduler.Queue.{
  member, Distinct, erase, member-append, member-erase, member-erase_self,
}
use agentic_os_harness.Scheduler.Walk.{Chain-set_outside}
use agentic_os_harness.Scheduler.Refine.{Holds, enqueue-Holds}
use agentic_os_harness.Scheduler.Choice.{prio, Leads, enqueue-keeps}
use agentic_os_harness.Common.{sym, subst}
use agentic_os_harness.Scheduler.{schedule_next, scheduler_schedule, dequeue_best, start}
use agentic_os_harness.Scheduler.Choice.{dequeue_best-Taken, Leads-member, unlink-keeps}
use agentic_os_harness.Scheduler.Start.{Started, start-Started}
use agentic_os_harness.Scheduler.Walk.{Chain-in_table}
use agentic_os_harness.Common.{All}
use agentic_os_harness.Scheduler.{unlink_best, best_ready, find_best_ready}
use agentic_os_harness.Scheduler.Choice.{Taken}

-- The running process that goes back to the end of the queue.
abbrev requeued : List Process → Option ℕ → List ℕ
requeued ps none = []
requeued ps (some c) = if state_eq (proc_at ps c).state running then c ∷ [] else []

-- The queue behind a step that starts `best`.
abbrev pub waiting_behind : Sched → ℕ → List ℕ → List ℕ
waiting_behind s best q = erase best q ++ requeued s.procs s.current

-- The current process is in the table and not in the queue.
abbrev pub Outside : List Process → List ℕ → Option ℕ → Type 0
Outside ps q none = Unit {0}
Outside ps q (some c) = (c < length ps) × (member c q ≡ false)

pub record Scheduled (s : Sched) (q : List ℕ) (r : Sched) : Type 0 where
  pub best : ℕ
  pub leads : Leads s.procs best q
  pub waiting : Holds r (waiting_behind s best q)
  pub now : r.current ≡ some best
  pub apart : member best (waiting_behind s best q) ≡ false
  pub size : length r.procs ≡ length s.procs
  pub runs : (proc_at r.procs best).state ≡ running
  pub fresh : prio r.procs best ≡ base_priority (proc_at s.procs best)
  pub older :
      (j : ℕ)
      → member j (erase best q) ≡ true
      → prio r.procs j ≡ (aged (proc_at s.procs j)).dynamic_priority

bypass-current : (s : Sched) (o : Option ℕ) (b : ℕ) → (bypass s o b).current ≡ s.current
bypass-current s none b = refl
bypass-current s (some p) b = refl

unlink-current : (s : Sched) (b : ℕ) → (unlink s b).current ≡ s.current
unfolding unlink
unlink-current s b =
    if_rule (λ (r : Sched). r.current ≡ s.current) (points_to s.ready_queue b) _ _ (λ t. refl)
      (λ t. bypass-current s (before_from (length s.procs) s.procs s.ready_queue b) b)

bypass-length : (s : Sched) (o : Option ℕ) (b : ℕ) → length (bypass s o b).procs ≡ length s.procs
bypass-length s none b = refl
bypass-length s (some p) b = length-set s.procs p _

unlink-length : (s : Sched) (b : ℕ) → length (unlink s b).procs ≡ length s.procs
unfolding unlink
unlink-length s b =
    length-set _ b _
    ∙ if_rule (λ (r : Sched). length r.procs ≡ length s.procs) (points_to s.ready_queue b) _ _
        (λ t. refl) (λ t. bypass-length s (before_from (length s.procs) s.procs s.ready_queue b) b)

link_last-length :
    (s : Sched) (h : Option ℕ) (i : ℕ) → length (link_last s h i).procs ≡ length s.procs
unfolding link_last
link_last-length s none i = refl
link_last-length s (some h) i = length-set s.procs _ _

pub enqueue-length : (s : Sched) (i : ℕ) → length (enqueue s i).procs ≡ length s.procs
unfolding enqueue
enqueue-length s i = link_last-length _ s.ready_queue i ∙ length-set s.procs i _

-- The queue behind `requeue_current`, where `b` was taken out and every other slot is as it was.
record Requeued (s : Sched) (q : List ℕ) (b : ℕ) (r : Sched) (w : List ℕ) : Type 0 where
  pub waiting : Holds r w
  pub apart : member b w ≡ false
  pub size : length r.procs ≡ length s.procs
  pub old_prio : (j : ℕ) → member j q ≡ true → prio r.procs j ≡ prio s.procs j
  pub old_base : base_priority (proc_at r.procs b) ≡ base_priority (proc_at s.procs b)

module _ (s : Sched) (q : List ℕ) (b : ℕ) (v : Holds s (erase b q)) (d : Distinct q) where
  kept : Requeued s q b s (erase b q ++ [])
  kept = record {
    waiting = rw (append-nil (erase b q)) v;
    apart = rw (append-nil (erase b q)) (member-erase_self b q d);
    size = refl;
    old_prio = λ j m. refl;
    old_base = refl;
  }

  added :
      (c : ℕ)
      → c < length s.procs
      → member c q ≡ false
      → member b q ≡ true
      → Requeued s q b
          (enqueue (write_proc s c (record (proc_at s.procs c) { state = ready })) c)
          (erase b q ++ c ∷ [])
  added c inside e m =
      let p = record (proc_at s.procs c) { state = ready } in
      let s' = write_proc s c p in
      let other : (j : ℕ) → member j q ≡ true → c ≢ j =
        λ j mj t. let same : member c q ≡ member j q = ap (λ n. member n q) t in absurd (cc) in
      let out = member-erase c b q e in
      let v' : Holds s' (erase b q) = record {
        chain = Chain-set_outside s.procs c p s.ready_queue (erase b q) v.chain out;
        distinct = v.distinct;
      } in
      let keep = λ (j : ℕ) (mj : member j q ≡ true).
        get_or-set_ne s.procs c j p blank_process (other j mj) in
      record {
        waiting = enqueue-Holds s' c (erase b q) v' out (omega (arith, length-set s.procs c p));
        apart =
            let n = other b m in
            ground (arith, member-append b (erase b q) (c ∷ []), member-erase_self b q d);
        size = enqueue-length s' c ∙ length-set s.procs c p;
        old_prio = λ j mj.
            enqueue-keeps (λ (x : Process). x.dynamic_priority) (λ x n. refl) s' c j (other j mj)
            ∙ ap (λ (x : Process). x.dynamic_priority) (keep j mj);
        old_base =
            enqueue-keeps base_priority (λ x n. refl) s' c b (other b m)
            ∙ ap base_priority (keep b m);
      }

  requeue_current-Requeued :
      (o : Option ℕ)
      → Outside s.procs q o
      → member b q ≡ true
      → Requeued s q b (requeue_current s o) (erase b q ++ requeued s.procs o)
  unfolding requeue_current
  requeue_current-Requeued none a m = kept
  requeue_current-Requeued (some c) a m =
      elim (Bool-cases (state_eq (proc_at s.procs c).state running)) [
        | inl runs ↦ rw runs (added c a.0 a.1 m)
        | inr stays ↦ rw stays kept
      ]

requeued-unlink :
    (s : Sched) (b : ℕ) (o : Option ℕ) → requeued (unlink s b).procs o ≡ requeued s.procs o
requeued-unlink s b none = refl
requeued-unlink s b (some c) =
    ap (λ x. if state_eq x running then c ∷ [] else [])
      (unlink-keeps (λ (p : Process). p.state) (λ p n. refl) s b c)

Outside-unlink :
    (s : Sched) (b : ℕ) (q : List ℕ) (o : Option ℕ)
    → Outside s.procs q o
    → Outside (unlink s b).procs q o
Outside-unlink s b q none a = tt
Outside-unlink s b q (some c) a = (omega (arith, unlink-length s b, a.0), a.1)

pub member-in_table : (i n : ℕ) (q : List ℕ) → All (λ x. x < n) q → member i q ≡ true → i < n
member-in_table i n [] a m = absurd (cc)
member-in_table i n (x ∷ q) a m = ground (arith, a.0, member-in_table i n q a.1)

-- What the scheduler's step leaves of each queue.
abbrev pub Schedules : Sched → List ℕ → Sched → Type 0
Schedules s [] r = r ≡ s
Schedules s (h ∷ q) r = Scheduled s (h ∷ q) r

member-later : (i b : ℕ) (q : List ℕ) → member i (erase b q) ≡ true → member i q ≡ true
member-later i b [] m = m
member-later i b (x ∷ q) m = ground (arith, member-later i b q)

scheduler_schedule-Scheduled :
    (s : Sched) (q : List ℕ)
    → Holds s q
    → Outside s.procs q s.current
    → Taken s q (dequeue_best s)
    → Scheduled s q (scheduler_schedule s)
unfolding scheduler_schedule schedule_next
scheduler_schedule-Scheduled s q v a t =
    let b = t.best in
    let u = unlink s b in
    let m = Leads-member s.procs b q t.leads in
    let same : u.current ≡ s.current = unlink-current s b in
    let w = erase b q ++ requeued s.procs s.current in
    let start_at = requeue_current u u.current in
    let rq : Requeued u q b start_at w =
      subst (λ o. Requeued u q b (requeue_current u o) w) (sym same)
        (subst (λ r. Requeued u q b (requeue_current u s.current) (erase b q ++ r))
          (requeued-unlink s b s.current)
          (requeue_current-Requeued u q b t.left v.distinct s.current
            (Outside-unlink s b q s.current a) m)) in
    let room : b < length start_at.procs = omega (
      arith,
      rq.size,
      unlink-length s b,
      member-in_table b (length s.procs) q (Chain-in_table s.procs s.ready_queue q v.chain) m,
    ) in
    let st : Started start_at b w (start start_at b) =
      start-Started start_at b w rq.waiting rq.apart room in
    let step : scheduler_schedule s ≡ start start_at b = ap schedule_next t.taken in
    subst (λ r. Scheduled s q r) (sym step)
      (record {
        best = b;
        leads = t.leads;
        waiting = st.waiting;
        now = st.now;
        apart = rq.apart;
        size = st.size ∙ (rq.size ∙ unlink-length s b);
        runs = st.runs;
        fresh = st.fresh ∙ rq.old_base ∙ unlink-keeps base_priority (λ p n. refl) s b b;
        older = λ j mj.
            let inside : member j w ≡ true =
              ground (arith, member-append j (erase b q) (requeued s.procs s.current)) in
            let before : prio start_at.procs j ≡ prio s.procs j =
              rq.old_prio j (member-later j b q mj)
              ∙ unlink-keeps (λ (p : Process). p.dynamic_priority) (λ p n. refl) s b j in
            st.older j inside ∙ ground (arith, before);
      })

-- From a queue of distinct processes that does not hold the current one, `scheduler_schedule` starts
-- the first process of the greatest dynamic priority with its base priority, puts the process that
-- ran at the end of the queue, keeps the others in their order, ages each of them by one step, and
-- leaves the started process out of the queue and the table as long as it was;
-- with an empty queue it changes nothing.
pub scheduler_schedule-Schedules :
    (s : Sched) (q : List ℕ)
    → Holds s q
    → Outside s.procs q s.current
    → Schedules s q (scheduler_schedule s)
unfolding scheduler_schedule dequeue_best schedule_next find_best_ready best_ready unlink_best
scheduler_schedule-Schedules s [] v a =
    ap (λ o. schedule_next (unlink_best s (best_ready s.procs o))) v.chain
scheduler_schedule-Schedules s (h ∷ q) v a =
    scheduler_schedule-Scheduled s (h ∷ q) v a (dequeue_best-Taken s h q v)
