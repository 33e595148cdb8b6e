-- ===== src/Scheduler/Wake.antt =====
-- The fields of the process table that a wake-up leaves alone.
use agentic_os_harness.Common.{ℕ, ◌≡◌, refl, ◌∙◌, Option, none, some, if_rule}
use agentic_os_harness.Process.Types.{Process, blocked, ready, state_eq}
use agentic_os_harness.Scheduler.{
  Sched, proc_at, write_proc, queued, link_last, enqueue, scheduler_wake,
}
use agentic_os_harness.Scheduler.Choice.{field-set}
use agentic_os_harness.Common.{length, length-set}
use agentic_os_harness.Scheduler.Schedule.{enqueue-length}
use agentic_os_harness.Common.{true}
use agentic_os_harness.Common.{zero, suc, ◌==◌, Bool-cases, inl, inr, set}
use agentic_os_harness.Scheduler.{remove_from, scheduler_remove}

module _ {ℓ} {A : Type ℓ} (f : Process → A)
    (next : (p : Process) (n : Option ℕ) → f (record p { next = n }) ≡ f p)
    (dynamic : (p : Process) (n : ℕ) → f (record p { dynamic_priority = n }) ≡ f p)
    (woken : (p : Process)
      → state_eq p.state blocked ≡ true
      → f (record p { state = ready }) ≡ f p) where
  link_last-same :
      (s : Sched) (h : Option ℕ) (i j : ℕ)
      → f (proc_at (link_last s h i).procs j) ≡ f (proc_at s.procs j)
  unfolding link_last
  link_last-same s none i j = refl
  link_last-same s (some h) i j = field-set f s.procs _ j _ (next _ _)

  pub enqueue-same :
      (s : Sched) (i j : ℕ) → f (proc_at (enqueue s i).procs j) ≡ f (proc_at s.procs j)
  unfolding enqueue
  enqueue-same s i j =
      link_last-same (write_proc s i (queued (proc_at s.procs i))) s.ready_queue i j
      ∙ field-set f s.procs i j (queued (proc_at s.procs i)) (dynamic _ _ ∙ next _ _)

  -- A wake-up changes the state and the place in the queue only.
  pub scheduler_wake-same :
      (s : Sched) (i j : ℕ) → f (proc_at (scheduler_wake s i).procs j) ≡ f (proc_at s.procs j)
  unfolding scheduler_wake
  scheduler_wake-same s i j =
      if_rule (λ (r : Sched). f (proc_at r.procs j) ≡ f (proc_at s.procs j))
        (state_eq (proc_at s.procs i).state blocked) _ _
        (λ e.
          enqueue-same (write_proc s i (record (proc_at s.procs i) { state = ready })) i j
          ∙ field-set f s.procs i j _ (woken _ e))
        (λ e. refl)

pub scheduler_wake-length : (s : Sched) (i : ℕ) → length (scheduler_wake s i).procs ≡ length s.procs
unfolding scheduler_wake
scheduler_wake-length s i =
    if_rule (λ (r : Sched). length r.procs ≡ length s.procs)
      (state_eq (proc_at s.procs i).state blocked) _ _
      (λ e.
        enqueue-length (write_proc s i (record (proc_at s.procs i) { state = ready })) i
        ∙ length-set s.procs i _)
      (λ e. refl)

-- `scheduler_remove` writes `next` fields only.
module _ {ℓ} {A : Type ℓ} (f : Process → A)
    (next : (p : Process) (n : Option ℕ) → f (record p { next = n }) ≡ f p) where
  remove_from-same :
      (fuel : ℕ) (s : Sched) (prev item : Option ℕ) (i j : ℕ)
      → f (proc_at (remove_from fuel s prev item i).procs j) ≡ f (proc_at s.procs j)
  unfolding remove_from
  remove_from-same zero s prev item i j = refl
  remove_from-same (suc fuel) s prev none i j = refl
  remove_from-same (suc fuel) s none (some x) i j = elim (Bool-cases (x == i)) [
    | inl here ↦ rw (here, remove_from) (field-set f s.procs x j _ (next _ _))
    | inr there ↦
        rw (there, remove_from) (remove_from-same fuel s (some x) (proc_at s.procs x).next i j)
  ]
  remove_from-same (suc fuel) s (some p) (some x) i j = elim (Bool-cases (x == i)) [
    | inl here ↦
        rw (here, remove_from)
          (field-set f _ x j _ (next _ _) ∙ field-set f s.procs p j _ (next _ _))
    | inr there ↦
        rw (there, remove_from) (remove_from-same fuel s (some x) (proc_at s.procs x).next i j)
  ]

  pub scheduler_remove-same :
      (s : Sched) (i j : ℕ) → f (proc_at (scheduler_remove s i).procs j) ≡ f (proc_at s.procs j)
  unfolding scheduler_remove
  scheduler_remove-same s i j = remove_from-same (length s.procs) s none s.ready_queue i j

remove_from-length :
    (fuel : ℕ) (s : Sched) (prev item : Option ℕ) (i : ℕ)
    → length (remove_from fuel s prev item i).procs ≡ length s.procs
unfolding remove_from
remove_from-length zero s prev item i = refl
remove_from-length (suc fuel) s prev none i = refl
remove_from-length (suc fuel) s none (some x) i = elim (Bool-cases (x == i)) [
  | inl here ↦ rw (here, remove_from) (length-set s.procs x _)
  | inr there ↦
      rw (there, remove_from) (remove_from-length fuel s (some x) (proc_at s.procs x).next i)
]
remove_from-length (suc fuel) s (some p) (some x) i = elim (Bool-cases (x == i)) [
  | inl here ↦ rw (here, remove_from) (length-set (set s.procs p _) x _ ∙ length-set s.procs p _)
  | inr there ↦
      rw (there, remove_from) (remove_from-length fuel s (some x) (proc_at s.procs x).next i)
]

pub scheduler_remove-length :
    (s : Sched) (i : ℕ) → length (scheduler_remove s i).procs ≡ length s.procs
unfolding scheduler_remove
scheduler_remove-length s i = remove_from-length (length s.procs) s none s.ready_queue i
