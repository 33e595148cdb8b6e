-- ===== src/Scheduler/Choice.antt =====
-- What a step of kernel/scheduler.c does to the queue and to the priorities of its processes.
use agentic_os_harness.Common.{
  ℕ, zero, suc, ◌≤◌, ◌<◌, ◌≡◌, ◌≢◌, refl, ap, ◌∙◌, true, Option, none, some, List, [], ◌∷◌, arith,
  ltb, if◌then◌else◌, length, set, get_or-set_ne, All, Bool-cases, inl, inr, ◌⊎◌,
}
use agentic_os_harness.Process.Types.{Process, blank_process}
use agentic_os_harness.Scheduler.{
  Sched, proc_at, write_proc, queued, before_from, points_to, bypass, unlink, best_ready,
  find_best_ready, unlink_best, dequeue_best, enqueue, link_last,
}
use agentic_os_harness.Scheduler.Queue.{member, erase}
use agentic_os_harness.Scheduler.Walk.{length-Chain, best_of, best_from-eq}
use agentic_os_harness.Scheduler.Refine.{Holds, unlink-Holds}
use agentic_os_harness.Common.{subst, sym}

abbrev pub prio : List Process → ℕ → ℕ
prio ps i = (proc_at ps i).dynamic_priority

-- `b` is the first slot of the queue with the greatest dynamic priority.
abbrev pub Leads : List Process → ℕ → List ℕ → Type 0
Leads ps b [] = ⊥
Leads ps b (x ∷ q) =
    ((x ≡ b) × All (λ j. prio ps j ≤ prio ps b) q) ⊎ ((prio ps x < prio ps b) × Leads ps b q)

Leads-better :
    (ps : List Process) (h x b : ℕ) (q : List ℕ)
    → prio ps h < prio ps x
    → Leads ps b (x ∷ q)
    → Leads ps b (h ∷ x ∷ q)
Leads-better ps h x b q e (inl a) = inr (rw (← a.0) e, inl a)
Leads-better ps h x b q e (inr a) = inr (ground (arith, a.0), inr a)

Leads-worse :
    (ps : List Process) (h x b : ℕ) (q : List ℕ)
    → prio ps x ≤ prio ps h
    → Leads ps b (h ∷ q)
    → Leads ps b (h ∷ x ∷ q)
Leads-worse ps h x b q e (inl a) = inl (a.0, (rw (← a.0) e, a.1))
Leads-worse ps h x b q e (inr a) = inr (a.0, inr (omega (arith, a.0), a.1))

pub best_of-Leads : (ps : List Process) (h : ℕ) (q : List ℕ) → Leads ps (best_of ps h q) (h ∷ q)
best_of-Leads ps h [] = inl (refl, tt)
best_of-Leads ps h (x ∷ q) = elim (Bool-cases (ltb (prio ps h) (prio ps x))) [
  | inl better ↦
      subst (λ b. Leads ps b (h ∷ x ∷ q)) (sym (ap (λ t. best_of ps (if t then x else h) q) better))
        (Leads-better ps h x (best_of ps x q) q (ground arith) (best_of-Leads ps x q))
  | inr worse ↦
      subst (λ b. Leads ps b (h ∷ x ∷ q)) (sym (ap (λ t. best_of ps (if t then x else h) q) worse))
        (Leads-worse ps h x (best_of ps h q) q (ground arith) (best_of-Leads ps h q))
]

pub Leads-member : (ps : List Process) (b : ℕ) (q : List ℕ) → Leads ps b q → member b q ≡ true
Leads-member ps b [] l = absurd l
Leads-member ps b (x ∷ q) (inl a) = ground (arith, a.0)
Leads-member ps b (x ∷ q) (inr a) = ground (arith, Leads-member ps b q a.1)

-- The slot that `dequeue_best` takes, and the queue that it leaves.
pub record Taken (s : Sched) (q : List ℕ) (r : Option ℕ × Sched) : Type 0 where
  pub best : ℕ
  pub taken : r ≡ (some best, unlink s best)
  pub leads : Leads s.procs best q
  pub left : Holds (unlink s best) (erase best q)

pub dequeue_best-Taken :
    (s : Sched) (h : ℕ) (q : List ℕ) → Holds s (h ∷ q) → Taken s (h ∷ q) (dequeue_best s)
unfolding dequeue_best find_best_ready best_ready unlink_best
dequeue_best-Taken s h q v =
    let room = length-Chain s.procs s.ready_queue (h ∷ q) v.chain v.distinct in
    let b = best_of s.procs h (h ∷ q) in
    let e : best_of s.procs h q ≡ b = ground arith in
    let l : Leads s.procs b (h ∷ q) =
      subst (λ n. Leads s.procs n (h ∷ q)) e (best_of-Leads s.procs h q) in
    let found : find_best_ready s ≡ some b =
      ap (best_ready s.procs) v.chain.0
      ∙ ap some (
          best_from-eq (length s.procs) s.procs h (some h) (h ∷ q) (refl, v.chain.1, v.chain.2)
            room) in
    record {
      best = b;
      taken = ap (unlink_best s) found;
      leads = l;
      left = unlink-Holds s b (h ∷ q) v (Leads-member s.procs b (h ∷ q) l);
    }

module _ {ℓ} {A : Type ℓ} (f : Process → A) where
  -- A write that keeps a field keeps it in every slot.
  pub field-set :
      (ps : List Process) (i j : ℕ) (p : Process)
      → f p ≡ f (proc_at ps i)
      → f (proc_at (set ps i p) j) ≡ f (proc_at ps j)
  field-set [] i j p e = refl
  field-set (x ∷ ps) zero zero p e = e
  field-set (x ∷ ps) zero (suc j) p e = refl
  field-set (x ∷ ps) (suc i) zero p e = refl
  field-set (x ∷ ps) (suc i) (suc j) p e = field-set ps i j p e

  module _ (keeps : (p : Process) (n : Option ℕ) → f (record p { next = n }) ≡ f p) where
    bypass-keeps :
        (s : Sched) (prev : Option ℕ) (b j : ℕ)
        → f (proc_at (bypass s prev b).procs j) ≡ f (proc_at s.procs j)
    bypass-keeps s none b j = refl
    bypass-keeps s (some p) b j = field-set s.procs p j _ (keeps _ _)

    -- `unlink` changes no field but `next`.
    pub unlink-keeps :
        (s : Sched) (b j : ℕ) → f (proc_at (unlink s b).procs j) ≡ f (proc_at s.procs j)
    unfolding unlink
    unlink-keeps s b j = elim (Bool-cases (points_to s.ready_queue b)) [
      | inl here ↦ rw here (field-set s.procs b j _ (keeps _ _))
      | inr there ↦ rw there (
          field-set _ b j _ (keeps _ _)
          ∙ bypass-keeps s (before_from (length s.procs) s.procs s.ready_queue b) b j)
    ]

    link_last-keeps :
        (s : Sched) (h : Option ℕ) (i j : ℕ)
        → f (proc_at (link_last s h i).procs j) ≡ f (proc_at s.procs j)
    unfolding link_last
    link_last-keeps s none i j = refl
    link_last-keeps s (some h) i j = field-set s.procs _ j _ (keeps _ _)

    -- `enqueue` changes no field but `next` of another process.
    pub enqueue-keeps :
        (s : Sched) (i j : ℕ) → i ≢ j → f (proc_at (enqueue s i).procs j) ≡ f (proc_at s.procs j)
    unfolding enqueue
    enqueue-keeps s i j n =
        link_last-keeps (write_proc s i (queued (proc_at s.procs i))) s.ready_queue i j
        ∙ ap f (get_or-set_ne s.procs i j _ blank_process n)
