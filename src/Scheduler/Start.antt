-- ===== src/Scheduler/Start.antt =====
-- Ageing the queue and starting a process: the end of `scheduler_schedule_locked`.
use agentic_os_harness.Common.{
  ℕ, ◌<◌, ◌≡◌, refl, ap, sym, subst, ◌∙◌, true, false, not, ◌&&◌, Option, none, some, List, [], ◌∷◌,
  arith, ◌==◌, length, length-set, set, get_or-set, get_or-set_ne, All, Bool-cases, inl, inr,
}
use agentic_os_harness.Process.Types.{Process, blank_process, running}
use agentic_os_harness.Scheduler.{
  Sched, proc_at, write_proc, base_priority, aged, age_ready_queue, started, start,
  switch_address_space,
}
use agentic_os_harness.Scheduler.Queue.{member, Distinct}
use agentic_os_harness.Scheduler.Walk.{
  Chain, length-Chain, Chain-in_table, Chain-set_same_next, Chain-set_outside, next-aged, age_list,
  age_from-eq,
}
use agentic_os_harness.Scheduler.Refine.{Holds}
use agentic_os_harness.Scheduler.Choice.{prio, field-set}
use agentic_os_harness.Common.{if_rule}
use agentic_os_harness.Scheduler.{load_directory, load_stack}

length-age_list : (ps : List Process) (q : List ℕ) → length (age_list ps q) ≡ length ps
length-age_list ps [] = refl
length-age_list ps (x ∷ q) =
    length-age_list (set ps x (aged (proc_at ps x))) q ∙ length-set ps x (aged (proc_at ps x))

Chain-age_list :
    (ps : List Process) (q : List ℕ) (h : Option ℕ) (r : List ℕ)
    → Chain ps h r
    → Chain (age_list ps q) h r
Chain-age_list ps [] h r c = c
Chain-age_list ps (x ∷ q) h r c =
    Chain-age_list (set ps x (aged (proc_at ps x))) q h r
      (Chain-set_same_next ps x (aged (proc_at ps x)) h r (next-aged (proc_at ps x)) c)

-- Ageing keeps every field but the dynamic priority.
age_list-keeps {ℓ} :
    {A : Type ℓ} (f : Process → A)
    → ((p : Process) → f (aged p) ≡ f p)
    → (ps : List Process) (q : List ℕ) (j : ℕ) → f (proc_at (age_list ps q) j) ≡ f (proc_at ps j)
age_list-keeps f keeps ps [] j = refl
age_list-keeps f keeps ps (x ∷ q) j =
    age_list-keeps f keeps (set ps x (aged (proc_at ps x))) q j
    ∙ field-set f ps x j (aged (proc_at ps x)) (keeps (proc_at ps x))

age_list-outside :
    (ps : List Process) (q : List ℕ) (j : ℕ)
    → member j q ≡ false
    → proc_at (age_list ps q) j ≡ proc_at ps j
age_list-outside ps [] j e = refl
age_list-outside ps (x ∷ q) j e =
    age_list-outside (set ps x (aged (proc_at ps x))) q j (ground arith)
    ∙ get_or-set_ne ps x j (aged (proc_at ps x)) blank_process (λ t. ground arith)

-- Every process of the queue ages once.
age_list-inside :
    (ps : List Process) (q : List ℕ) (j : ℕ)
    → All (λ i. i < length ps) q
    → Distinct q
    → member j q ≡ true
    → proc_at (age_list ps q) j ≡ aged (proc_at ps j)
age_list-inside ps [] j a d e = absurd (cc)
age_list-inside ps (x ∷ q) j a d e = elim (Bool-cases (x == j)) [
  | inl here ↦
      let same : x ≡ j = ground arith in
      let p = aged (proc_at ps x) in
      let self : proc_at (set ps x p) x ≡ p =
        ground (arith, get_or-set ps x x p blank_process a.0) in
      subst (λ i. proc_at (age_list (set ps x p) q) i ≡ aged (proc_at ps i)) same
        (age_list-outside (set ps x p) q x d.0 ∙ self)
  | inr later ↦
      let p = aged (proc_at ps x) in
      age_list-inside (set ps x p) q j (rw (length-set ps x p) a.1) d.1 (ground arith)
      ∙ ap aged (get_or-set_ne ps x j p blank_process (λ t. ground arith))
]

-- The fields that no switch of the address space changes.
pub record SameQueue (s r : Sched) : Type 0 where
  pub same_procs : r.procs ≡ s.procs
  pub same_queue : r.ready_queue ≡ s.ready_queue
  pub same_current : r.current ≡ s.current

load_stack-SameQueue : (s r : Sched) (o : Option ℕ) → SameQueue s r → SameQueue s (load_stack r o)
load_stack-SameQueue s r none e = e
load_stack-SameQueue s r (some stack) e = record {
  same_procs = e.same_procs;
  same_queue = e.same_queue;
  same_current = e.same_current;
}

pub switch_address_space-SameQueue : (s : Sched) (i : ℕ) → SameQueue s (switch_address_space s i)
unfolding switch_address_space
switch_address_space-SameQueue s i =
    let cr3 = (proc_at s.procs i).cr3 in
    let same : SameQueue s s = record {
      same_procs = refl;
      same_queue = refl;
      same_current = refl;
    } in
    load_stack-SameQueue s (load_directory s cr3) (proc_at s.procs i).kernel_stack (
      if_rule (λ r. SameQueue s r) (not (cr3 == 0) && not (cr3 == s.active_directory)) _ s
        (λ t. record { same_procs = refl; same_queue = refl; same_current = refl }) (λ t. same))

-- What starting `i` leaves, where the others wait in the queue `q`.
pub record Started (s : Sched) (i : ℕ) (q : List ℕ) (r : Sched) : Type 0 where
  pub waiting : Holds r q
  pub size : length r.procs ≡ length s.procs
  pub now : r.current ≡ some i
  pub runs : (proc_at r.procs i).state ≡ running
  pub fresh : prio r.procs i ≡ base_priority (proc_at s.procs i)
  pub older :
      (j : ℕ) → member j q ≡ true → prio r.procs j ≡ (aged (proc_at s.procs j)).dynamic_priority

-- `start` before the switch of the address space.
abbrev begun : List Process → ℕ → List Process
begun ps i = set ps i (started (proc_at ps i))

abbrev marked : Sched → ℕ → Sched
marked s i = record (write_proc s i (started (proc_at s.procs i))) { current = some i }

Started-procs :
    (s r : Sched) (i : ℕ) (q : List ℕ)
    → Holds s q
    → member i q ≡ false
    → i < length s.procs
    → r.procs ≡ begun (age_list s.procs q) i
    → r.ready_queue ≡ s.ready_queue
    → r.current ≡ some i
    → Started s i q r
Started-procs s r i q v e inside procs queue now =
    let ps = age_list s.procs q in
    let p = started (proc_at ps i) in
    let room : i < length ps = omega (arith, length-age_list s.procs q) in
    let self : proc_at (set ps i p) i ≡ p =
      ground (arith, get_or-set ps i i p blank_process room) in
    let before : proc_at ps i ≡ proc_at s.procs i = age_list-outside s.procs q i e in
    record {
      waiting = record {
        chain =
            subst (λ t. Chain t r.ready_queue q) (sym procs)
              (subst (λ t. Chain (set ps i p) t q) (sym queue)
                (Chain-set_outside ps i p s.ready_queue q
                  (Chain-age_list s.procs q s.ready_queue q v.chain) e));
        distinct = v.distinct;
      };
      size = ap length procs ∙ (length-set ps i p ∙ length-age_list s.procs q);
      now = now;
      runs = ap (λ t. (proc_at t i).state) procs ∙ ap (λ (t : Process). t.state) self;
      fresh =
          ap (λ t. prio t i) procs
          ∙ ap (λ (t : Process). t.dynamic_priority) self
          ∙ ap base_priority before;
      older = λ j m.
          ap (λ t. prio t j) procs
          ∙ ap (λ (t : Process). t.dynamic_priority)
              (get_or-set_ne ps i j p blank_process (λ t. absurd (other i j q e m t)))
          ∙ ap (λ (t : Process). t.dynamic_priority)
              (age_list-inside s.procs q j (Chain-in_table s.procs s.ready_queue q v.chain)
                v.distinct m);
    }
  where
    other : (i j : ℕ) (q : List ℕ) → member i q ≡ false → member j q ≡ true → i ≡ j → ⊥
    other i j q e m t = let same : member i q ≡ member j q = ap (λ n. member n q) t in absurd (cc)

pub start-Started :
    (s : Sched) (i : ℕ) (q : List ℕ)
    → Holds s q
    → member i q ≡ false
    → i < length s.procs
    → Started s i q (start s i)
unfolding start age_ready_queue
start-Started s i q v e inside =
    let aged_procs =
      age_from-eq (length s.procs) s.procs s.ready_queue q v.chain
        (length-Chain s.procs s.ready_queue q v.chain v.distinct) in
    let m = marked (age_ready_queue s) i in
    let same = switch_address_space-SameQueue m i in
    Started-procs s (start s i) i q v e inside (same.same_procs ∙ ap (λ ps. begun ps i) aged_procs)
      same.same_queue same.same_current
