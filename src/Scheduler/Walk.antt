-- ===== src/Scheduler/Walk.antt =====
-- The linked list that stands for a queue, and what the walks along it find.
use agentic_os_harness.Common.{
  ℕ, zero, suc, ◌≤◌, ◌<◌, ◌≡◌, refl, ap, ◌∙◌, false, Option, none, some, List, [], ◌∷◌, arith, ltb,
  ◌==◌, if◌then◌else◌, length, length-set, set, get_or-set, get_or-set_ne, All, Bool-cases, inl,
  inr,
}
use agentic_os_harness.Process.Types.{Process, blank_process}
use agentic_os_harness.Scheduler.{proc_at, last_from, best_from, age_from, aged}
use agentic_os_harness.Scheduler.Queue.{member, Distinct, last_of, length-Distinct}

-- From `h` the `next` fields lead through the slots `q` and end there.
abbrev pub Chain : List Process → Option ℕ → List ℕ → Type 0
Chain ps h [] = h ≡ none
Chain ps h (i ∷ q) = (h ≡ some i) × (i < length ps) × Chain ps (proc_at ps i).next q

pub Chain-in_table :
    (ps : List Process) (h : Option ℕ) (q : List ℕ) → Chain ps h q → All (λ x. x < length ps) q
Chain-in_table ps h [] c = tt
Chain-in_table ps h (i ∷ q) c = (c.1, Chain-in_table ps (proc_at ps i).next q c.2)

-- So a walk of as many rounds as the table has slots reaches the end.
pub length-Chain :
    (ps : List Process) (h : Option ℕ) (q : List ℕ)
    → Chain ps h q
    → Distinct q
    → length q ≤ length ps
length-Chain ps h q c d = length-Distinct (length ps) q d (Chain-in_table ps h q c)

-- A write to a process outside the queue leaves the list as it was.
pub Chain-set_outside :
    (ps : List Process) (j : ℕ) (p : Process) (h : Option ℕ) (q : List ℕ)
    → Chain ps h q
    → member j q ≡ false
    → Chain (set ps j p) h q
Chain-set_outside ps j p h [] c e = c
Chain-set_outside ps j p h (i ∷ q) c e =
    let same : proc_at (set ps j p) i ≡ proc_at ps i =
      get_or-set_ne ps j i p blank_process (λ x. ground arith) in
    (
      c.0,
      omega (arith, length-set ps j p, c.1),
      rw same (Chain-set_outside ps j p (proc_at ps i).next q c.2 (ground arith)),
    )

-- So does a write that keeps the `next` field.
pub Chain-set_same_next :
    (ps : List Process) (j : ℕ) (p : Process) (h : Option ℕ) (q : List ℕ)
    → p.next ≡ (proc_at ps j).next
    → Chain ps h q
    → Chain (set ps j p) h q
Chain-set_same_next ps j p h [] e c = c
Chain-set_same_next ps j p h (i ∷ q) e c =
    let same : (proc_at (set ps j p) i).next ≡ (proc_at ps i).next = elim (Bool-cases (j == i)) [
      | inl here ↦
          let k : j ≡ i = ground arith in
          let new : proc_at (set ps j p) i ≡ p =
            ground (arith, get_or-set ps j i p blank_process (omega (arith, c.1))) in
          ap (λ (x : Process). x.next) new ∙ e ∙ ap (λ (n : ℕ). (proc_at ps n).next) k
      | inr other ↦
          ap (λ (x : Process). x.next) (get_or-set_ne ps j i p blank_process (λ x. ground arith))
    ] in
    (
      c.0,
      omega (arith, length-set ps j p, c.1),
      rw same (Chain-set_same_next ps j p (proc_at ps i).next q e c.2),
    )

pub last_from-eq :
    (fuel : ℕ) (ps : List Process) (h : ℕ) (q : List ℕ)
    → Chain ps (proc_at ps h).next q
    → length q ≤ fuel
    → last_from fuel ps h ≡ last_of h q
unfolding last_from
last_from-eq zero ps h [] c e = refl
last_from-eq zero ps h (x ∷ q) c e = absurd (omega arith)
last_from-eq (suc fuel) ps h [] c e = rw (c, last_from)
last_from-eq (suc fuel) ps h (x ∷ q) c e =
    rw (c.0, last_from) (last_from-eq fuel ps x q c.2 (omega arith))

-- The first of the greatest dynamic priorities among `best` and `q`.
abbrev pub best_of : List Process → ℕ → List ℕ → ℕ
best_of ps best [] = best
best_of ps best (x ∷ q) =
    best_of ps
      (if ltb (proc_at ps best).dynamic_priority (proc_at ps x).dynamic_priority then x else best) q

pub best_from-eq :
    (fuel : ℕ) (ps : List Process) (best : ℕ) (h : Option ℕ) (q : List ℕ)
    → Chain ps h q
    → length q ≤ fuel
    → best_from fuel ps best h ≡ best_of ps best q
unfolding best_from
best_from-eq zero ps best h [] c e = refl
best_from-eq zero ps best h (x ∷ q) c e = absurd (omega arith)
best_from-eq (suc fuel) ps best h [] c e = rw c
best_from-eq (suc fuel) ps best h (x ∷ q) c e =
    rw c.0 (best_from-eq fuel ps _ (proc_at ps x).next q c.2 (omega arith))

-- Ageing, slot by slot.
abbrev pub age_list : List Process → List ℕ → List Process
age_list ps [] = ps
age_list ps (x ∷ q) = age_list (set ps x (aged (proc_at ps x))) q

pub next-aged : (p : Process) → (aged p).next ≡ p.next
next-aged p = ground arith

pub age_from-eq :
    (fuel : ℕ) (ps : List Process) (h : Option ℕ) (q : List ℕ)
    → Chain ps h q
    → length q ≤ fuel
    → age_from fuel ps h ≡ age_list ps q
unfolding age_from
age_from-eq zero ps h [] c e = refl
age_from-eq zero ps h (x ∷ q) c e = absurd (omega arith)
age_from-eq (suc fuel) ps h [] c e = rw c
age_from-eq (suc fuel) ps h (x ∷ q) c e = rw c.0 (
    age_from-eq fuel (set ps x (aged (proc_at ps x))) (proc_at ps x).next q
      (Chain-set_same_next ps x (aged (proc_at ps x)) (proc_at ps x).next q
        (next-aged (proc_at ps x)) c.2)
      (omega arith))
