-- ===== src/Process/Lookup/First.antt =====
-- The searches of kernel/process.c find the first slot that fits, and nothing only if none fits.
use agentic_os_harness.Common.{
  ℕ, zero, suc, ◌+◌, ◌<◌, ◌≡◌, ◌≢◌, refl, Bool, true, false, Option, none, some, List, arith, ◌==◌,
  Bool-cases, inl, inr, if_rule, ◌⊎◌,
}
use agentic_os_harness.Process.Types.{
  Process, ProcessState, dead, ready, running, blocked, zombie, state_eq, max_processes,
}
use agentic_os_harness.Scheduler.{proc_at}
use agentic_os_harness.Process.Lookup.{
  first_slot, search, process_find_exited_child_by_pid, is_exited_child,
}

-- What a search returns.
pub data First (fits : Process → Bool) (procs : List Process) : Option ℕ → Type 0 where
  missing : ((j : ℕ) → j < max_processes → fits (proc_at procs j) ≡ false) → First fits procs none
  slot :
      (i : ℕ)
      → i < max_processes
      → fits (proc_at procs i) ≡ true
      → ((j : ℕ) → j < i → fits (proc_at procs j) ≡ false)
      → First fits procs (some i)

first_slot-First :
    (fits : Process → Bool) (procs : List Process) (n i : ℕ)
    → i + n ≡ max_processes
    → ((j : ℕ) → j < i → fits (proc_at procs j) ≡ false)
    → First fits procs (first_slot fits procs n i)
unfolding first_slot
first_slot-First fits procs zero i e below = missing (λ j h. below j (omega arith))
first_slot-First fits procs (suc n) i e below = elim (Bool-cases (fits (proc_at procs i))) [
  | inl here ↦ rw (here, first_slot) (slot i (omega arith) here below)
  | inr later ↦
      rw (later, first_slot)
        (first_slot-First fits procs n (i + 1) (omega arith) (λ j h. elim (Bool-cases (i == j)) [
          | inl same ↦ let at : i ≡ j = ground arith in rw (← at) later
          | inr other ↦ below j (ground arith)
        ]))
]

pub search-First :
    (fits : Process → Bool) (procs : List Process) → First fits procs (search fits procs)
search-First fits procs =
    first_slot-First fits procs max_processes 0 refl (λ j h. absurd (omega arith))

-- A zombie child that nobody waited for, among those that the target admits.
pub record IsExitedChild (parent_pid target : ℕ) (p : Process) : Type 0 where
  pub numbered : p.pid ≢ 0
  pub child : p.parent_pid ≡ parent_pid
  pub is_zombie : p.state ≡ zombie
  pub has_exited : p.exited ≡ true
  pub unwaited : p.waited ≡ false
  pub wanted : (target ≡ 4294967295) ⊎ (p.pid ≡ target)

state_eq-zombie : (x : ProcessState) → state_eq x zombie ≡ true → x ≡ zombie
state_eq-zombie zombie e = refl
state_eq-zombie dead e = absurd (cc)
state_eq-zombie ready e = absurd (cc)
state_eq-zombie running e = absurd (cc)
state_eq-zombie blocked e = absurd (cc)

is_exited_child-IsExitedChild :
    (parent_pid target : ℕ) (p : Process)
    → is_exited_child parent_pid target p ≡ true
    → IsExitedChild parent_pid target p
is_exited_child-IsExitedChild parent_pid target p e = record {
  numbered = ground (arith, e);
  child = ground (arith, e);
  is_zombie = state_eq-zombie p.state (ground (arith, e));
  has_exited = ground (arith, e);
  unwaited = ground (arith, e);
  wanted = ground (arith, e);
}

is_exited_child_none :
    (parent_pid target : ℕ) (p : Process)
    → is_exited_child parent_pid target p ≡ false
    → ¬ IsExitedChild parent_pid target p
is_exited_child_none parent_pid target p e c =
    let z : state_eq p.state zombie ≡ true = rw c.is_zombie refl in
    ground (arith, e, z, c.numbered, c.child, c.has_exited, c.unwaited, c.wanted)

-- What the search for an exited child returns.
pub data FirstExited (parent_pid target : ℕ) (procs : List Process) : Option ℕ → Type 0 where
  no_child :
      ((j : ℕ) → j < max_processes → ¬ IsExitedChild parent_pid target (proc_at procs j))
      → FirstExited parent_pid target procs none
  child_at :
      (i : ℕ)
      → i < max_processes
      → IsExitedChild parent_pid target (proc_at procs i)
      → ((j : ℕ) → j < i → ¬ IsExitedChild parent_pid target (proc_at procs j))
      → FirstExited parent_pid target procs (some i)

First-FirstExited :
    (parent_pid target : ℕ) (procs : List Process) (o : Option ℕ)
    → First (is_exited_child parent_pid target) procs o
    → FirstExited parent_pid target procs o
First-FirstExited parent_pid target procs _ (missing never) =
    no_child (λ j h. is_exited_child_none parent_pid target (proc_at procs j) (never j h))
First-FirstExited parent_pid target procs _ (slot i h here below) =
    child_at i h (is_exited_child-IsExitedChild parent_pid target (proc_at procs i) here)
      (λ j b. is_exited_child_none parent_pid target (proc_at procs j) (below j b))

-- For a parent, whose process identifier is not 0, `process_find_exited_child_by_pid` finds the first slot
-- of a process that has a number, is its child, is a zombie that exited, was not waited for, and is the
-- target, if the target is not -1; and nothing only if there is no such slot.
pub process_find_exited_child_by_pid-First :
    (procs : List Process) (parent_pid target : ℕ)
    → parent_pid ≢ 0
    → FirstExited parent_pid target procs (process_find_exited_child_by_pid procs parent_pid target)
unfolding process_find_exited_child_by_pid
process_find_exited_child_by_pid-First procs parent_pid target h =
    First-FirstExited parent_pid target procs
      (process_find_exited_child_by_pid procs parent_pid target)
      (if_rule (λ o. First (is_exited_child parent_pid target) procs o) (parent_pid == 0) none
        (search (is_exited_child parent_pid target) procs) (λ e. absurd (h (ground arith)))
        (λ e. search-First (is_exited_child parent_pid target) procs))
