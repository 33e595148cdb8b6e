-- ===== src/Scheduler/Refine.antt =====
-- The linked operations are the operations of a queue: adding at the end, and taking one slot out.
use agentic_os_harness.Common.{
  ℕ, zero, suc, ◌≤◌, ◌<◌, ◌≡◌, ◌≢◌, refl, ap, ◌∙◌, true, false, Option, none, some, List, [], ◌∷◌,
  ◌++◌, arith, ◌==◌, if◌then◌else◌, length, length-set, set, get_or-set, get_or-set_ne, Bool-cases,
  inl, inr,
}
use agentic_os_harness.Process.Types.{Process, blank_process}
use agentic_os_harness.Scheduler.{
  Sched, proc_at, write_proc, queued, link_last, enqueue, before_from, points_to, bypass, unlink,
}
use agentic_os_harness.Scheduler.Queue.{
  member, Distinct, erase, last_of, last_of-ne, Distinct-append_one, Distinct-erase,
  member-erase_self,
}
use agentic_os_harness.Scheduler.Walk.{Chain, length-Chain, Chain-set_outside, last_from-eq}

-- The ready queue of `s` is the list `q` of distinct slots.
pub record Holds (s : Sched) (q : List ℕ) : Type 0 where
  pub chain : Chain s.procs s.ready_queue q
  pub distinct : Distinct q

pub proc_at-set_self :
    (ps : List Process) (i : ℕ) (p : Process) → i < length ps → proc_at (set ps i p) i ≡ p
proc_at-set_self ps i p h = ground (arith, get_or-set ps i i p blank_process h)

proc_at-set_ne :
    (ps : List Process) (i j : ℕ) (p : Process) → i ≢ j → proc_at (set ps i p) j ≡ proc_at ps j
proc_at-set_ne ps i j p h = get_or-set_ne ps i j p blank_process h

-- Linking `i` behind the last slot.
Chain-link_last :
    (ps : List Process) (h i : ℕ) (q : List ℕ)
    → Chain ps (some h) (h ∷ q)
    → Distinct (h ∷ q)
    → member i (h ∷ q) ≡ false
    → (proc_at ps i).next ≡ none
    → i < length ps
    → Chain
        (set ps (last_of h q) (record (proc_at ps (last_of h q)) { next = some i }))
        (some h)
        (h ∷ (q ++ i ∷ []))
Chain-link_last ps h i [] c d e n inside =
    let p = record (proc_at ps h) { next = some i } in
    (
      refl,
      omega (arith, length-set ps h p, c.1),
      (
        ap (λ (x : Process). x.next) (proc_at-set_self ps h p c.1),
        omega (arith, length-set ps h p, inside),
        ap (λ (x : Process). x.next) (proc_at-set_ne ps h i p (λ x. ground arith)) ∙ n,
      ),
    )
Chain-link_last ps h i (x ∷ q) c d e n inside =
    let last = last_of x q in
    let p = record (proc_at ps last) { next = some i } in
    let same : proc_at (set ps last p) h ≡ proc_at ps h =
      proc_at-set_ne ps last h p (last_of-ne h x q d.0) in
    let tail : Chain (set ps last p) (some x) (x ∷ (q ++ i ∷ [])) =
      Chain-link_last ps x i q (refl, c.2.1, c.2.2) d.1 (ground arith) n inside in
    (
      refl,
      omega (arith, length-set ps last p, c.1),
      (ap (λ (y : Process). y.next) same ∙ c.2.0, tail.1, tail.2),
    )

link_last-Holds :
    (s : Sched) (i : ℕ) (q : List ℕ)
    → Holds s q
    → member i q ≡ false
    → (proc_at s.procs i).next ≡ none
    → i < length s.procs
    → Holds (link_last s s.ready_queue i) (q ++ i ∷ [])
unfolding link_last
link_last-Holds s i [] v e n inside =
    rw v.chain (record { chain = (refl, inside, n); distinct = (refl, tt) })
link_last-Holds s i (h ∷ q) v e n inside =
    let room = length-Chain s.procs s.ready_queue (h ∷ q) v.chain v.distinct in
    rw (v.chain.0, last_from-eq (length s.procs) s.procs h q v.chain.2 (omega arith))
      (record {
        chain = Chain-link_last s.procs h i q (refl, v.chain.1, v.chain.2) v.distinct e n inside;
        distinct = Distinct-append_one i (h ∷ q) v.distinct e;
      })

-- Where the ready queue links distinct slots of the table, `enqueue` adds a process of the table that
-- is not queued at the end of the queue.
pub enqueue-Holds :
    (s : Sched) (i : ℕ) (q : List ℕ)
    → Holds s q
    → member i q ≡ false
    → i < length s.procs
    → Holds (enqueue s i) (q ++ i ∷ [])
unfolding enqueue
enqueue-Holds s i q v e inside =
    let p = queued (proc_at s.procs i) in
    link_last-Holds (write_proc s i p) i q
      (record {
        chain = Chain-set_outside s.procs i p s.ready_queue q v.chain e;
        distinct = v.distinct;
      })
      e (ap (λ (x : Process). x.next) (proc_at-set_self s.procs i p inside))
      (omega (arith, length-set s.procs i p))

-- The slot before `b`, and the list with `b` bypassed there.
pub record Bypassed (ps : List Process) (p b : ℕ) (q : List ℕ) (r : Option ℕ) : Type 0 where
  pub prev : ℕ
  pub found : r ≡ some prev
  pub linked :
      Chain
        (set ps prev (record (proc_at ps prev) { next = (proc_at ps b).next }))
        (some p)
        (p ∷ erase b q)
  pub apart : (j : ℕ) → member j (p ∷ q) ≡ false → prev ≢ j

before_from-hit :
    (fuel : ℕ) (ps : List Process) (p b x : ℕ)
    → (proc_at ps p).next ≡ some x
    → x == b ≡ true
    → before_from (suc fuel) ps (some p) b ≡ some p
unfolding before_from
before_from-hit fuel ps p b x e h = rw (e, before_from) (rw h)

before_from-miss :
    (fuel : ℕ) (ps : List Process) (p b x : ℕ)
    → (proc_at ps p).next ≡ some x
    → x == b ≡ false
    → before_from (suc fuel) ps (some p) b ≡ before_from fuel ps (some x) b
unfolding before_from
before_from-miss fuel ps p b x e h =
    rw (e, before_from) (rw h (ap (λ n. before_from fuel ps n b) e))

before_from-Bypassed :
    (fuel : ℕ) (ps : List Process) (p b : ℕ) (q : List ℕ)
    → Chain ps (some p) (p ∷ q)
    → Distinct (p ∷ q)
    → member b q ≡ true
    → length q ≤ fuel
    → Bypassed ps p b q (before_from fuel ps (some p) b)
before_from-Bypassed zero ps p b [] c d e f = absurd (cc)
before_from-Bypassed (suc fuel) ps p b [] c d e f = absurd (cc)
before_from-Bypassed zero ps p b (x ∷ q) c d e f = absurd (omega arith)
before_from-Bypassed (suc fuel) ps p b (x ∷ q) c d e f = elim (Bool-cases (x == b)) [
  | inl here ↦
      let same : x ≡ b = ground arith in
      let new = record (proc_at ps p) { next = (proc_at ps b).next } in
      let rest : Chain (set ps p new) (proc_at ps b).next q =
        Chain-set_outside ps p new (proc_at ps b).next q (rw (← same) c.2.2)
          (ground (arith, d.0)) in
      rw (before_from-hit fuel ps p b x c.2.0 here) (record {
        prev = p;
        found = refl;
        linked = (
          refl,
          omega (arith, length-set ps p new, c.1),
          rw (here, proc_at-set_self ps p new c.1) rest,
        );
        apart = λ j m x. ground arith;
      })
  | inr later ↦
      let t =
        before_from-Bypassed fuel ps x b q (refl, c.2.1, c.2.2) d.1 (ground arith) (omega arith) in
      let new = record (proc_at ps t.prev) { next = (proc_at ps b).next } in
      let same : proc_at (set ps t.prev new) p ≡ proc_at ps p =
        proc_at-set_ne ps t.prev p new (t.apart p d.0) in
      rw (before_from-miss fuel ps p b x c.2.0 later) (record {
        prev = t.prev;
        found = t.found;
        linked = (
          refl,
          omega (arith, length-set ps t.prev new, c.1),
          rw later (ap (λ (y : Process). y.next) same ∙ c.2.0, t.linked.1, t.linked.2),
        );
        apart = λ j m. t.apart j (ground arith);
      })
]

-- The queue without `b`, before its own `next` field is cleared.
abbrev unlinked : Sched → ℕ → Sched
unlinked s b =
    if points_to s.ready_queue b
    then record s { ready_queue = (proc_at s.procs b).next }
    else bypass s (before_from (length s.procs) s.procs s.ready_queue b) b

unlinked-Holds :
    (s : Sched) (b : ℕ) (q : List ℕ)
    → Holds s q
    → member b q ≡ true
    → Holds (unlinked s b) (erase b q)
unlinked-Holds s b [] v e = absurd (cc)
unlinked-Holds s b (h ∷ q) v e = elim (Bool-cases (h == b)) [
  | inl here ↦
      let same : h ≡ b = ground arith in
      rw (v.chain.0, here) (record { chain = rw (← same) v.chain.2; distinct = v.distinct.1 })
  | inr later ↦
      let room = length-Chain s.procs s.ready_queue (h ∷ q) v.chain v.distinct in
      let t =
        before_from-Bypassed (length s.procs) s.procs h b q (refl, v.chain.1, v.chain.2) v.distinct
          (ground arith) (omega arith) in
      let d : Distinct (h ∷ erase b q) = rw later at (Distinct-erase b (h ∷ q) v.distinct) in
      rw (v.chain.0, later, t.found) (record { chain = t.linked; distinct = d })
]

-- Where the ready queue links distinct slots of the table, `unlink` takes a queued process out and
-- leaves the others in their order.
pub unlink-Holds :
    (s : Sched) (b : ℕ) (q : List ℕ)
    → Holds s q
    → member b q ≡ true
    → Holds (unlink s b) (erase b q)
unfolding unlink
unlink-Holds s b q v e =
    let u = unlinked-Holds s b q v e in
    record {
      chain =
          Chain-set_outside (unlinked s b).procs b
            (record (proc_at (unlinked s b).procs b) { next = none }) (unlinked s b).ready_queue
            (erase b q) u.chain (member-erase_self b q v.distinct);
      distinct = u.distinct;
    }
