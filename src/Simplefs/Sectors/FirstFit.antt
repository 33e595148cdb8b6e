-- ===== src/Simplefs/Sectors/FirstFit.antt =====
-- The search of kernel/simplefs.c for free sectors, and the marking of a run.
use agentic_os_harness.Common.{
  ℕ, zero, suc, ◌+◌, ◌≤◌, ◌<◌, ◌≡◌, refl, ap, ◌∙◌, Bool, true, false, ◌&&◌, ◌||◌, Option, none,
  some, List, arith, ltb, leb, ◌==◌, Bool-cases, inl, inr,
}
use agentic_os_harness.Bitmap.{bitmap_test, bitmap_set}
use agentic_os_harness.Bitmap.Laws.{IsBitmap, bitmap_test-set, bitmap_set-IsBitmap}
use agentic_os_harness.Simplefs.Sectors.{mark_from, free_run, find_run}
use agentic_os_harness.Common.{ap, Option, some, ◌<◌}
use agentic_os_harness.Bitmap.Laws.{IsBitmap}
use agentic_os_harness.Common.{inl, inr, ltb, leb, ◌==◌}

-- The `count` sectors from `start` on are free.
abbrev pub IsFree : List ℕ → ℕ → ℕ → Type 0
IsFree used count start = (j : ℕ) → start ≤ j → j < start + count → bitmap_test used j ≡ false

-- What the search for a run answers, from `start` to `last`.
abbrev pub Searched : List ℕ → ℕ → ℕ → ℕ → Option ℕ → Type 0
Searched used count last start none = (k : ℕ) → start ≤ k → k ≤ last → IsFree used count k → ⊥
Searched used count last start (some k) =
    (start ≤ k)
    × (k ≤ last)
    × IsFree used count k
    × ((m : ℕ) → start ≤ m → m < k → IsFree used count m → ⊥)

-- The sectors from `start` on that `free_run` counts are free; if they are fewer than `n`, the next is not.
record Counted (used : List ℕ) (n start run : ℕ) : Type 0 where
  bound : run ≤ n
  free : IsFree used run start
  stop : run < n → bitmap_test used (start + run) ≡ true

free_run-Counted : (used : List ℕ) (n start : ℕ) → Counted used n start (free_run used n start)
unfolding free_run
free_run-Counted used zero start = record {
  bound = omega arith;
  free = λ j a b. absurd (omega arith);
  stop = λ h. absurd (omega arith);
}
free_run-Counted used (suc n) start = elim (Bool-cases (bitmap_test used start)) [
  | inl hit ↦
      rw (hit, free_run)
        (record {
          bound = omega arith;
          free = λ j a b. absurd (omega arith);
          stop = λ h. ap (bitmap_test used) (omega arith) ∙ hit;
        })
  | inr clear ↦
      let c = free_run-Counted used n (start + 1) in
      rw (clear, free_run)
        (record {
          bound = omega (arith, c.bound);
          free = λ j a b. elim (Bool-cases (j == start)) [
            | inl here ↦ ap (bitmap_test used) (ground arith) ∙ clear
            | inr there ↦ c.free j (ground arith) (omega arith)
          ];
          stop = λ h. ap (bitmap_test used) (omega arith) ∙ c.stop (omega arith);
        })
]

-- A run that reaches the used sector `at` is not free.
blocked :
    (used : List ℕ) (count m at : ℕ)
    → bitmap_test used at ≡ true
    → m ≤ at
    → at < m + count
    → IsFree used count m
    → ⊥
blocked used count m at t a b f = ground (arith, f at a b, t)

-- Enough rounds search the whole range.
pub find_run-Searched :
    (fuel : ℕ) (used : List ℕ) (count last start : ℕ)
    → last < start + fuel
    → 0 < count
    → Searched used count last start (find_run fuel used count last start)
unfolding find_run
find_run-Searched zero used count last start enough some_sector = λ k a b f. absurd (omega arith)
find_run-Searched (suc fuel) used count last start enough some_sector =
    let run = free_run used count start in
    let c = free_run-Counted used count start in
    elim (Bool-cases (ltb last start)) [
      | inl over ↦ rw over (λ k a b f. absurd (ground arith))
      | inr inside ↦ elim (Bool-cases (run == count)) [
        | inl whole ↦
            let e : run ≡ count = ground arith in
            rw (inside, whole)
              (
                omega arith,
                ground arith,
                (λ j a b. c.free j a (omega (arith, e, b))),
                (λ m a b f. absurd (omega arith)),
              )
        | inr short ↦
            let less : run < count = ground (arith, c.bound) in
            rw (inside, short)
              (further used count last start run (find_run fuel used count last (start + run + 1))
                (λ m a b f. blocked used count m (start + run) (c.stop less) b (omega arith) f)
                (find_run-Searched fuel used count last (start + run + 1) (omega arith)
                  some_sector))
      ]
    ]
  where
    further :
        (used : List ℕ) (count last start run : ℕ) (r : Option ℕ)
        → ((m : ℕ) → start ≤ m → m ≤ start + run → IsFree used count m → ⊥)
        → Searched used count last (start + run + 1) r
        → Searched used count last start r
    further used count last start run none low high = λ k a b f.
        elim (Bool-cases (leb k (start + run))) [
          | inl l ↦ low k a (ground arith) f
          | inr g ↦ high k (ground arith) b f
        ]
    further used count last start run (some k) low high = (
      omega (arith, high.0),
      high.1,
      high.2,
      λ m a b f. elim (Bool-cases (leb m (start + run))) [
        | inl l ↦ low m a (ground arith) f
        | inr g ↦ high.3 m (ground arith) b f
      ],
    )

-- Whether sector `j` is in the run.
abbrev pub in_run : ℕ → ℕ → ℕ → Bool
in_run start count j = leb start j && ltb j (start + count)

-- Marking a free run marks it and nothing else.
pub record Marked (used : List ℕ) (bits start count : ℕ) (r : Bool × List ℕ) : Type 0 where
  pub map : List ℕ
  pub result : r ≡ (true, map)
  pub valid : IsBitmap map bits
  pub reads : (j : ℕ) → bitmap_test map j ≡ (in_run start count j || bitmap_test used j)

pub mark_from-Marked :
    (count start bits : ℕ) (used : List ℕ)
    → IsBitmap used bits
    → start + count ≤ bits
    → IsFree used count start
    → Marked used bits start count (mark_from count start used)
unfolding mark_from
mark_from-Marked zero start bits used v inside free = record {
  map = used;
  result = refl;
  valid = v;
  reads = λ j. ground arith;
}
mark_from-Marked (suc count) start bits used v inside free =
    let clear : bitmap_test used start ≡ false = free start (omega arith) (omega arith) in
    let set_reads = λ (j : ℕ). bitmap_test-set used bits start j v (omega arith) in
    let m =
      mark_from-Marked count (start + 1) bits (bitmap_set used start)
        (bitmap_set-IsBitmap used bits start v) (omega arith)
        (λ j a b. ground (arith, set_reads j, free j (omega arith) (omega arith))) in
    rw (clear, mark_from)
      (record {
        map = m.map;
        result = m.result;
        valid = m.valid;
        reads = λ j. ground (arith, m.reads j, set_reads j);
      })
