-- ===== src/Bitmap/Count.antt =====
-- How many of the first `n` bits of a bitmap are set.
use agentic_os_harness.Common.{
  ℕ, zero, suc, ◌+◌, ◌≤◌, ◌<◌, ◌≡◌, Bool, true, false, List, arith, ltb, if◌then◌else◌,
}
use agentic_os_harness.Bitmap.{bitmap_test, bitmap_set, bitmap_clear}
use agentic_os_harness.Bitmap.Laws.{IsBitmap, bitmap_test-set, bitmap_test-clear}

abbrev pub bit_value : Bool → ℕ
bit_value true = 1
bit_value false = 0

unfoldable pub count_set : List ℕ → ℕ → ℕ
count_set bm zero = 0
count_set bm (suc n) = count_set bm n + bit_value (bitmap_test bm n)

pub count_set-le : (bm : List ℕ) (n : ℕ) → count_set bm n ≤ n
unfolding count_set
count_set-le bm zero = omega arith
count_set-le bm (suc n) = ground (arith, count_set-le bm n)

-- Some bit is set, so the count is not 0.
pub count_set-pos : (bm : List ℕ) (n i : ℕ) → i < n → bitmap_test bm i ≡ true → 0 < count_set bm n
unfolding count_set
count_set-pos bm zero i h e = absurd (omega arith)
count_set-pos bm (suc n) i h e = grind (arith, count_set-pos bm n i)

module _ (bm : List ℕ) (total i : ℕ) (v : IsBitmap bm total) (inside : i < total) where
  pub count_set-set :
      bitmap_test bm i ≡ false
      → (n : ℕ) → count_set (bitmap_set bm i) n ≡ count_set bm n + (if ltb i n then 1 else 0)
  unfolding count_set
  count_set-set e zero = ground arith
  count_set-set e (suc n) = ground (arith, count_set-set e n, bitmap_test-set bm total i n v inside)

  pub count_set-clear :
      bitmap_test bm i ≡ true
      → (n : ℕ) → count_set bm n ≡ count_set (bitmap_clear bm i) n + (if ltb i n then 1 else 0)
  unfolding count_set
  count_set-clear e zero = ground arith
  count_set-clear e (suc n) =
      ground (arith, count_set-clear e n, bitmap_test-clear bm total i n v inside)
