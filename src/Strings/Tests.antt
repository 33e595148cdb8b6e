-- ===== src/Strings/Tests.antt =====
-- Runs of kernel/string.c on a small memory.
use agentic_os_harness.Common.{
  ℕ, ◌+◌, ◌-◌, ◌<◌, ◌≡◌, ◌≢◌, refl, [], ◌∷◌, arith, if◌then◌else◌, get_or, zero, suc,
}
use agentic_os_harness.Strings.{memmove, strcmp}
use agentic_os_harness.Strings.Blocks.{in_block, memmove-in_block}
use agentic_os_harness.Strings.Compare.{IsString, Compares, strcmp-Compares}

-- The strings "ab" at 0 and "ac" at 3.
abbrev memory : ℕ → ℕ
memory x = get_or (97 ∷ 98 ∷ 0 ∷ 97 ∷ 99 ∷ 0 ∷ []) x 0

-- The blocks overlap.
memmove-in_block_example :
    memmove memory 1 0 4 3 ≡ (if in_block 1 4 3 then memory (0 + (3 - 1)) else memory 3)
memmove-in_block_example = memmove-in_block memory 1 0 4 3

memory-IsString : IsString memory 0 2
memory-IsString = record { ends = refl; inside = characters }
  where
    characters : (i : ℕ) → i < 2 → memory (0 + i) ≢ 0
    characters zero h e = absurd (omega (arith, e))
    characters (suc zero) h e = absurd (omega (arith, e))
    characters (suc (suc i)) h e = absurd (omega arith)

strcmp-Compares_example : Compares memory 0 3 3 (strcmp 3 memory 0 3)
strcmp-Compares_example = strcmp-Compares 3 memory 0 3 2 memory-IsString (omega arith)
