-- ===== src/Strings/Blocks.antt =====
-- The block functions of kernel/string.c: what each address holds afterwards.
use agentic_os_harness.Common.{
  ℕ, zero, suc, ◌+◌, ◌-◌, ◌≤◌, ◌≡◌, Bool, ◌&&◌, arith, ltb, leb, if◌then◌else◌, ◌⊎◌, ◌∙◌,
}
use agentic_os_harness.Strings.{put, copy_up, copy_down}
use agentic_os_harness.Strings.{memmove, memcpy, memset}
use agentic_os_harness.Common.{Bool-cases, ◌%◌, inl, inr, ◌⊎◌}

-- Whether `x` is one of the `n` addresses from `start` on.
abbrev pub in_block : ℕ → ℕ → ℕ → Bool
in_block start n x = leb start x && ltb x (start + n)

copy_up-in_block :
    (n : ℕ) (mem : ℕ → ℕ) (d s x : ℕ)
    → (d ≤ s) ⊎ (s + n ≤ d)
    → copy_up mem d s n x ≡ (if in_block d n x then mem (s + (x - d)) else mem x)
unfolding copy_up
copy_up-in_block zero mem d s x apart = ground arith
copy_up-in_block (suc n) mem d s x apart =
    copy_up-in_block n (put mem d (mem s)) (d + 1) (s + 1) x (ground (arith, apart)) ∙ grind arith

copy_down-in_block :
    (n : ℕ) (mem : ℕ → ℕ) (d s x : ℕ)
    → s ≤ d
    → copy_down mem d s n x ≡ (if in_block d n x then mem (s + (x - d)) else mem x)
unfolding copy_down
copy_down-in_block zero mem d s x below = ground arith
copy_down-in_block (suc n) mem d s x below =
    copy_down-in_block n (put mem (d + n) (mem (s + n))) d s x below ∙ grind arith

-- `memmove` copies a block as it was, however the two blocks overlap: each address of the destination
-- holds what its source held before, and every other address what it held.
pub memmove-in_block :
    (mem : ℕ → ℕ) (dest src n x : ℕ)
    → memmove mem dest src n x ≡ (if in_block dest n x then mem (src + (x - dest)) else mem x)
unfolding memmove
memmove-in_block mem dest src n x = elim (Bool-cases (ltb dest src)) [
  | inl below ↦ rw below (copy_up-in_block n mem dest src x (inl (ground arith)))
  | inr above ↦ rw above (copy_down-in_block n mem dest src x (ground arith))
]

-- So does `memcpy` for blocks that do not overlap, or where the destination stands below the source.
pub memcpy-in_block :
    (mem : ℕ → ℕ) (dest src n x : ℕ)
    → (dest ≤ src) ⊎ (src + n ≤ dest)
    → memcpy mem dest src n x ≡ (if in_block dest n x then mem (src + (x - dest)) else mem x)
unfolding memcpy
memcpy-in_block mem dest src n x apart = copy_up-in_block n mem dest src x apart

pub memset-in_block :
    (n : ℕ) (mem : ℕ → ℕ) (s c x : ℕ)
    → memset mem s c n x ≡ (if in_block s n x then c % 256 else mem x)
unfolding memset
memset-in_block zero mem s c x = ground arith
memset-in_block (suc n) mem s c x =
    memset-in_block n (put mem s (c % 256)) (s + 1) c x ∙ grind arith
