-- ===== src/Strings.antt =====
-- kernel/string.c: the loops over bytes, on a memory that holds a byte for each address. A block lies
-- below the end of the address space, so an address does not wrap. A loop that only a 0 byte ends has
-- fuel, and `none` is to run out of it.
pub mod Blocks
pub mod Compare
mod Tests
use agentic_os_harness.Common.{
  ℕ, zero, suc, ◌+◌, ◌-◌, ◌%◌, Bool, true, false, not, ◌||◌, ◌&&◌, Option, none, some, ltb, leb,
  ◌==◌, if◌then◌else◌, ℤ, pos, negsuc,
}

-- `*address = byte`
abbrev pub put : (ℕ → ℕ) → ℕ → ℕ → ℕ → ℕ
put mem address byte x = if x == address then byte else mem x

-- `while (n--) { *d++ = *s++; }`
unfoldable pub copy_up : (ℕ → ℕ) → ℕ → ℕ → ℕ → ℕ → ℕ
copy_up mem d s zero = mem
copy_up mem d s (suc n) = copy_up (put mem d (mem s)) (d + 1) (s + 1) n

-- `while (n--) { *--d = *--s; }`, from `d + n` and `s + n` down
unfoldable pub copy_down : (ℕ → ℕ) → ℕ → ℕ → ℕ → ℕ → ℕ
copy_down mem d s zero = mem
copy_down mem d s (suc n) = copy_down (put mem (d + n) (mem (s + n))) d s n

unfoldable pub memcpy : (ℕ → ℕ) → ℕ → ℕ → ℕ → ℕ → ℕ
unfolding copy_up
memcpy mem dest src n = copy_up mem dest src n

unfoldable pub memset : (ℕ → ℕ) → ℕ → ℕ → ℕ → ℕ → ℕ
memset mem s c zero = mem
memset mem s c (suc n) = memset (put mem s (c % 256)) (s + 1) c n

unfoldable pub memmove : (ℕ → ℕ) → ℕ → ℕ → ℕ → ℕ → ℕ
unfolding copy_up copy_down
memmove mem dest src n = if ltb dest src then copy_up mem dest src n else copy_down mem dest src n

-- The difference of two bytes as an `int`.
abbrev pub difference : ℕ → ℕ → ℤ
difference a b = if leb b a then pos (a - b) else negsuc (b - a - 1)

unfoldable pub memcmp : (ℕ → ℕ) → ℕ → ℕ → ℕ → ℤ
memcmp mem s1 s2 zero = pos 0
memcmp mem s1 s2 (suc n) =
    let rest = memcmp mem (s1 + 1) (s2 + 1) n in
    if not (mem s1 == mem s2) then difference (mem s1) (mem s2) else rest

unfoldable pub strcmp : ℕ → (ℕ → ℕ) → ℕ → ℕ → Option ℤ
strcmp zero mem s1 s2 = none
strcmp (suc fuel) mem s1 s2 =
    let rest = strcmp fuel mem (s1 + 1) (s2 + 1) in
    if not (mem s1 == 0) && mem s1 == mem s2 then rest else some (difference (mem s1) (mem s2))

unfoldable pub strncmp : (ℕ → ℕ) → ℕ → ℕ → ℕ → ℤ
strncmp mem s1 s2 zero = pos 0
strncmp mem s1 s2 (suc n) =
    let rest = strncmp mem (s1 + 1) (s2 + 1) n in
    if not (mem s1 == 0) && mem s1 == mem s2 then rest else difference (mem s1) (mem s2)

-- The loop of `strlen`, which has counted `len` characters.
unfoldable pub length_from : ℕ → (ℕ → ℕ) → ℕ → ℕ → Option ℕ
length_from zero mem s len = none
length_from (suc fuel) mem s len =
    let rest = length_from fuel mem (s + 1) (len + 1) in if mem s == 0 then some len else rest

unfoldable pub strlen : ℕ → (ℕ → ℕ) → ℕ → Option ℕ
unfolding length_from
strlen fuel mem s = length_from fuel mem s 0
