-- ===== src/Common/Words.antt =====
-- Machine words: sums and differences with the wrap-around written out.
use Prim.Native.Nat.{ℕ, ◌+◌, ◌-◌, ◌%◌, ◌^◌}

abbrev pub u16_mod : ℕ
u16_mod = 2 ^ 16

abbrev pub u32_mod : ℕ
u32_mod = 2 ^ 32

abbrev pub u64_mod : ℕ
u64_mod = 2 ^ 64

abbrev pub add32 : ℕ → ℕ → ℕ
add32 x y = (x + y) % u32_mod

abbrev pub sub32 : ℕ → ℕ → ℕ
sub32 x y = (x + u32_mod - y) % u32_mod

abbrev pub add64 : ℕ → ℕ → ℕ
add64 x y = (x + y) % u64_mod
