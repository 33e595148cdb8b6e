-- ===== src/Common/Memory.antt =====
-- Memory as a byte, or a word, for each address, and 32-bit words as four bytes.
use Prim.Native.Nat.{ℕ, zero, suc, ◌+◌, ◌*◌, ◌/◌, ◌%◌}
use mathlib.Core.List.{List, [], ◌∷◌}
use agentic_os_harness.Common.Tests.{◌==◌, if◌then◌else◌}
use agentic_os_harness.Common.Lists.{get_or}

-- `n` bytes from `address` on.
abbrev pub bytes_from : (ℕ → ℕ) → ℕ → ℕ → List ℕ
bytes_from mem zero address = []
bytes_from mem (suc n) address = mem address ∷ bytes_from mem n (address + 1)

-- Memory with `bytes` from `address` on.
abbrev pub store_bytes : (ℕ → ℕ) → ℕ → List ℕ → ℕ → ℕ
store_bytes mem address [] = mem
store_bytes mem address (b ∷ bs) =
    store_bytes (λ x. if x == address then b else mem x) (address + 1) bs

-- The bytes of a `uint32_t`, the lowest first.
abbrev pub word_bytes : ℕ → List ℕ
word_bytes w = w % 256 ∷ w / 256 % 256 ∷ w / 65536 % 256 ∷ w / 16777216 % 256 ∷ []

-- The `uint32_t` at index `i` of an array of bytes.
abbrev pub word_at : List ℕ → ℕ → ℕ
word_at bytes i =
    get_or bytes i 0
    + get_or bytes (i + 1) 0 * 256
    + get_or bytes (i + 2) 0 * 65536
    + get_or bytes (i + 3) 0 * 16777216
