-- ===== src/Bitmap.antt =====
-- The allocation bitmaps: `bitmap_set`, `bitmap_clear` and `bitmap_test` of kernel/frame.c, which
-- kernel/simplefs.c repeats for sectors. A bitmap is an array of bytes.
pub mod Laws
pub mod Count
use agentic_os_harness.Common.{
  ℕ, ◌-◌, ◌/◌, ◌%◌, ◌^◌, Bool, List, bit_and, bit_or, ◌==◌, get_or, set,
}

-- (byte >> k) & 1
unfoldable pub test_bit : ℕ → ℕ → Bool
test_bit byte k = bit_and (byte / 2 ^ k) 1 == 1

-- byte |= (uint8_t)(1u << k)
unfoldable pub set_bit : ℕ → ℕ → ℕ
set_bit byte k = bit_or byte (2 ^ k)

-- byte &= (uint8_t)~(1u << k)
unfoldable pub clear_bit : ℕ → ℕ → ℕ
clear_bit byte k = bit_and byte (255 - 2 ^ k)

unfoldable pub bitmap_test : List ℕ → ℕ → Bool
bitmap_test bitmap frame = test_bit (get_or bitmap (frame / 8) 0) (frame % 8)

unfoldable pub bitmap_set : List ℕ → ℕ → List ℕ
bitmap_set bitmap frame = set bitmap (frame / 8) (set_bit (get_or bitmap (frame / 8) 0) (frame % 8))

unfoldable pub bitmap_clear : List ℕ → ℕ → List ℕ
bitmap_clear bitmap frame =
    set bitmap (frame / 8) (clear_bit (get_or bitmap (frame / 8) 0) (frame % 8))
