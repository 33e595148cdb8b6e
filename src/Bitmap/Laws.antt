-- ===== src/Bitmap/Laws.antt =====
-- What a bit reads after a bit is set or cleared.
use agentic_os_harness.Common.{
  ℕ, zero, suc, ◌*◌, ◌/◌, ◌%◌, ◌≤◌, ◌<◌, ◌≡◌, refl, Bool, true, false, not, ◌&&◌, ◌||◌, List, arith,
  ltb, ◌==◌, length, get_or, set, set-set, set-get_or, All, All-set, All-get_or, length-set,
  get_or-set,
}
use agentic_os_harness.Bitmap.{test_bit, set_bit, clear_bit, bitmap_test, bitmap_set, bitmap_clear}

-- Whether a test passes on each number under a bound.
unfoldable pub every_under : (ℕ → Bool) → ℕ → Bool
every_under passes zero = true
every_under passes (suc bound) = every_under passes bound && passes bound

pub every_under-at :
    (passes : ℕ → Bool) {bound : ℕ} (k : ℕ)
    → k < bound
    → every_under passes bound ≡ true
    → passes k ≡ true
unfolding every_under
every_under-at passes {bound = zero} k below e = elim below [ ]
every_under-at passes {bound = suc bound} k below e =
    ground (arith, every_under-at passes {bound = bound} k)

abbrev same : Bool → Bool → Bool
same true b = b
same false b = not b

same_sound : (a b : Bool) → same a b ≡ true → a ≡ b
same_sound true b h = ground arith
same_sound false b h = ground arith

-- A byte stays a byte, and bit `j` reads as it should after bit `k` is written.
abbrev bit_check : ℕ → ℕ → ℕ → Bool
bit_check b k j =
    ltb (set_bit b k) 256
    && ltb (clear_bit b k) 256
    && same (test_bit (set_bit b k) j) (k == j || test_bit b j)
    && same (test_bit (clear_bit b k) j) (not (k == j) && test_bit b j)

bit_table : every_under (λ b. every_under (λ k. every_under (λ j. bit_check b k j) 8) 8) 256 ≡ true
unfolding every_under test_bit set_bit clear_bit
bit_table = refl

bit_check_holds : (b k j : ℕ) → b < 256 → k < 8 → j < 8 → bit_check b k j ≡ true
bit_check_holds b k j hb hk hj =
    every_under-at (λ j. bit_check b k j) j hj
      (every_under-at (λ k. every_under (λ j. bit_check b k j) 8) k hk
        (every_under-at (λ b. every_under (λ k. every_under (λ j. bit_check b k j) 8) 8) b hb
          bit_table))

-- A bitmap holds bytes, `n` bits at least.
pub record IsBitmap (bitmap : List ℕ) (n : ℕ) : Type 0 where
  pub room : n ≤ 8 * length bitmap
  pub bytes : All (λ b. b < 256) bitmap

byte-lt : {bm : List ℕ} {n : ℕ} (i : ℕ) → IsBitmap bm n → get_or bm i 0 < 256
byte-lt {bm} i v = All-get_or (λ b. b < 256) bm i 0 (omega arith) v.bytes

bit_laws :
    (b k j : ℕ)
    → b < 256
    → k < 8
    → j < 8
    → (set_bit b k < 256)
      × (clear_bit b k < 256)
      × (test_bit (set_bit b k) j ≡ (k == j || test_bit b j))
      × (test_bit (clear_bit b k) j ≡ (not (k == j) && test_bit b j))
bit_laws b k j hb hk hj = split (bit_check_holds b k j hb hk hj)
  where
    split :
        bit_check b k j ≡ true
        → (set_bit b k < 256)
          × (clear_bit b k < 256)
          × (test_bit (set_bit b k) j ≡ (k == j || test_bit b j))
          × (test_bit (clear_bit b k) j ≡ (not (k == j) && test_bit b j))
    split h = ground arith

-- Bits `i` and `j` stand in one byte, or they are different bits.
bit_place : (i j : ℕ) → i / 8 ≡ j / 8 → (i % 8 == j % 8) ≡ (i == j)
bit_place i j e = ground arith

-- After `bitmap_set` bit `i` reads 1, and every other bit reads what it read before.
pub bitmap_test-set :
    (bm : List ℕ) (n i j : ℕ)
    → IsBitmap bm n
    → i < n
    → bitmap_test (bitmap_set bm i) j ≡ (i == j || bitmap_test bm j)
unfolding bitmap_test bitmap_set
bitmap_test-set bm n i j v h = ground (
  arith,
  get_or-set bm (i / 8) (j / 8) (set_bit (get_or bm (i / 8) 0) (i % 8)) 0 (omega arith),
  bit_laws (get_or bm (i / 8) 0) (i % 8) (j % 8) (byte-lt (i / 8) v) (omega arith) (omega arith),
  bit_place i j,
)

pub bitmap_test-clear :
    (bm : List ℕ) (n i j : ℕ)
    → IsBitmap bm n
    → i < n
    → bitmap_test (bitmap_clear bm i) j ≡ (not (i == j) && bitmap_test bm j)
unfolding bitmap_test bitmap_clear
bitmap_test-clear bm n i j v h = ground (
  arith,
  get_or-set bm (i / 8) (j / 8) (clear_bit (get_or bm (i / 8) 0) (i % 8)) 0 (omega arith),
  bit_laws (get_or bm (i / 8) 0) (i % 8) (j % 8) (byte-lt (i / 8) v) (omega arith) (omega arith),
  bit_place i j,
)

pub bitmap_set-IsBitmap : (bm : List ℕ) (n i : ℕ) → IsBitmap bm n → IsBitmap (bitmap_set bm i) n
unfolding bitmap_set
bitmap_set-IsBitmap bm n i v = record {
  room = omega (arith, length-set bm (i / 8) (set_bit (get_or bm (i / 8) 0) (i % 8)), v.room);
  bytes =
      All-set (λ b. b < 256) bm (i / 8) (set_bit (get_or bm (i / 8) 0) (i % 8))
        (bit_laws (get_or bm (i / 8) 0) (i % 8) 0 (byte-lt (i / 8) v) (omega arith) (omega arith)).0
        v.bytes;
}

pub bitmap_clear-IsBitmap : (bm : List ℕ) (n i : ℕ) → IsBitmap bm n → IsBitmap (bitmap_clear bm i) n
unfolding bitmap_clear
bitmap_clear-IsBitmap bm n i v = record {
  room = omega (arith, length-set bm (i / 8) (clear_bit (get_or bm (i / 8) 0) (i % 8)), v.room);
  bytes =
      All-set (λ b. b < 256) bm (i / 8) (clear_bit (get_or bm (i / 8) 0) (i % 8))
        (bit_laws (get_or bm (i / 8) 0) (i % 8) 0 (byte-lt (i / 8) v) (omega arith) (omega arith)).1
        v.bytes;
}

-- Clearing a bit that was just set gives the byte back.
abbrev undo_check : ℕ → ℕ → Bool
undo_check b k = test_bit b k || clear_bit (set_bit b k) k == b

undo_table : every_under (λ b. every_under (λ k. undo_check b k) 8) 256 ≡ true
unfolding every_under test_bit set_bit clear_bit
undo_table = refl

clear_bit-set_bit :
    (b k : ℕ) → b < 256 → k < 8 → test_bit b k ≡ false → clear_bit (set_bit b k) k ≡ b
clear_bit-set_bit b k hb hk e =
    let h : undo_check b k ≡ true =
      every_under-at (λ k. undo_check b k) k hk
        (every_under-at (λ b. every_under (λ k. undo_check b k) 8) b hb undo_table) in
    ground arith

-- Setting a clear bit and clearing it again gives the bitmap back.
pub bitmap_clear-set :
    (bm : List ℕ) (n i : ℕ)
    → IsBitmap bm n
    → i < n
    → bitmap_test bm i ≡ false
    → bitmap_clear (bitmap_set bm i) i ≡ bm
unfolding bitmap_test bitmap_set bitmap_clear
bitmap_clear-set bm n i v h e =
    let b = get_or bm (i / 8) 0 in
    let k = i % 8 in
    let q : get_or (set bm (i / 8) (set_bit b k)) (i / 8) 0 ≡ set_bit b k =
      ground (arith, get_or-set bm (i / 8) (i / 8) (set_bit b k) 0 (omega (arith, v.room))) in
    rw (q, set-set, clear_bit-set_bit b k (byte-lt (i / 8) v) (omega arith) e)
      (set-get_or bm (i / 8) 0)
