-- ===== src/Frame/Invariant/Init.antt =====
-- `frame_init` establishes the invariant, whatever the memory map.
use agentic_os_harness.Common.{
  ℕ, zero, suc, ◌+◌, ◌*◌, ◌/◌, ◌%◌, ◌≤◌, ◌<◌, ◌≡◌, refl, sym, true, not, List, [], ◌∷◌, arith, ltb,
  ◌==◌, if◌then◌else◌, length, get_or, replicate, length-replicate, get_or-replicate, All,
  All-replicate, u16_mod, u32_mod,
}
use agentic_os_harness.Bitmap.{bitmap_test, test_bit}
use agentic_os_harness.Bitmap.Laws.{every_under, every_under-at}
use agentic_os_harness.Bitmap.Count.{count_set}
use agentic_os_harness.E820.{Entry, MemoryMap, e820_is_available, e820_usable}
use agentic_os_harness.Frame.{
  Frames, max_frames, blank_frames, initial_refcounts, free_usable, mark_free, frame_init,
  tracked_total, free_entry, free_memory, frame_size, max_tracked_memory, tracked_end,
  reserved_low_end, align_up,
}
use agentic_os_harness.Frame.Invariant.{IsConsistent, IsConsistent-if}
use agentic_os_harness.Frame.Invariant.Loops.{mark_allocated-Kept, mark_free-Kept}

full_byte_table : every_under (λ k. test_bit 0xFF k) 8 ≡ true
unfolding test_bit every_under
full_byte_table = refl

bitmap_test-full : (n i : ℕ) → i < 8 * n → bitmap_test (replicate {A = ℕ} n 0xFF) i ≡ true
unfolding bitmap_test
bitmap_test-full n i h =
    rw (get_or-replicate {A = ℕ} n (i / 8) 0xFF 0 (omega arith))
      (every_under-at (λ k. test_bit 0xFF k) (i % 8) (omega arith) full_byte_table)

count_set-full : (n k : ℕ) → k ≤ 8 * n → count_set (replicate {A = ℕ} n 0xFF) k ≡ k
unfolding count_set
count_set-full n zero h = refl
count_set-full n (suc k) h =
    ground (arith, count_set-full n k (omega arith), bitmap_test-full n k (omega arith))

length-initial_refcounts : (n i total : ℕ) → length (initial_refcounts n i total) ≡ n
unfolding initial_refcounts
length-initial_refcounts zero i total = refl
length-initial_refcounts (suc n) i total = omega (arith, length-initial_refcounts n (i + 1) total)

initial_refcounts-small : (n i total : ℕ) → All (λ r. r < u16_mod) (initial_refcounts n i total)
unfolding initial_refcounts
initial_refcounts-small zero i total = tt
initial_refcounts-small (suc n) i total = (ground arith, initial_refcounts-small n (i + 1) total)

get_or-initial_refcounts :
    (n i total k : ℕ) → k < n → i + k < total → get_or (initial_refcounts n i total) k 0 ≡ 1
unfolding initial_refcounts
get_or-initial_refcounts zero i total k h p = absurd (omega arith)
get_or-initial_refcounts (suc n) i total zero h p = ground arith
get_or-initial_refcounts (suc n) i total (suc k) h p =
    get_or-initial_refcounts n (i + 1) total k (omega arith) (omega arith)

blank_frames-IsConsistent : (total : ℕ) → total ≤ max_frames → IsConsistent (blank_frames total)
unfolding blank_frames
blank_frames-IsConsistent total h = record {
  bits = record {
    room = omega (arith, length-replicate {A = ℕ} (max_frames / 8) 0xFF);
    bytes = All-replicate (λ (b : ℕ). b < 256) (max_frames / 8) 0xFF (omega arith);
  };
  refs_room = omega (arith, length-initial_refcounts max_frames 0 total);
  refs_small = initial_refcounts-small max_frames 0 total;
  tracked = h;
  counted = sym (count_set-full (max_frames / 8) total (omega arith));
  agree = λ f p. ground (
    arith,
    bitmap_test-full (max_frames / 8) f (omega arith),
    get_or-initial_refcounts max_frames 0 total f (omega arith) (omega arith),
  );
}

free_entry-IsConsistent : (s : Frames) (e : Entry) → IsConsistent s → IsConsistent (free_entry s e)
unfolding free_entry
free_entry-IsConsistent s e v =
    let freed = mark_free (e.base % u32_mod) (tracked_end e) s in
    let inner : IsConsistent (if ltb max_tracked_memory e.base then s else freed) =
      IsConsistent-if (ltb max_tracked_memory e.base) {t = freed} (λ q. v)
        (λ q. (mark_free-Kept (e.base % u32_mod) (tracked_end e) s v).0) in
    IsConsistent-if (not (e.type == e820_usable)) (λ p. v) (λ p. inner)

free_usable-IsConsistent :
    (es : List Entry) (s : Frames) → IsConsistent s → IsConsistent (free_usable es s)
unfolding free_usable
free_usable-IsConsistent [] s v = v
free_usable-IsConsistent (e ∷ es) s v =
    free_usable-IsConsistent es (free_entry s e) (free_entry-IsConsistent s e v)

free_memory-IsConsistent :
    (m : MemoryMap) (s : Frames) → IsConsistent s → IsConsistent (free_memory m s)
unfolding free_memory
free_memory-IsConsistent m s v =
    IsConsistent-if (e820_is_available m) (λ p. free_usable-IsConsistent m.entries s v)
      (λ p. (mark_free-Kept 0 ((s.total * frame_size) % u32_mod) s v).0)

tracked_total-le : (m : MemoryMap) (kb : ℕ) → tracked_total m kb ≤ max_frames
unfolding tracked_total
tracked_total-le m kb = ground arith

mark_initialized : {s : Frames} → IsConsistent s → IsConsistent (record s { initialized = true })
mark_initialized v = record {
  bits = v.bits;
  refs_room = v.refs_room;
  refs_small = v.refs_small;
  tracked = v.tracked;
  counted = v.counted;
  agree = v.agree;
}

-- After `frame_init` the bitmap and the reference counts agree on every tracked frame and
-- `used_frames` counts the set bits, for every memory map, CMOS size and kernel end.
pub frame_init-IsConsistent :
    (m : MemoryMap) (total_kb kernel_end : ℕ) → IsConsistent (frame_init m total_kb kernel_end)
unfolding frame_init
frame_init-IsConsistent m total_kb kernel_end =
    let total = tracked_total m total_kb in
    let blank = blank_frames-IsConsistent total (tracked_total-le m total_kb) in
    let freed = free_memory-IsConsistent m (blank_frames total) blank in
    let v1 =
      (mark_allocated-Kept 0 reserved_low_end (free_memory m (blank_frames total)) freed).0 in
    let v2 = (mark_allocated-Kept 0x00080000 0x00081000 _ v1).0 in
    let v3 = (mark_allocated-Kept 0x00100000 0x00102000 _ v2).0 in
    let v4 = (mark_allocated-Kept 0x00200000 0x00300000 _ v3).0 in
    mark_initialized (mark_allocated-Kept 0x00001000 (align_up kernel_end) _ v4).0
