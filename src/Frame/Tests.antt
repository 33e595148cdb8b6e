-- ===== src/Frame/Tests.antt =====
-- Runs of kernel/frame.c on 4 MB of memory, all of it free at first.
use agentic_os_harness.Common.{
  ℕ, zero, suc, ◌+◌, ◌-◌, ◌*◌, ◌/◌, ◌%◌, ◌≤◌, ◌<◌, ◌≡◌, refl, true, false, not, [], ◌∷◌, arith, ltb,
  ◌==◌, if◌then◌else◌, replicate, length-replicate, get_or-replicate, All-replicate, u16_mod, ◌||◌,
}
use agentic_os_harness.Bitmap.{bitmap_test, test_bit}
use agentic_os_harness.Bitmap.Laws.{every_under, every_under-at}
use agentic_os_harness.Bitmap.Count.{count_set}
use agentic_os_harness.Frame.{
  Frames, frame_init, frame_alloc_below, frame_retain, frame_release, frame_get_refcount,
  frame_size, reserved_low_end,
}
use agentic_os_harness.Frame.Invariant.{IsConsistent}
use agentic_os_harness.Frame.Alloc.{
  AllocResult, frame_alloc_below-AllocResult, frame_alloc_below-Safe, frames_stay-IsConsistent, run,
  alloc_below, retain, release, reserve,
}
use agentic_os_harness.Frame.Counts.{
  frame_retain_lem, frame_release_lem, frame_release-frame_retain, frame_release-frame_alloc_below,
}
use agentic_os_harness.Common.{sym}
use agentic_os_harness.Bitmap.{bitmap_set}
use agentic_os_harness.Bitmap.{set_bit}
use agentic_os_harness.Frame.{frame_is_allocated, frame_get_free_count}
use agentic_os_harness.Common.{◌&&◌, ◌+◌}

abbrev four_mb : Frames
four_mb = record {
  bitmap = replicate 128 0;
  refcounts = replicate 1024 0;
  total = 1024;
  used = 0;
  initialized = true;
}

clear_table : every_under (λ k. not (test_bit 0 k)) 8 ≡ true
unfolding every_under test_bit
clear_table = refl

four_mb_clear : (f : ℕ) → f < 1024 → bitmap_test (replicate 128 0) f ≡ false
unfolding bitmap_test
four_mb_clear f h =
    rw (get_or-replicate {A = ℕ} 128 (f / 8) 0 0 (omega arith))
      (ground (arith, every_under-at (λ k. not (test_bit 0 k)) (f % 8) (omega arith) clear_table))

count_none : (n : ℕ) → n ≤ 1024 → count_set (replicate 128 0) n ≡ 0
unfolding count_set
count_none zero h = refl
count_none (suc n) h = ground (arith, count_none n (omega arith), four_mb_clear n (omega arith))

four_mb-IsConsistent : IsConsistent four_mb
four_mb-IsConsistent = record {
  bits = record {
    room = omega (arith, length-replicate {A = ℕ} 128 0);
    bytes = All-replicate (λ (b : ℕ). b < 256) 128 0 (omega arith);
  };
  refs_room = omega (arith, length-replicate {A = ℕ} 1024 0);
  refs_small = All-replicate (λ (r : ℕ). r < u16_mod) 1024 0 (omega arith);
  tracked = omega arith;
  counted = sym (count_none 1024 (omega arith));
  agree = λ f h. ground (arith, four_mb_clear f h, get_or-replicate {A = ℕ} 1024 f 0 0 h);
}

-- After one allocation the frame at 3 MB is in use.
abbrev one_used : Frames
one_used = (frame_alloc_below four_mb 0x400000).1

one_used-IsConsistent : IsConsistent one_used
one_used-IsConsistent = frame_alloc_below-Safe four_mb 0x400000 four_mb-IsConsistent

first_address : (frame_alloc_below four_mb 0x400000).0 ≡ 0x300000
unfolding frame_alloc_below bitmap_test test_bit replicate
first_address = refl

frame_alloc_below-AllocResult_example :
    AllocResult four_mb 0x400000 (frame_alloc_below four_mb 0x400000)
frame_alloc_below-AllocResult_example =
    frame_alloc_below-AllocResult four_mb 0x400000 four_mb-IsConsistent refl (omega arith)

frames_stay-IsConsistent_example : IsConsistent (
    run
      (frame_init (record { entries = []; initialized = true; available = false }) 65536 0x280000)
      (alloc_below 0x400000 ∷ retain 0x300000 ∷ release 0x300000 ∷ reserve 0xC00000 0xE00000 ∷ []))
frames_stay-IsConsistent_example =
    frames_stay-IsConsistent (record { entries = []; initialized = true; available = false }) 65536
      0x280000
      (alloc_below 0x400000 ∷ retain 0x300000 ∷ release 0x300000 ∷ reserve 0xC00000 0xE00000 ∷ [])

frame_retain_lem_example :
    let (done, t) = frame_retain one_used 0x300000 in
    (done
      ≡ not (
          frame_get_refcount one_used 0x300000 == 0
          || frame_get_refcount one_used 0x300000 == 0xFFFF))
    × (frame_get_refcount t (768 * frame_size) ≡ (
        if done
        then (if 0x300000 / frame_size == 768
            then frame_get_refcount one_used (768 * frame_size) + 1
            else frame_get_refcount one_used (768 * frame_size))
        else frame_get_refcount one_used (768 * frame_size)))
    × (done ≡ false → t ≡ one_used)
frame_retain_lem_example = frame_retain_lem one_used 0x300000 768 one_used-IsConsistent

frame_release_lem_example :
    let (done, t) = frame_release one_used 0x300000 in
    (done ≡ (
      if ltb 0x300000 reserved_low_end
      then ltb 1 (frame_get_refcount one_used 0x300000)
      else ltb 0 (frame_get_refcount one_used 0x300000)))
    × (frame_get_refcount t (768 * frame_size) ≡ (
        if done
        then (if 0x300000 / frame_size == 768
            then frame_get_refcount one_used (768 * frame_size) - 1
            else frame_get_refcount one_used (768 * frame_size))
        else frame_get_refcount one_used (768 * frame_size)))
    × (frame_is_allocated t (768 * frame_size) ≡ (
        if done && 0x300000 / frame_size == 768 && frame_get_refcount one_used 0x300000 == 1
        then false
        else frame_is_allocated one_used (768 * frame_size)))
    × (frame_get_free_count t ≡ (
        if done && frame_get_refcount one_used 0x300000 == 1
        then frame_get_free_count one_used + 1
        else frame_get_free_count one_used))
    × (done ≡ false → t ≡ one_used)
frame_release_lem_example = frame_release_lem one_used 0x300000 768 one_used-IsConsistent

frame_release-frame_retain_example :
    frame_release (frame_retain one_used 0x300000).1 0x300000 ≡ (true, one_used)
unfolding frame_retain frame_alloc_below bitmap_test bitmap_set test_bit set_bit replicate
frame_release-frame_retain_example =
    frame_release-frame_retain one_used 0x300000 one_used-IsConsistent refl

frame_release-frame_alloc_below_example :
    frame_release one_used (frame_alloc_below four_mb 0x400000).0 ≡ (true, four_mb)
frame_release-frame_alloc_below_example =
    frame_release-frame_alloc_below four_mb 0x400000 four_mb-IsConsistent refl (omega arith)
      (rw first_address (omega arith))
