-- ===== src/Frame/Invariant.antt =====
-- The invariant of the frame allocator: the bitmap and the reference counts agree on every tracked
-- frame, and `used_frames` counts the set bits. Each write of one frame keeps it.
pub mod Loops
pub mod Init
use agentic_os_harness.Common.{
  ℕ, zero, suc, ◌+◌, ◌-◌, ◌*◌, ◌/◌, ◌%◌, ◌≤◌, ◌<◌, ◌≡◌, ◌≢◌, refl, Bool, true, false, not, List, [],
  ◌∷◌, arith, ltb, ◌==◌, if◌then◌else◌, length, get_or, set, All, All-set, length-set, get_or-set,
  All-get_or, Bool-cases, inl, inr, add32, u16_mod, Option, none, some,
}
use agentic_os_harness.Bitmap.{bitmap_test, bitmap_set, bitmap_clear}
use agentic_os_harness.Bitmap.Laws.{
  IsBitmap, bitmap_test-set, bitmap_test-clear, bitmap_set-IsBitmap, bitmap_clear-IsBitmap,
}
use agentic_os_harness.Bitmap.Count.{
  count_set, count_set-le, count_set-pos, count_set-set, count_set-clear,
}
use agentic_os_harness.Frame.{
  Frames, refcount, max_frames, mark_frame_allocated, mark_frame_free, allocate_frames, free_frames,
  mark_allocated, mark_free, take_frame, find_free, frame_alloc_below, frame_retain, frame_release,
  frame_reserve_range, frame_size, reserved_low_end,
}

pub record IsConsistent (s : Frames) : Type 0 where
  pub bits : IsBitmap s.bitmap s.total
  pub refs_room : s.total ≤ length s.refcounts
  pub refs_small : All (λ r. r < u16_mod) s.refcounts
  pub tracked : s.total ≤ max_frames
  pub counted : s.used ≡ count_set s.bitmap s.total
  pub agree :
      (frame : ℕ) → frame < s.total → bitmap_test s.bitmap frame ≡ not (refcount s frame == 0)

-- The three writes that the operations are made of.
abbrev pub claim : Frames → ℕ → Frames
claim s frame = record s {
  bitmap = bitmap_set s.bitmap frame;
  used = add32 s.used 1;
  refcounts = set s.refcounts frame 1;
}

abbrev pub drop_frame : Frames → ℕ → Frames
drop_frame s frame = record s {
  bitmap = bitmap_clear s.bitmap frame;
  used = if ltb 0 s.used then s.used - 1 else s.used;
  refcounts = set s.refcounts frame 0;
}

abbrev pub recount : Frames → ℕ → ℕ → Frames
recount s frame r = record s { refcounts = set s.refcounts frame r }

module _ (s : Frames) (frame : ℕ) (v : IsConsistent s) (inside : frame < s.total) where
  pub claim-IsConsistent : bitmap_test s.bitmap frame ≡ false → IsConsistent (claim s frame)
  claim-IsConsistent e = record {
    bits = bitmap_set-IsBitmap s.bitmap s.total frame v.bits;
    refs_room = omega (arith, length-set s.refcounts frame 1, v.refs_room);
    refs_small = All-set (λ r. r < u16_mod) s.refcounts frame 1 (omega arith) v.refs_small;
    tracked = v.tracked;
    counted = ground (
      arith,
      v.counted,
      v.tracked,
      count_set-le s.bitmap s.total,
      count_set-set s.bitmap s.total frame v.bits inside e s.total,
    );
    agree = λ f h. ground (
      arith,
      v.agree f h,
      v.refs_room,
      bitmap_test-set s.bitmap s.total frame f v.bits inside,
      get_or-set s.refcounts frame f 1 0 (omega (arith, v.refs_room)),
    );
  }

  pub drop_frame-IsConsistent :
      bitmap_test s.bitmap frame ≡ true → IsConsistent (drop_frame s frame)
  drop_frame-IsConsistent e = record {
    bits = bitmap_clear-IsBitmap s.bitmap s.total frame v.bits;
    refs_room = omega (arith, length-set s.refcounts frame 0, v.refs_room);
    refs_small = All-set (λ r. r < u16_mod) s.refcounts frame 0 (omega arith) v.refs_small;
    tracked = v.tracked;
    counted =
        ground (arith, v.counted, count_set-clear s.bitmap s.total frame v.bits inside e s.total);
    agree = λ f h. ground (
      arith,
      v.agree f h,
      bitmap_test-clear s.bitmap s.total frame f v.bits inside,
      get_or-set s.refcounts frame f 0 0 (omega (arith, v.refs_room)),
    );
  }

  pub recount-IsConsistent :
      (r : ℕ)
      → bitmap_test s.bitmap frame ≡ true
      → 0 < r
      → r < u16_mod
      → IsConsistent (recount s frame r)
  recount-IsConsistent r e pos small = record {
    bits = v.bits;
    refs_room = omega (arith, length-set s.refcounts frame r, v.refs_room);
    refs_small = All-set (λ r. r < u16_mod) s.refcounts frame r small v.refs_small;
    tracked = v.tracked;
    counted = v.counted;
    agree = λ f h.
        ground
          (arith, v.agree f h, get_or-set s.refcounts frame f r 0 (omega (arith, v.refs_room)));
  }

  pub refcount-lt : refcount s frame < u16_mod
  refcount-lt = All-get_or (λ r. r < u16_mod) s.refcounts frame 0 (omega arith) v.refs_small

pub IsConsistent-if :
    (b : Bool) {s t : Frames}
    → (b ≡ true → IsConsistent s)
    → (b ≡ false → IsConsistent t)
    → IsConsistent (if b then s else t)
IsConsistent-if true p q = p refl
IsConsistent-if false p q = q refl
