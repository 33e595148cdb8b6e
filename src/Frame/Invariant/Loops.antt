-- ===== src/Frame/Invariant/Loops.antt =====
-- The marking loops keep the invariant, and what they leave of each frame.
use agentic_os_harness.Common.{
  ℕ, zero, suc, ◌+◌, ◌-◌, ◌/◌, ◌≤◌, ◌<◌, ◌≡◌, refl, arith, if◌then◌else◌,
}
use agentic_os_harness.Bitmap.{bitmap_test}
use agentic_os_harness.Frame.{
  Frames, mark_frame_allocated, mark_frame_free, allocate_frames, free_frames, mark_allocated,
  mark_free, align_down, align_up, frame_size, clipped,
}
use agentic_os_harness.Frame.Invariant.{
  IsConsistent, IsConsistent-if, claim, claim-IsConsistent, drop_frame-IsConsistent,
}

-- On a consistent state the two tests of `mark_allocated` are one.
pub mark_frame_allocated-eq-claim :
    (s : Frames) (f : ℕ)
    → IsConsistent s
    → f < s.total
    → mark_frame_allocated s f ≡ (if bitmap_test s.bitmap f then s else claim s f)
unfolding mark_frame_allocated
mark_frame_allocated-eq-claim s f v h = ground (arith, v.agree f h)

pub mark_frame_allocated-IsConsistent :
    (s : Frames) (f : ℕ) → IsConsistent s → f < s.total → IsConsistent (mark_frame_allocated s f)
mark_frame_allocated-IsConsistent s f v h =
    rw (mark_frame_allocated-eq-claim s f v h)
      (IsConsistent-if (bitmap_test s.bitmap f) (λ e. v) (claim-IsConsistent s f v h))

pub total-mark_frame_allocated : (s : Frames) (f : ℕ) → (mark_frame_allocated s f).total ≡ s.total
unfolding mark_frame_allocated
total-mark_frame_allocated s f = ground arith

pub mark_frame_free-IsConsistent :
    (s : Frames) (f : ℕ) → IsConsistent s → f < s.total → IsConsistent (mark_frame_free s f)
unfolding mark_frame_free
mark_frame_free-IsConsistent s f v h =
    IsConsistent-if (bitmap_test s.bitmap f) (drop_frame-IsConsistent s f v h) (λ e. v)

pub total-mark_frame_free : (s : Frames) (f : ℕ) → (mark_frame_free s f).total ≡ s.total
unfolding mark_frame_free
total-mark_frame_free s f = ground arith

-- What is kept: the invariant, and the number of frames.
abbrev pub Kept : Frames → Frames → Type 0
Kept s t = IsConsistent t × (t.total ≡ s.total)

pub allocate_frames-Kept :
    (n f : ℕ) (s : Frames)
    → IsConsistent s
    → (0 < n → f + n ≤ s.total)
    → Kept s (allocate_frames n f s)
unfolding allocate_frames
allocate_frames-Kept zero f s v h = (v, refl)
allocate_frames-Kept (suc n) f s v h =
    let t = mark_frame_allocated s f in
    let e : t.total ≡ s.total = total-mark_frame_allocated s f in
    let r : Kept t (allocate_frames n (f + 1) t) =
      allocate_frames-Kept n (f + 1) t (mark_frame_allocated-IsConsistent s f v (omega arith))
        (λ p. omega arith) in
    (r.0, omega arith)

pub free_frames-Kept :
    (n f : ℕ) (s : Frames) → IsConsistent s → (0 < n → f + n ≤ s.total) → Kept s (free_frames n f s)
unfolding free_frames
free_frames-Kept zero f s v h = (v, refl)
free_frames-Kept (suc n) f s v h =
    let t = mark_frame_free s f in
    let e : t.total ≡ s.total = total-mark_frame_free s f in
    let r : Kept t (free_frames n (f + 1) t) =
      free_frames-Kept n (f + 1) t (mark_frame_free-IsConsistent s f v (omega arith))
        (λ p. omega arith) in
    (r.0, omega arith)

pub mark_allocated-Kept : (a b : ℕ) (s : Frames) → IsConsistent s → Kept s (mark_allocated a b s)
unfolding mark_allocated
mark_allocated-Kept a b s v =
    let first = align_down a / frame_size in
    let end = align_up b / frame_size in
    allocate_frames-Kept (clipped s end - first) first s v (λ p. ground arith)

pub mark_free-Kept : (a b : ℕ) (s : Frames) → IsConsistent s → Kept s (mark_free a b s)
unfolding mark_free
mark_free-Kept a b s v =
    let first = align_up a / frame_size in
    let end = align_down b / frame_size in
    free_frames-Kept (clipped s end - first) first s v (λ p. ground arith)
