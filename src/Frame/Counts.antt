-- ===== src/Frame/Counts.antt =====
-- The reference counts as a client reads them: what `frame_retain` and `frame_release` do to them,
-- and which calls undo one another.
use agentic_os_harness.Common.{
  ℕ, ◌+◌, ◌-◌, ◌*◌, ◌/◌, ◌%◌, ◌≤◌, ◌<◌, ◌≡◌, ◌≢◌, inl, inr, ap, true, false, not, ◌||◌, ◌&&◌, arith,
  ltb, ◌==◌, if◌then◌else◌, Bool-cases, get_or, set, get_or-set, set-set, set-get_or, u16_mod,
}
use agentic_os_harness.Bitmap.{bitmap_test}
use agentic_os_harness.Bitmap.Laws.{bitmap_test-set, bitmap_test-clear, bitmap_clear-set}
use agentic_os_harness.Frame.{
  Frames, refcount, frame_size, reserved_low_end, frame_alloc_below, frame_retain, frame_release,
  frame_get_refcount, frame_is_allocated, frame_get_free_count,
}
use agentic_os_harness.Frame.Invariant.{IsConsistent, claim, refcount-lt}
use agentic_os_harness.Frame.Alloc.{AllocResult}
use agentic_os_harness.Frame.Alloc.{frame_alloc_below-AllocResult}
use agentic_os_harness.Bitmap.Count.{count_set-le, count_set-pos}

-- On a consistent allocator the reported count of a tracked frame is the stored one.
get_refcount-eq :
    (s : Frames) (f : ℕ)
    → IsConsistent s
    → frame_get_refcount s (f * frame_size)
      ≡ (if s.initialized then (if ltb f s.total then refcount s f else 0) else 0)
unfolding frame_get_refcount
get_refcount-eq s f v = elim (Bool-cases (ltb f s.total)) [
  | inl inside ↦ ground (arith, v.agree f (ground arith))
  | inr outside ↦ ground arith
]

-- Reading a frame's count after one frame's count was written.
refcount-set :
    (s : Frames) (f g r : ℕ)
    → IsConsistent s
    → f < s.total
    → get_or (set s.refcounts f r) g 0 ≡ (if f == g then r else refcount s g)
refcount-set s f g r v h = get_or-set s.refcounts f g r 0 (omega (arith, v.refs_room))

-- A retain succeeds exactly on the aligned address of a tracked frame whose reported count is
-- neither 0 nor 65535. It then raises that count by one and changes no other frame's; a retain that
-- fails changes nothing.
pub frame_retain_lem :
    (s : Frames) (a g : ℕ)
    → IsConsistent s
    → let (done, t) = frame_retain s a in
      (done ≡ not (frame_get_refcount s a == 0 || frame_get_refcount s a == 0xFFFF))
      × (frame_get_refcount t (g * frame_size) ≡ (
          if done
          then (if a / frame_size == g
              then frame_get_refcount s (g * frame_size) + 1
              else frame_get_refcount s (g * frame_size))
          else frame_get_refcount s (g * frame_size)))
      × (done ≡ false → t ≡ s)
unfolding frame_retain frame_get_refcount
frame_retain_lem s a g v = elim (Bool-cases (ltb (a / frame_size) s.total)) [
  | inr out ↦ (ground arith, ground arith, ground arith)
  | inl in_range ↦
      let inside : a / frame_size < s.total = ground arith in
      (
        ground (arith, v.agree (a / frame_size) inside),
        ground (
          arith,
          v.agree (a / frame_size) inside,
          refcount-lt s (a / frame_size) v inside,
          refcount-set s (a / frame_size) g ((refcount s (a / frame_size) + 1) % u16_mod) v inside,
        ),
        ground arith,
      )
]

-- A release succeeds exactly where the reported count is not 0, or below 3 MB more than 1. It then
-- lowers that count by one and changes no other frame's; if it was 1, that frame, and no other, is not
-- allocated any more, and one more frame is free. A release that fails, such as a second free, changes
-- nothing.
pub frame_release_lem :
    (s : Frames) (a g : ℕ)
    → IsConsistent s
    → let (done, t) = frame_release s a in
      (done ≡ (
        if ltb a reserved_low_end
        then ltb 1 (frame_get_refcount s a)
        else ltb 0 (frame_get_refcount s a)))
      × (frame_get_refcount t (g * frame_size) ≡ (
          if done
          then (if a / frame_size == g
              then frame_get_refcount s (g * frame_size) - 1
              else frame_get_refcount s (g * frame_size))
          else frame_get_refcount s (g * frame_size)))
      × (frame_is_allocated t (g * frame_size) ≡ (
          if done && a / frame_size == g && frame_get_refcount s a == 1
          then false
          else frame_is_allocated s (g * frame_size)))
      × (frame_get_free_count t ≡ (
          if done && frame_get_refcount s a == 1
          then frame_get_free_count s + 1
          else frame_get_free_count s))
      × (done ≡ false → t ≡ s)
unfolding frame_release frame_get_refcount frame_is_allocated frame_get_free_count
frame_release_lem s a g v = elim (Bool-cases (ltb (a / frame_size) s.total)) [
  | inr out ↦ (ground arith, ground arith, ground arith, ground arith, ground arith)
  | inl in_range ↦
      let inside : a / frame_size < s.total = ground arith in
      (
        ground (arith, v.agree (a / frame_size) inside),
        ground (
          arith,
          v.agree (a / frame_size) inside,
          v.agree g,
          bitmap_test-clear s.bitmap s.total (a / frame_size) g v.bits inside,
          refcount-set s (a / frame_size) g (refcount s (a / frame_size) - 1) v inside,
        ),
        ground (
          arith,
          v.agree (a / frame_size) inside,
          bitmap_test-clear s.bitmap s.total (a / frame_size) g v.bits inside,
        ),
        ground (
          arith,
          v.agree (a / frame_size) inside,
          v.counted,
          count_set-le s.bitmap s.total,
          count_set-pos s.bitmap s.total (a / frame_size) inside,
        ),
        ground arith,
      )
]

-- A retain that succeeds is undone by a release of the same address.
pub frame_release-frame_retain :
    (s : Frames) (a : ℕ)
    → IsConsistent s
    → (frame_retain s a).0 ≡ true
    → frame_release (frame_retain s a).1 a ≡ (true, s)
unfolding frame_retain frame_release
frame_release-frame_retain s a v done =
    let f = a / frame_size in
    let n = refcount s f in
    let inside : f < s.total = ground arith in
    ground (
      arith,
      refcount-lt s f v inside,
      refcount-set s f f ((n + 1) % u16_mod) v inside,
      set-set s.refcounts f ((n + 1) % u16_mod) n,
      set-get_or s.refcounts f 0,
    )

-- Releasing a frame that was just claimed.
release-claim :
    (s : Frames) (f : ℕ)
    → IsConsistent s
    → s.initialized ≡ true
    → f < s.total
    → reserved_low_end / frame_size ≤ f
    → refcount s f ≡ 0
    → frame_release (claim s f) (f * frame_size) ≡ (true, s)
unfolding frame_release
release-claim s f v on inside high unused =
    let place : f * frame_size / frame_size ≡ f = omega arith in
    let clear : bitmap_test s.bitmap f ≡ false = ground (arith, v.agree f inside) in
    rw place (
      ground (
        arith,
        v.counted,
        v.tracked,
        count_set-le s.bitmap s.total,
        bitmap_test-set s.bitmap s.total f f v.bits inside,
        bitmap_clear-set s.bitmap s.total f v.bits inside clear,
        refcount-set s f f 1 v inside,
        set-set s.refcounts f 1 0,
        set-get_or s.refcounts f 0,
      ))

-- On a consistent, initialised allocator and a limit that is not 0, an allocation that hands out a
-- frame is undone by releasing the address that it returned.
pub frame_release-frame_alloc_below :
    (s : Frames) (limit : ℕ)
    → IsConsistent s
    → s.initialized ≡ true
    → 0 < limit
    → (frame_alloc_below s limit).0 ≢ 0
    → frame_release (frame_alloc_below s limit).1 (frame_alloc_below s limit).0 ≡ (true, s)
frame_release-frame_alloc_below s limit v on pos got =
    undo (frame_alloc_below s limit) got (frame_alloc_below-AllocResult s limit v on pos)
  where
    undo :
        (out : ℕ × Frames)
        → out.0 ≢ 0
        → AllocResult s limit out
        → frame_release out.1 out.0 ≡ (true, s)
    undo out ne (inl r) = absurd (ne (ap (λ (o : ℕ × Frames). o.0) r.0))
    undo out ne (inr r) = rw r.1 (release-claim s r.0 v on r.3 r.2.0 r.5)
