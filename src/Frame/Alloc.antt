-- ===== src/Frame/Alloc.antt =====
-- What `frame_alloc_below` finds, and that every operation keeps the invariant.
use agentic_os_harness.Common.{
  ℕ, zero, suc, ◌+◌, ◌-◌, ◌*◌, ◌/◌, ◌%◌, ◌≤◌, ◌<◌, ◌≡◌, ◌⊎◌, inl, inr, refl, Bool, true, false, not,
  ◌||◌, Option, none, some, List, [], ◌∷◌, arith, ltb, leb, ◌==◌, if◌then◌else◌, Bool-cases,
  u32_mod, u16_mod,
}
use agentic_os_harness.Bitmap.{bitmap_test}
use agentic_os_harness.E820.{MemoryMap}
use agentic_os_harness.Frame.{
  Frames, refcount, frame_size, reserved_low_end, find_free, take_frame, frame_alloc_below,
  frame_retain, frame_release, frame_reserve_range, frame_init, misaligned, retain_refused,
  release_refused, lower_frame,
}
use agentic_os_harness.Frame.Invariant.{
  IsConsistent, claim, claim-IsConsistent, drop_frame-IsConsistent, recount-IsConsistent,
  refcount-lt,
}
use agentic_os_harness.Frame.Invariant.Loops.{mark_allocated-Kept}
use agentic_os_harness.Frame.Invariant.Init.{frame_init-IsConsistent}
use agentic_os_harness.Common.{if_rule}

-- What the search returns: no clear bit in the range, or the first one.
abbrev pub Found : List ℕ → ℕ → ℕ → Option ℕ → Type 0
Found bm lo hi none = (g : ℕ) → lo ≤ g → g < hi → bitmap_test bm g ≡ true
Found bm lo hi (some f) =
    (lo ≤ f)
    × (f < hi)
    × (bitmap_test bm f ≡ false)
    × ((g : ℕ) → lo ≤ g → g < f → bitmap_test bm g ≡ true)

Found-step :
    (bm : List ℕ) (lo hi : ℕ) (o : Option ℕ)
    → bitmap_test bm lo ≡ true
    → Found bm (lo + 1) hi o
    → Found bm lo hi o
Found-step bm lo hi none e r = λ g p q. elim (Bool-cases (lo == g)) [
  | inl same ↦ ground arith
  | inr other ↦ r g (ground arith) q
]
Found-step bm lo hi (some f) e r = (
  omega (arith, r.0),
  r.1,
  r.2,
  λ g p q. elim (Bool-cases (lo == g)) [
    | inl same ↦ ground arith
    | inr other ↦ r.3 g (ground arith) q
  ],
)

find_step :
    (bm : List ℕ) (n lo hi : ℕ) (b : Bool)
    → bitmap_test bm lo ≡ b
    → Found bm (lo + 1) hi (find_free bm n (lo + 1))
    → lo < hi
    → Found bm lo hi (elim b [ true ↦ find_free bm n (lo + 1) | false ↦ some lo ])
find_step bm n lo hi true e r h = Found-step bm lo hi (find_free bm n (lo + 1)) e r
find_step bm n lo hi false e r h = (omega arith, omega arith, e, λ g p q. absurd (omega arith))

pub find_free-Found : (bm : List ℕ) (n lo hi : ℕ) → lo + n ≡ hi → Found bm lo hi (find_free bm n lo)
unfolding find_free
find_free-Found bm zero lo hi e = λ g p q. absurd (omega arith)
find_free-Found bm (suc n) lo hi e =
    find_step bm n lo hi (bitmap_test bm lo) refl (find_free-Found bm n (lo + 1) hi (omega arith))
      (omega arith)

-- The first frame past the range that `frame_alloc_below` searches.
abbrev pub search_end : Frames → ℕ → ℕ
search_end s limit = if ltb s.total (limit / frame_size) then s.total else limit / frame_size

-- An allocation fails with every frame of the range in use, and changes nothing; or it hands out the
-- first free frame of the range, and claims that frame and no other.
abbrev pub AllocResult : Frames → ℕ → ℕ × Frames → Type 0
AllocResult s limit out =
    ((out ≡ (0, s)) × Found s.bitmap (reserved_low_end / frame_size) (search_end s limit) none)
    ⊎ ((f : ℕ) × (out ≡ (f * frame_size, claim s f))
        × Found s.bitmap (reserved_low_end / frame_size) (search_end s limit) (some f)
        × (f < s.total)
        × (f * frame_size + frame_size ≤ limit)
        × (refcount s f ≡ 0))

take_frame-AllocResult :
    (s : Frames) (limit : ℕ) (o : Option ℕ)
    → IsConsistent s
    → Found s.bitmap (reserved_low_end / frame_size) (search_end s limit) o
    → AllocResult s limit (take_frame s o)
unfolding take_frame
take_frame-AllocResult s limit none v r = inl (refl, r)
take_frame-AllocResult s limit (some f) v r =
    let below : f < s.total = ground (arith, r.1) in
    inr (
      f,
      ground (arith, v.tracked),
      r,
      below,
      ground (arith, r.1),
      ground (arith, r.2, v.agree f below),
    )

empty_range : (bm : List ℕ) (lo hi : ℕ) → hi ≤ lo → Found bm lo hi (find_free bm (hi - lo) lo)
unfolding find_free
empty_range bm lo hi h = rw e (λ g p q. absurd (omega arith))
  where
    e : hi - lo ≡ 0
    e = omega arith

search-Found : (bm : List ℕ) (lo hi : ℕ) → Found bm lo hi (find_free bm (hi - lo) lo)
search-Found bm lo hi = elim (Bool-cases (leb lo hi)) [
  | inl up ↦ find_free-Found bm (hi - lo) lo hi (ground arith)
  | inr down ↦ empty_range bm lo hi (ground arith)
]

-- On a consistent, initialised allocator and a limit that is not 0, `frame_alloc_below` returns the
-- first free frame at or above 3 MB and below both the limit and the tracked memory, claims that
-- frame alone with a count of 1, and fails with no change exactly where there is none.
pub frame_alloc_below-AllocResult :
    (s : Frames) (limit : ℕ)
    → IsConsistent s
    → s.initialized ≡ true
    → 0 < limit
    → AllocResult s limit (frame_alloc_below s limit)
unfolding frame_alloc_below
frame_alloc_below-AllocResult s limit v on pos =
    let go : (not s.initialized || limit == 0) ≡ false = ground arith in
    rw go (
      take_frame-AllocResult s limit _ v
        (search-Found s.bitmap (reserved_low_end / frame_size) (search_end s limit)))

take_frame-IsConsistent :
    (s : Frames) (o : Option ℕ) (hi : ℕ)
    → IsConsistent s
    → hi ≤ s.total
    → Found s.bitmap (reserved_low_end / frame_size) hi o
    → IsConsistent (take_frame s o).1
unfolding take_frame
take_frame-IsConsistent s none hi v h r = v
take_frame-IsConsistent s (some f) hi v h r = claim-IsConsistent s f v (omega (arith, r.1)) r.2

-- `IsConsistent` of the state in a pair.
abbrev pub Safe : {A : Type 0} → A × Frames → Type 0
Safe out = IsConsistent out.1

pub frame_alloc_below-Safe :
    (s : Frames) (limit : ℕ) → IsConsistent s → Safe (frame_alloc_below s limit)
unfolding frame_alloc_below
frame_alloc_below-Safe s limit v =
    if_rule Safe (not s.initialized || limit == 0) _ _ (λ p. v)
      (λ p.
        take_frame-IsConsistent s _ (search_end s limit) v (ground arith)
          (search-Found s.bitmap (reserved_low_end / frame_size) (search_end s limit)))

pub frame_retain-Safe : (s : Frames) (a : ℕ) → IsConsistent s → Safe (frame_retain s a)
unfolding frame_retain
frame_retain-Safe s a v =
    if_rule Safe (not s.initialized || misaligned a) _ _ (λ p. v)
      (λ p.
        if_rule Safe (retain_refused s (a / frame_size)) _ _ (λ q. v)
          (λ q.
            let inside : a / frame_size < s.total = ground arith in
            recount-IsConsistent s (a / frame_size) v inside _ (ground arith)
              (ground (arith, refcount-lt s (a / frame_size) v inside)) (omega arith)))

lower_frame-Safe :
    (s : Frames) (a f : ℕ) → IsConsistent s → release_refused s f ≡ false → Safe (lower_frame s a f)
lower_frame-Safe s a f v q =
    if_rule Safe (ltb a reserved_low_end) _ _
      (λ low.
        if_rule Safe (leb (refcount s f) 1) _ _ (λ last. v)
          (λ more.
            recount-IsConsistent s f v inside _ taken (ground arith) (ground (arith, small))))
      (λ high.
        if_rule Safe (refcount s f - 1 == 0) _ _
          (λ last.
            let zero_now : refcount s f - 1 ≡ 0 = ground arith in
            rw zero_now (drop_frame-IsConsistent s f v inside taken))
          (λ more.
            recount-IsConsistent s f v inside _ taken (ground arith) (ground (arith, small))))
  where
    inside : f < s.total
    inside = ground arith

    taken : bitmap_test s.bitmap f ≡ true
    taken = ground arith

    small : refcount s f < u16_mod
    small = refcount-lt s f v inside

pub frame_release-Safe : (s : Frames) (a : ℕ) → IsConsistent s → Safe (frame_release s a)
unfolding frame_release
frame_release-Safe s a v =
    if_rule Safe (not s.initialized || misaligned a) _ _ (λ p. v)
      (λ p.
        if_rule Safe (release_refused s (a / frame_size)) _ _ (λ q. v)
          (λ q. lower_frame-Safe s a (a / frame_size) v q))

pub frame_reserve_range-Safe :
    (s : Frames) (a b : ℕ) → IsConsistent s → Safe (frame_reserve_range s a b)
unfolding frame_reserve_range
frame_reserve_range-Safe s a b v =
    let top = (s.total * frame_size) % u32_mod in
    if_rule Safe (not s.initialized || leb b a) _ _ (λ p. v)
      (λ p.
        if_rule Safe (leb top a) _ _ (λ q. v)
          (λ q. (mark_allocated-Kept a (if ltb top b then top else b) s v).0))

-- The calls that the kernel makes of a running allocator.
pub data Call : Type 0 where
  alloc_below : ℕ → Call
  retain release : ℕ → Call
  reserve : ℕ → ℕ → Call

pub step : Frames → Call → Frames
step s (alloc_below limit) = (frame_alloc_below s limit).1
step s (retain a) = (frame_retain s a).1
step s (release a) = (frame_release s a).1
step s (reserve a b) = (frame_reserve_range s a b).1

pub run : Frames → List Call → Frames
run s [] = s
run s (c ∷ cs) = run (step s c) cs

step-IsConsistent : (s : Frames) (c : Call) → IsConsistent s → IsConsistent (step s c)
unfolding step
step-IsConsistent s (alloc_below limit) v = frame_alloc_below-Safe s limit v
step-IsConsistent s (retain a) v = frame_retain-Safe s a v
step-IsConsistent s (release a) v = frame_release-Safe s a v
step-IsConsistent s (reserve a b) v = frame_reserve_range-Safe s a b v

pub run-IsConsistent : (cs : List Call) (s : Frames) → IsConsistent s → IsConsistent (run s cs)
unfolding run
run-IsConsistent [] s v = v
run-IsConsistent (c ∷ cs) s v = run-IsConsistent cs (step s c) (step-IsConsistent s c v)

-- From boot, after any sequence of allocations, retains, releases and reservations, whatever their
-- arguments, the bitmap and the reference counts agree on every tracked frame, `used_frames` is the
-- number of set bits, and no reference count has wrapped.
pub frames_stay-IsConsistent :
    (m : MemoryMap) (total_kb kernel_end : ℕ) (cs : List Call)
    → IsConsistent (run (frame_init m total_kb kernel_end) cs)
frames_stay-IsConsistent m total_kb kernel_end cs =
    run-IsConsistent cs (frame_init m total_kb kernel_end)
      (frame_init-IsConsistent m total_kb kernel_end)
