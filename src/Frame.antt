-- ===== src/Frame.antt =====
-- kernel/frame.c: the allocator of physical page frames, with reference counts.
pub mod Invariant
pub mod Alloc
pub mod Counts
mod Tests
use agentic_os_harness.Common.{
  ℕ, zero, suc, ◌+◌, ◌-◌, ◌*◌, ◌/◌, ◌%◌, Bool, true, false, not, ◌&&◌, ◌||◌, Option, none, some,
  List, [], ◌∷◌, ltb, leb, ◌==◌, if◌then◌else◌, get_or, set, replicate, add32, add64, sub32,
  u16_mod, u32_mod,
}
use agentic_os_harness.Bitmap.{bitmap_test, bitmap_set, bitmap_clear}
use agentic_os_harness.E820.{Entry, MemoryMap, e820_is_available, e820_usable}

abbrev pub frame_size : ℕ
frame_size = 4096

abbrev pub max_tracked_memory : ℕ
max_tracked_memory = 0x20000000

abbrev pub max_frames : ℕ
max_frames = max_tracked_memory / frame_size

abbrev pub reserved_low_end : ℕ
reserved_low_end = 0x00300000

-- The static variables of frame.c.
pub record Frames : Type 0 where
  pub bitmap : List ℕ
  pub refcounts : List ℕ
  pub total : ℕ
  pub used : ℕ
  pub initialized : Bool

-- The mask `~(FRAME_SIZE - 1)` takes the low twelve bits off.
abbrev pub align_down : ℕ → ℕ
align_down value = value - value % frame_size

abbrev pub align_up : ℕ → ℕ
align_up value = align_down (add32 value (frame_size - 1))

abbrev pub refcount : Frames → ℕ → ℕ
refcount s frame = get_or s.refcounts frame 0

-- `if (end > total_frames) end = total_frames;`
abbrev pub clipped : Frames → ℕ → ℕ
clipped s end = if ltb s.total end then s.total else end

-- The body of the loop in `mark_allocated`.
pub mark_frame_allocated : Frames → ℕ → Frames
mark_frame_allocated s frame =
    let s' =
      if not (bitmap_test s.bitmap frame)
      then record s { bitmap = bitmap_set s.bitmap frame; used = add32 s.used 1 }
      else s in
    if refcount s' frame == 0 then record s' { refcounts = set s'.refcounts frame 1 } else s'

-- `n` rounds, from `frame` on
pub allocate_frames : ℕ → ℕ → Frames → Frames
unfolding mark_frame_allocated
allocate_frames zero frame s = s
allocate_frames (suc n) frame s = allocate_frames n (frame + 1) (mark_frame_allocated s frame)

pub mark_allocated : ℕ → ℕ → Frames → Frames
unfolding allocate_frames
mark_allocated start_addr end_addr s =
    let first = align_down start_addr / frame_size in
    allocate_frames (clipped s (align_up end_addr / frame_size) - first) first s

-- The body of the loop in `mark_free`.
pub mark_frame_free : Frames → ℕ → Frames
mark_frame_free s frame =
    if bitmap_test s.bitmap frame
    then record s {
      bitmap = bitmap_clear s.bitmap frame;
      used = if ltb 0 s.used then s.used - 1 else s.used;
      refcounts = set s.refcounts frame 0;
    }
    else s

pub free_frames : ℕ → ℕ → Frames → Frames
unfolding mark_frame_free
free_frames zero frame s = s
free_frames (suc n) frame s = free_frames n (frame + 1) (mark_frame_free s frame)

pub mark_free : ℕ → ℕ → Frames → Frames
unfolding free_frames
mark_free start_addr end_addr s =
    let first = align_up start_addr / frame_size in
    free_frames (clipped s (align_down end_addr / frame_size) - first) first s

-- `end64` cut at MAX_TRACKED_MEMORY
abbrev pub tracked_end : Entry → ℕ
tracked_end e =
    let end64 = add64 e.base e.length in
    if ltb max_tracked_memory end64 then max_tracked_memory else end64

pub highest_memory : List Entry → ℕ → ℕ
highest_memory [] highest = highest
highest_memory (e ∷ es) highest = highest_memory es (
    if e.type == e820_usable
    then (if ltb highest (tracked_end e) then tracked_end e else highest)
    else highest)

-- The count of frames: from the map, or below 16 MB from the CMOS memory size in KB.
pub tracked_total : MemoryMap → ℕ → ℕ
unfolding highest_memory
tracked_total m total_kb =
    let highest = highest_memory m.entries 0 in
    let highest' =
      if ltb highest (16 * 1024 * 1024)
      then (let bytes = (total_kb * 1024) % u32_mod in
          if ltb max_tracked_memory bytes then max_tracked_memory else bytes)
      else highest in
    let total = highest' / frame_size in if ltb max_frames total then max_frames else total

-- `frame_refcounts[i] = i < total_frames ? 1 : 0`, for `n` indices from `i` on
pub initial_refcounts : ℕ → ℕ → ℕ → List ℕ
initial_refcounts zero i total = []
initial_refcounts (suc n) i total =
    (if ltb i total then 1 else 0) ∷ initial_refcounts n (i + 1) total

-- The body of the loop over the memory map in `frame_init`.
pub free_entry : Frames → Entry → Frames
unfolding mark_free
free_entry s e =
    if not (e.type == e820_usable)
    then s
    else if ltb max_tracked_memory e.base
    then s
    else mark_free (e.base % u32_mod) (tracked_end e) s

pub free_usable : List Entry → Frames → Frames
unfolding free_entry
free_usable [] s = s
free_usable (e ∷ es) s = free_usable es (free_entry s e)

pub free_memory : MemoryMap → Frames → Frames
unfolding free_usable mark_free
free_memory m s =
    if e820_is_available m
    then free_usable m.entries s
    else mark_free 0 ((s.total * frame_size) % u32_mod) s

pub blank_frames : ℕ → Frames
blank_frames total = record {
  bitmap = replicate (max_frames / 8) 0xFF;
  refcounts = initial_refcounts max_frames 0 total;
  total = total;
  used = total;
  initialized = false;
}

-- `memory_get_total_kb()` and the linker's `&__kernel_end` are arguments.
unfoldable pub frame_init : MemoryMap → ℕ → ℕ → Frames
unfolding tracked_total blank_frames free_memory mark_allocated
frame_init m total_kb kernel_end =
    let freed = free_memory m (blank_frames (tracked_total m total_kb)) in
    let s1 = mark_allocated 0 reserved_low_end freed in
    let s2 = mark_allocated 0x00080000 0x00081000 s1 in
    let s3 = mark_allocated 0x00100000 0x00102000 s2 in
    let s4 = mark_allocated 0x00200000 0x00300000 s3 in
    let s5 = mark_allocated 0x00001000 (align_up kernel_end) s4 in record s5 { initialized = true }

-- The loop of `frame_alloc_below`: the first clear bit among `n` frames from `frame` on.
pub find_free : List ℕ → ℕ → ℕ → Option ℕ
find_free bitmap zero frame = none
find_free bitmap (suc n) frame = elim (bitmap_test bitmap frame) [
  | true ↦ find_free bitmap n (frame + 1)
  | false ↦ some frame
]

-- Marks `frame` as used and returns its address; 0 where there is none.
pub take_frame : Frames → Option ℕ → ℕ × Frames
take_frame s none = (0, s)
take_frame s (some frame) = (
  (frame * frame_size) % u32_mod,
  record s {
    bitmap = bitmap_set s.bitmap frame;
    used = add32 s.used 1;
    refcounts = set s.refcounts frame 1;
  },
)

unfoldable pub frame_alloc_below : Frames → ℕ → ℕ × Frames
unfolding find_free take_frame
frame_alloc_below s limit =
    if not s.initialized || limit == 0
    then (0, s)
    else let limit_frame = limit / frame_size in
      let max_frame = if ltb s.total limit_frame then s.total else limit_frame in
      let start_frame = reserved_low_end / frame_size in
      take_frame s (find_free s.bitmap (max_frame - start_frame) start_frame)

unfoldable pub frame_alloc : Frames → ℕ × Frames
unfolding frame_alloc_below
frame_alloc s = frame_alloc_below s ((s.total * frame_size) % u32_mod)

-- `(phys_addr & (FRAME_SIZE - 1)) != 0`
abbrev pub misaligned : ℕ → Bool
misaligned phys_addr = not (phys_addr % frame_size == 0)

-- The second test of `frame_retain`, and that of `frame_release`.
abbrev pub retain_refused : Frames → ℕ → Bool
retain_refused s frame =
    leb s.total frame
    || not (bitmap_test s.bitmap frame)
    || refcount s frame == 0
    || refcount s frame == 0xFFFF

abbrev pub release_refused : Frames → ℕ → Bool
release_refused s frame =
    leb s.total frame || not (bitmap_test s.bitmap frame) || refcount s frame == 0

unfoldable pub frame_retain : Frames → ℕ → Bool × Frames
frame_retain s phys_addr =
    let frame = phys_addr / frame_size in
    if not s.initialized || misaligned phys_addr
    then (false, s)
    else if retain_refused s frame
    then (false, s)
    else (true, record s { refcounts = set s.refcounts frame ((refcount s frame + 1) % u16_mod) })

-- `frame_release` behind its guards.
abbrev pub lower_frame : Frames → ℕ → ℕ → Bool × Frames
lower_frame s phys_addr frame =
    let lowered = record s { refcounts = set s.refcounts frame (refcount s frame - 1) } in
    if ltb phys_addr reserved_low_end
    then (if leb (refcount s frame) 1 then (false, s) else (true, lowered))
    else if refcount s frame - 1 == 0
    then (
      true,
      record lowered {
        bitmap = bitmap_clear s.bitmap frame;
        used = if ltb 0 s.used then s.used - 1 else s.used;
      },
    )
    else (true, lowered)

unfoldable pub frame_release : Frames → ℕ → Bool × Frames
frame_release s phys_addr =
    let frame = phys_addr / frame_size in
    if not s.initialized || misaligned phys_addr
    then (false, s)
    else if release_refused s frame
    then (false, s)
    else lower_frame s phys_addr frame

unfoldable pub frame_free : Frames → ℕ → Frames
unfolding frame_release
frame_free s phys_addr = (frame_release s phys_addr).1

unfoldable pub frame_reserve_range : Frames → ℕ → ℕ → Bool × Frames
unfolding mark_allocated
frame_reserve_range s start_addr end_addr =
    let max_addr = (s.total * frame_size) % u32_mod in
    if not s.initialized || leb end_addr start_addr
    then (false, s)
    else if leb max_addr start_addr
    then (false, s)
    else (true, mark_allocated start_addr (if ltb max_addr end_addr then max_addr else end_addr) s)

unfoldable pub frame_is_allocated : Frames → ℕ → Bool
frame_is_allocated s phys_addr =
    let frame = phys_addr / frame_size in
    if not s.initialized || leb s.total frame then true else bitmap_test s.bitmap frame

unfoldable pub frame_get_refcount : Frames → ℕ → ℕ
frame_get_refcount s phys_addr =
    let frame = phys_addr / frame_size in
    if not s.initialized
      || misaligned phys_addr
      || leb s.total frame
      || not (bitmap_test s.bitmap frame)
    then 0
    else refcount s frame

unfoldable pub frame_get_free_count : Frames → ℕ
frame_get_free_count s = if ltb s.total s.used then 0 else s.total - s.used
