-- ===== src/Elf/Loaded.antt =====
-- The memory behind a load in kernel/elf.c: the image of each segment, and nothing else changed.
use agentic_os_harness.Common.{
  ℕ, ◌+◌, ◌≤◌, ◌<◌, ◌≡◌, refl, ◌∙◌, false, List, [], ◌∷◌, arith, ◌==◌, All, Bool-cases, inl, inr,
  ◌⊎◌, length, add32,
}
use agentic_os_harness.Elf.Image.{ProgramHeader}
use agentic_os_harness.Elf.Accepted.{Fits, Loadable, PagesApart, Disjoint, page_start, page_end}
use agentic_os_harness.Elf.Load.{
  PageTables, Machine, Outcome, done, failed, map_segment_pages, protect_segment_pages, filled,
  load_segments, then_do,
}
use agentic_os_harness.Elf.Mapped.{
  image_byte, filled-inside, filled-outside, Shows, IsUser, MapsApart, map_segment_pages-Shows,
  protect_segment_pages-Shows,
}

-- Memory shows the image of a segment.
abbrev pub Imaged : List ℕ → (ℕ → ℕ) → ProgramHeader → Type 0
Imaged file memory ph = (i : ℕ) → i < ph.memsz → memory (ph.vaddr + i) ≡ image_byte file ph i

-- Address `x` lies on no page of the segments.
abbrev pub OffPages : ℕ → List ProgramHeader → Type 0
OffPages x phs = All (Loadable (λ ph. (x < page_start ph) ⊎ (page_end ph ≤ x))) phs

-- The image of each segment, and no other page of user space touched.
abbrev pub Image : List ℕ → List ProgramHeader → (ℕ → ℕ) → (ℕ → ℕ) → Type 0
Image file phs before after =
    All (Loadable (Imaged file after)) phs
    × ((x : ℕ) → IsUser x → OffPages x phs → after x ≡ before x)

-- What a load that succeeds leaves.
abbrev pub Loads :
    {D P : Type 0} → List ℕ → List ProgramHeader → (ℕ → ℕ) → Outcome ℕ × Machine D P → Type 0
Loads file phs before (failed e, m) = Unit {0}
Loads file phs before (done loaded, m) = Image file phs before m.memory

-- An address of a segment lies on no page of the segments that are apart from it.
OffPages-inside :
    (ph : ProgramHeader) (size i : ℕ) (phs : List ProgramHeader)
    → Fits size ph
    → i < ph.memsz
    → All (Loadable (PagesApart ph)) phs
    → OffPages (ph.vaddr + i) phs
OffPages-inside ph size i [] fits h a = tt
OffPages-inside ph size i (q ∷ phs) fits h a =
    ((λ t. side (a.0 t)), OffPages-inside ph size i phs fits h a.1)
  where
    side : PagesApart ph q → (ph.vaddr + i < page_start q) ⊎ (page_end q ≤ ph.vaddr + i)
    side (inl l) = inr (omega (arith, l))
    side (inr l) = inl (omega (arith, l, h, fits.below))

-- The image of a segment whose pages the rest of the load leaves alone.
Image-cons :
    (file : List ℕ) (ph : ProgramHeader) (phs : List ProgramHeader) (before middle after : ℕ → ℕ)
    → Fits (length file) ph
    → All (Loadable (PagesApart ph)) phs
    → Imaged file middle ph
    → ((x : ℕ) → IsUser x → (x < page_start ph) ⊎ (page_end ph ≤ x) → middle x ≡ before x)
    → ph.type ≡ 1
    → Image file phs middle after
    → Image file (ph ∷ phs) before after
Image-cons file ph phs before middle after fits apart own outside t rest = (
  (
    (λ e i h.
        rest.1 (ph.vaddr + i) (user i h) (OffPages-inside ph (length file) i phs fits h apart)
        ∙ own i h),
    rest.0,
  ),
  (λ x u off. rest.1 x u off.1 ∙ outside x u (off.0 t)),
)
  where
    user : (i : ℕ) → i < ph.memsz → IsUser (ph.vaddr + i)
    user i h = (omega (arith, fits.above), omega (arith, h, fits.below))

Loads-cons :
    {D P : Type 0} (file : List ℕ) (ph : ProgramHeader) (phs : List ProgramHeader)
    (before middle : ℕ → ℕ) (r : Outcome ℕ × Machine D P)
    → Fits (length file) ph
    → All (Loadable (PagesApart ph)) phs
    → Imaged file middle ph
    → ((x : ℕ) → IsUser x → (x < page_start ph) ⊎ (page_end ph ≤ x) → middle x ≡ before x)
    → ph.type ≡ 1
    → Loads file phs middle r
    → Loads file (ph ∷ phs) before r
Loads-cons file ph phs before middle (failed e, m) fits apart own outside t rest = tt
Loads-cons file ph phs before middle (done k, m) fits apart own outside t rest =
    Image-cons file ph phs before middle m.memory fits apart own outside t rest

Loads-skip :
    {D P : Type 0} (file : List ℕ) (ph : ProgramHeader) (phs : List ProgramHeader) (before : ℕ → ℕ)
    (r : Outcome ℕ × Machine D P)
    → (ph.type == 1) ≡ false
    → Loads file phs before r
    → Loads file (ph ∷ phs) before r
Loads-skip file ph phs before (failed e, m) n rest = tt
Loads-skip file ph phs before (done k, m) n rest =
    (((λ e. absurd (ground (arith, e, n))), rest.0), (λ x u off. rest.1 x u off.1))

module _ {D P : Type 0} (paging : PageTables P) (maps : MapsApart paging) where
  -- One segment of the loop: its pages are mapped, filled and protected, then the rest is loaded.
  module _ (file : List ℕ) (ph : ProgramHeader) (phs : List ProgramHeader)
      (fits : Fits (length file) ph) (apart : All (Loadable (PagesApart ph)) phs) (t : ph.type ≡ 1)
      (rest : Machine D P → Outcome ℕ × Machine D P)
      (rest_loads : (m : Machine D P) → Loads file phs m.memory (rest m)) where
    protected-Loads :
        (before middle : ℕ → ℕ) (r : Outcome (Unit {0}) × Machine D P)
        → ((x : ℕ) → Shows x (middle x) r)
        → Imaged file middle ph
        → ((x : ℕ) → IsUser x → (x < page_start ph) ⊎ (page_end ph ≤ x) → middle x ≡ before x)
        → Loads file (ph ∷ phs) before (then_do paging r rest)
    protected-Loads before middle (failed e, m) h own outside = tt
    protected-Loads before middle (done u, m) h own outside =
        Loads-cons file ph phs before m.memory (rest m) fits apart
          (λ i b. h (ph.vaddr + i) ∙ own i b) (λ x u out. h x ∙ outside x u out) t (rest_loads m)

    mapped-Loads :
        (before : ℕ → ℕ) (r : Outcome (Unit {0}) × Machine D P)
        → ((x : ℕ) → IsUser x → (x < page_start ph) ⊎ (page_end ph ≤ x) → Shows x (before x) r)
        → Loads file (ph ∷ phs) before (
            then_do paging r (λ m1.
              then_do paging
                (protect_segment_pages paging ph.vaddr ph.memsz ph.flags
                  (record m1 { memory = filled file ph m1.memory }))
                rest))
    mapped-Loads before (failed e, m) h = tt
    mapped-Loads before (done u, m1) h =
        protected-Loads before (filled file ph m1.memory)
          (protect_segment_pages paging ph.vaddr ph.memsz ph.flags
            (record m1 { memory = filled file ph m1.memory }))
          (λ x.
            protect_segment_pages-Shows paging ph (record m1 { memory = filled file ph m1.memory })
              x)
          (filled-inside file ph fits m1.memory)
          (λ x u out. filled-outside file ph fits m1.memory x (narrow x out) ∙ h x u out)
      where
        narrow :
            (x : ℕ)
            → (x < page_start ph) ⊎ (page_end ph ≤ x)
            → (x < ph.vaddr) ⊎ (ph.vaddr + ph.memsz ≤ x)
        narrow x (inl l) = inl (omega (arith, l))
        narrow x (inr l) = inr (omega (arith, l, fits.below))

  -- Where each segment to load lies in the file and in user space and no page belongs to two of them,
  -- a load that succeeds leaves the image of each in memory, its bytes of the file and then 0 up to the
  -- end of its memory, and changes no byte of user space on any other page.
  pub load_segments-Loads :
      (file : List ℕ) (phs : List ProgramHeader) (loaded : ℕ) (m : Machine D P)
      → All (Loadable (Fits (length file))) phs
      → Disjoint phs
      → Loads file phs m.memory (load_segments paging file phs loaded m)
  unfolding load_segments
  load_segments-Loads file [] loaded m fits apart = (tt, λ x u off. refl)
  load_segments-Loads file (ph ∷ phs) loaded m fits apart = elim (Bool-cases (ph.type == 1)) [
    | inl load ↦
        let t : ph.type ≡ 1 = ground (arith, load) in
        rw load (
          mapped-Loads file ph phs (fits.0 t) (apart.0 t) t
            (λ m'. load_segments paging file phs (add32 loaded ph.filesz) m')
            (λ m'. load_segments-Loads file phs (add32 loaded ph.filesz) m' fits.1 apart.1) m.memory
            (map_segment_pages paging ph.vaddr ph.memsz m)
            (λ x u out. map_segment_pages-Shows paging maps ph (length file) m x (fits.0 t) u out))
    | inr other ↦ rw other (
        Loads-skip file ph phs m.memory (load_segments paging file phs loaded m) other
          (load_segments-Loads file phs loaded m fits.1 apart.1))
  ]
