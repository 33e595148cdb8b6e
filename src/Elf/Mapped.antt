-- ===== src/Elf/Mapped.antt =====
-- One segment in the memory behind a load in kernel/elf.c: its bytes, and the pages that are mapped for it.
use agentic_os_harness.Common.{
  ℕ, zero, suc, ◌+◌, ◌-◌, ◌*◌, ◌≤◌, ◌<◌, ◌≡◌, refl, ap, ◌∙◌, Bool, true, false, not, List, [], ◌∷◌,
  ◌++◌, arith, ltb, ◌==◌, if◌then◌else◌, Bool-cases, inl, inr, ◌⊎◌, length, get_or, take, drop,
  length-take, length-drop, get_or-take, get_or-drop, store_bytes,
}
use agentic_os_harness.Frame.{Frames, frame_alloc}
use agentic_os_harness.Strings.{memset}
use agentic_os_harness.Strings.Blocks.{in_block, memset-in_block}
use agentic_os_harness.Elf.Image.{ProgramHeader}
use agentic_os_harness.Elf.Checks.{frame_size}
use agentic_os_harness.Elf.Accepted.{Fits, page_start, page_end}
use agentic_os_harness.Elf.Load.{
  PageTables, Machine, Outcome, done, failed, map_pages_from, map_segment_pages, pages_between,
  protect_pages_from, protect_segment_pages, filled,
}

get_or-cons : (b : ℕ) (bs : List ℕ) (i : ℕ) → 0 < i → get_or (b ∷ bs) i 0 ≡ get_or bs (i - 1) 0
get_or-cons b bs zero h = absurd (omega arith)
get_or-cons b bs (suc i) h = ap (λ j. get_or bs j 0) (omega arith)

-- A store of bytes, read at an address.
store_bytes-in_block :
    (bytes : List ℕ) (mem : ℕ → ℕ) (a x : ℕ)
    → store_bytes mem a bytes x
      ≡ (if in_block a (length bytes) x then get_or bytes (x - a) 0 else mem x)
store_bytes-in_block [] mem a x = ground arith
store_bytes-in_block (b ∷ bs) mem a x =
    store_bytes-in_block bs (λ y. if y == a then b else mem y) (a + 1) x
    ∙ elim (Bool-cases (ltb a x)) [
      | inl above ↦
          let rest : get_or (b ∷ bs) (x - a) 0 ≡ get_or bs (x - (a + 1)) 0 =
            get_or-cons b bs (x - a) (ground (arith, above))
            ∙ ap (λ j. get_or bs j 0) (omega arith) in
          ground (arith, above, rest)
      | inr below ↦ elim (Bool-cases (x == a)) [
        | inl here ↦
            let first : get_or (b ∷ bs) (x - a) 0 ≡ b =
              ap (λ j. get_or (b ∷ bs) j 0) {x = x - a} {y = 0} (ground (arith, here)) in
            ground (arith, here, first)
        | inr there ↦ ground (arith, below, there)
      ]
    ]

-- What the loader writes at the segment's address `i`.
abbrev pub image_byte : List ℕ → ProgramHeader → ℕ → ℕ
image_byte file ph i = if ltb i ph.filesz then get_or file (ph.offset + i) 0 else 0

module _ (file : List ℕ) (ph : ProgramHeader) (fits : Fits (length file) ph) (memory : ℕ → ℕ) where
  part_length : length (take ph.filesz (drop ph.offset file)) ≡ ph.filesz
  part_length =
      length-take ph.filesz (drop ph.offset file)
        (omega (arith, length-drop ph.offset file, fits.in_file))

  pub filled-inside :
      (i : ℕ) → i < ph.memsz → filled file ph memory (ph.vaddr + i) ≡ image_byte file ph i
  unfolding filled
  filled-inside i h =
      store_bytes-in_block (take ph.filesz (drop ph.offset file))
        (memset memory ph.vaddr 0 ph.memsz) ph.vaddr (ph.vaddr + i)
      ∙ elim (Bool-cases (ltb i ph.filesz)) [
        | inl stored ↦
            let inside : in_block ph.vaddr (length (take ph.filesz (drop ph.offset file)))
                  (ph.vaddr + i)
                ≡ true =
              ground (arith, part_length, stored) in
            let byte : get_or (take ph.filesz (drop ph.offset file)) (ph.vaddr + i - ph.vaddr) 0
                ≡ get_or file (ph.offset + i) 0 =
              ap (λ j. get_or (take ph.filesz (drop ph.offset file)) j 0) (omega arith)
              ∙ get_or-take ph.filesz i (drop ph.offset file) 0 (ground (arith, stored))
              ∙ get_or-drop ph.offset i file 0 in
            rw (inside, stored) byte
        | inr zeroed ↦
            let outside : in_block ph.vaddr (length (take ph.filesz (drop ph.offset file)))
                  (ph.vaddr + i)
                ≡ false =
              ground (arith, part_length, zeroed) in
            rw (outside, zeroed)
              (memset-in_block ph.memsz memory ph.vaddr 0 (ph.vaddr + i) ∙ ground (arith, h))
      ]

  pub filled-outside :
      (x : ℕ) → (x < ph.vaddr) ⊎ (ph.vaddr + ph.memsz ≤ x) → filled file ph memory x ≡ memory x
  unfolding filled
  filled-outside x h =
      store_bytes-in_block (take ph.filesz (drop ph.offset file))
        (memset memory ph.vaddr 0 ph.memsz) ph.vaddr x
      ∙ ground (arith, part_length, memset-in_block ph.memsz memory ph.vaddr 0 x, fits.file_part, h)

module _ {D P A : Type 0} where
  -- Where the result is no error, memory shows `value` at `x`.
  abbrev pub Shows : ℕ → ℕ → Outcome A × Machine D P → Type 0
  Shows x value (done a, m) = m.memory x ≡ value
  Shows x value (failed e, m) = Unit {0}

  either-Shows :
      (b : Bool) (x value : ℕ) (r r' : Outcome A × Machine D P)
      → Shows x value r
      → (b ≡ false → Shows x value r')
      → Shows x value (if b then r else r')
  either-Shows true x value r r' p q = p
  either-Shows false x value r r' p q = q refl

  Shows-trans : (x v w : ℕ) (r : Outcome A × Machine D P) → v ≡ w → Shows x v r → Shows x w r
  Shows-trans x v w (done a, m) e h = h ∙ e
  Shows-trans x v w (failed e', m) e h = tt

-- The addresses of user space.
abbrev pub IsUser : ℕ → Type 0
IsUser x = (1073741824 ≤ x) × (x < 3221225472)

-- A page that is mapped changes what its own addresses show, and no other address of user space.
abbrev pub MapsApart : {P : Type 0} → PageTables P → Type 0
MapsApart {P = P} paging =
    (cr3 page phys flags : ℕ) (frames : Frames) (p : P) (before : ℕ → ℕ) (x : ℕ)
    → IsUser x
    → (x < page) ⊎ (page + frame_size ≤ x)
    → let (linked, frames', p') = paging.map_page_in_directory cr3 page phys flags frames p in
      linked ≡ true → paging.shown p' before x ≡ before x

module _ {D P : Type 0} (paging : PageTables P) (maps : MapsApart paging) where
  -- Mapping pages changes what their addresses show, and no other.
  map_pages_from-Shows :
      (n page : ℕ) (mapped : List (ℕ × ℕ)) (m : Machine D P) (x : ℕ)
      → IsUser x
      → (x < page) ⊎ (page + n * frame_size ≤ x)
      → Shows x (m.memory x) (map_pages_from paging n page mapped m)
  unfolding map_pages_from
  map_pages_from-Shows zero page mapped m x user out = refl
  map_pages_from-Shows (suc n) page mapped m x user out =
      let (phys, frames) = frame_alloc m.frames in
      let pages = m.pages in
      let (linked, frames', pages') =
        paging.map_page_in_directory (paging.current_directory pages) page phys 7 frames pages in
      let m2 = record m {
        frames = frames';
        pages = pages';
        memory = paging.shown pages' m.memory;
      } in
      let rest =
        map_pages_from-Shows n (page + frame_size) (mapped ++ (page, phys) ∷ []) m2 x user
          (further n page x out) in
      either-Shows (paging.is_mapped page m.pages) x (m.memory x) _ _ tt (λ e.
        either-Shows (phys == 0) x (m.memory x) _ _ tt (λ e.
          either-Shows (not linked) x (m.memory x) _ _ tt (λ link.
            let same : m2.memory x ≡ m.memory x =
              maps (paging.current_directory pages) page phys 7 frames pages m.memory x user
                (first n page x out) (ground (arith, link)) in
            either-Shows (not (paging.is_user_writable page pages')) x (m.memory x) _ _ tt
              (λ e. Shows-trans x (m2.memory x) (m.memory x) _ same rest))))
    where
      first :
          (n page x : ℕ)
          → (x < page) ⊎ (page + suc n * frame_size ≤ x)
          → (x < page) ⊎ (page + frame_size ≤ x)
      first n page x (inl l) = inl l
      first n page x (inr l) = inr (omega (arith, l))

      further :
          (n page x : ℕ)
          → (x < page) ⊎ (page + suc n * frame_size ≤ x)
          → (x < page + frame_size) ⊎ (page + frame_size + n * frame_size ≤ x)
      further n page x (inl l) = inl (omega arith)
      further n page x (inr l) = inr (omega arith)

  pub map_segment_pages-Shows :
      (ph : ProgramHeader) (size : ℕ) (m : Machine D P) (x : ℕ)
      → Fits size ph
      → IsUser x
      → (x < page_start ph) ⊎ (page_end ph ≤ x)
      → Shows x (m.memory x) (map_segment_pages paging ph.vaddr ph.memsz m)
  unfolding map_segment_pages
  map_segment_pages-Shows ph size m x fits user out =
      map_pages_from-Shows (pages_between (page_start ph) (page_end ph)) (page_start ph) [] m x user
        (beyond out)
    where
      beyond :
          (x < page_start ph) ⊎ (page_end ph ≤ x)
          → (x < page_start ph)
            ⊎ (page_start ph + pages_between (page_start ph) (page_end ph) * frame_size ≤ x)
      beyond (inl l) = inl l
      beyond (inr l) = inr (omega (arith, l, fits.below))

module _ {D P : Type 0} (paging : PageTables P) where
  protect_pages_from-Shows :
      (n page flags : ℕ) (m : Machine D P) (x : ℕ)
      → Shows x (m.memory x) (protect_pages_from paging n page flags m)
  unfolding protect_pages_from
  protect_pages_from-Shows zero page flags m x = refl
  protect_pages_from-Shows (suc n) page flags m x =
      let (changed, pages) =
        paging.set_page_flags_in_directory (paging.current_directory m.pages) page flags m.pages in
      either-Shows (not changed) x (m.memory x) _ _ tt
        (λ e. protect_pages_from-Shows n (page + frame_size) flags (record m { pages = pages }) x)

  pub protect_segment_pages-Shows :
      (ph : ProgramHeader) (m : Machine D P) (x : ℕ)
      → Shows x (m.memory x) (protect_segment_pages paging ph.vaddr ph.memsz ph.flags m)
  unfolding protect_segment_pages
  protect_segment_pages-Shows ph m x = protect_pages_from-Shows _ (page_start ph) _ m x
