-- ===== src/Elf/Accepted.antt =====
-- What the checks of kernel/elf.c accept: segments inside the file and inside user space, on pages of
-- their own, 64 KB at most together, with the entry among them.
use agentic_os_harness.Common.{
  ℕ, ◌+◌, ◌≤◌, ◌<◌, ◌≡◌, true, false, List, [], ◌∷◌, arith, ◌==◌, if◌then◌else◌, All, ◌⊎◌, add32,
  u32_mod,
}
use agentic_os_harness.Elf.Image.{ProgramHeader}
use agentic_os_harness.Elf.Checks.{
  align_down, align_up, range_inside_file, range_inside_user_space, validate_segment,
  ranges_overlap, overlaps_any,
}
use agentic_os_harness.Elf.Checks.{Layout, place_segment, place_segments}
use agentic_os_harness.Common.{
  Option, none, some, Bool-cases, subst, sub32, ltb, ◌==◌, refl, if◌then◌else◌, inl, inr,
}

-- The fields of a program header that the checks add are 32-bit words.
pub record IsWords (ph : ProgramHeader) : Type 0 where
  pub offset : ph.offset < u32_mod
  pub vaddr : ph.vaddr < u32_mod
  pub filesz : ph.filesz < u32_mod
  pub memsz : ph.memsz < u32_mod

-- A segment that can be loaded from a file of `size` bytes.
pub record Fits (size : ℕ) (ph : ProgramHeader) : Type 0 where
  pub some_memory : 0 < ph.memsz
  pub file_part : ph.filesz ≤ ph.memsz
  pub in_file : ph.offset + ph.filesz ≤ size
  pub above : 1073741824 ≤ ph.vaddr
  pub below : ph.vaddr + ph.memsz ≤ 2415919104

-- The pages of a segment.
abbrev pub page_start : ProgramHeader → ℕ
page_start ph = align_down ph.vaddr

abbrev pub page_end : ProgramHeader → ℕ
page_end ph = align_up (add32 ph.vaddr ph.memsz)

abbrev pub Apart : ℕ → ℕ → ℕ → ℕ → Type 0
Apart a_start a_end b_start b_end = (b_end ≤ a_start) ⊎ (a_end ≤ b_start)

-- The segment is to be loaded, so it has the property.
abbrev pub Loadable : (ProgramHeader → Type 0) → ProgramHeader → Type 0
Loadable Q ph = ph.type ≡ 1 → Q ph

abbrev pub PagesApart : ProgramHeader → ProgramHeader → Type 0
PagesApart ph other = Apart (page_start ph) (page_end ph) (page_start other) (page_end other)

-- No page belongs to two of the segments that are loaded.
abbrev pub Disjoint : List ProgramHeader → Type 0
Disjoint [] = Unit {0}
Disjoint (ph ∷ phs) = (ph.type ≡ 1 → All (Loadable (PagesApart ph)) phs) × Disjoint phs

abbrev pub ApartFrom : List (ℕ × ℕ) → ProgramHeader → Type 0
ApartFrom [] ph = Unit {0}
ApartFrom ((start, end) ∷ pages) ph =
    Apart start end (page_start ph) (page_end ph) × ApartFrom pages ph

-- The memory that the segments take.
abbrev pub total_memory : List ProgramHeader → ℕ
total_memory [] = 0
total_memory (ph ∷ phs) = (if ph.type == 1 then ph.memsz else 0) + total_memory phs

validate_segment-Fits :
    (ph : ProgramHeader) (size : ℕ)
    → IsWords ph
    → size < u32_mod
    → validate_segment ph size ≡ true
    → ph.type ≡ 1
    → Fits size ph
unfolding validate_segment range_inside_file range_inside_user_space
validate_segment-Fits ph size w small e t = record {
  some_memory = ground (arith, e, t);
  file_part = ground (arith, e, t);
  in_file = ground (arith, e, t, w.offset, w.filesz);
  above = ground (arith, e, t);
  below = ground (arith, e, t, w.vaddr, w.memsz);
}

overlaps_any-ApartFrom :
    (ph : ProgramHeader) (pages : List (ℕ × ℕ))
    → overlaps_any (page_start ph) (page_end ph) pages ≡ false
    → ApartFrom pages ph
unfolding overlaps_any ranges_overlap
overlaps_any-ApartFrom ph [] e = tt
overlaps_any-ApartFrom ph ((start, end) ∷ pages) e =
    (ground (arith, e), overlaps_any-ApartFrom ph pages (ground (arith, e)))

-- What the first loop establishes, from layout `l` to layout `l'`.
pub record Accepts (size : ℕ) (phs : List ProgramHeader) (l l' : Layout) : Type 0 where
  pub fits : All (Loadable (Fits size)) phs
  pub disjoint : Disjoint phs
  pub clear : All (Loadable (ApartFrom l.pages)) phs
  pub memory : l'.load_memory ≡ l.load_memory + total_memory phs
  pub small : l'.load_memory ≤ 65536
  pub low : 1073741824 ≤ l'.load_start
  pub high : l'.load_end ≤ 2415919104

-- A layout that the loop can have.
pub record IsLayout (l : Layout) : Type 0 where
  pub small : l.load_memory ≤ 65536
  pub low : 1073741824 ≤ l.load_start
  pub high : l.load_end ≤ 2415919104

-- What placing a segment that fits establishes.
record Places (ph : ProgramHeader) (l l' : Layout) : Type 0 where
  valid : IsLayout l'
  pages : l'.pages ≡ (page_start ph, page_end ph) ∷ l.pages
  memory : l'.load_memory ≡ l.load_memory + ph.memsz
  clear : ApartFrom l.pages ph

-- The layout behind a segment that fits, if it is placed.
abbrev PlacesIf : ProgramHeader → Layout → Option Layout → Type 0
PlacesIf ph l none = Unit {0}
PlacesIf ph l (some l') = Places ph l l'

place_segment-Places :
    (ph : ProgramHeader) (size : ℕ) (l : Layout)
    → Fits size ph
    → IsLayout l
    → PlacesIf ph l (place_segment ph l)
unfolding place_segment
place_segment-Places ph size l fits valid =
    elim (Bool-cases (overlaps_any (page_start ph) (page_end ph) l.pages)) [
      | inl meets ↦ rw meets tt
      | inr free ↦ elim (Bool-cases (ltb (sub32 65536 l.load_memory) ph.memsz)) [
        | inl big ↦ rw (free, big) tt
        | inr room ↦
            rw (free, room)
              (record {
                valid = record {
                  small = ground (arith, valid.small, room);
                  low = ground (arith, valid.low, fits.above);
                  high = ground (arith, valid.high, fits.below);
                };
                pages = refl;
                memory = ground (arith, valid.small, room);
                clear = overlaps_any-ApartFrom ph l.pages free;
              })
      ]
    ]

abbrev pub AcceptsIf : ℕ → List ProgramHeader → Layout → Option Layout → Type 0
AcceptsIf size phs l none = Unit {0}
AcceptsIf size phs l (some l') = Accepts size phs l l'

-- The segments behind `ph` are apart from its pages and from those before it.
split_clear :
    (ph : ProgramHeader) (pages : List (ℕ × ℕ)) (phs : List ProgramHeader)
    → All (Loadable (ApartFrom ((page_start ph, page_end ph) ∷ pages))) phs
    → All (Loadable (PagesApart ph)) phs × All (Loadable (ApartFrom pages)) phs
split_clear ph pages [] a = (tt, tt)
split_clear ph pages (q ∷ phs) a =
    let rest = split_clear ph pages phs a.1 in
    (((λ t. (a.0 t).0), rest.0), ((λ t. (a.0 t).1), rest.1))

-- A segment that is placed, and what the rest of the loop establishes.
Accepts-place :
    (size : ℕ) (ph : ProgramHeader) (phs : List ProgramHeader) (l l1 l2 : Layout)
    → ph.type ≡ 1
    → Fits size ph
    → Places ph l l1
    → Accepts size phs l1 l2
    → Accepts size (ph ∷ phs) l l2
Accepts-place size ph phs l l1 l2 t fits p a =
    let c =
      split_clear ph l.pages phs
        (subst (λ pages. All (Loadable (ApartFrom pages)) phs) p.pages a.clear) in
    record {
      fits = ((λ e. fits), a.fits);
      disjoint = ((λ e. c.0), a.disjoint);
      clear = ((λ e. p.clear), c.1);
      memory = ground (arith, a.memory, p.memory, t);
      small = a.small;
      low = a.low;
      high = a.high;
    }

Accepts-skip :
    (size : ℕ) (ph : ProgramHeader) (phs : List ProgramHeader) (l l2 : Layout)
    → (ph.type == 1) ≡ false
    → Accepts size phs l l2
    → Accepts size (ph ∷ phs) l l2
Accepts-skip size ph phs l l2 n a = record {
  fits = ((λ e. absurd (ground (arith, e, n))), a.fits);
  disjoint = ((λ e. absurd (ground (arith, e, n))), a.disjoint);
  clear = ((λ e. absurd (ground (arith, e, n))), a.clear);
  memory = ground (arith, a.memory, n);
  small = a.small;
  low = a.low;
  high = a.high;
}

AcceptsIf-skip :
    (size : ℕ) (ph : ProgramHeader) (phs : List ProgramHeader) (l : Layout) (o : Option Layout)
    → (ph.type == 1) ≡ false
    → AcceptsIf size phs l o
    → AcceptsIf size (ph ∷ phs) l o
AcceptsIf-skip size ph phs l none n a = tt
AcceptsIf-skip size ph phs l (some l2) n a = Accepts-skip size ph phs l l2 n a

pub place_segments-Accepts :
    (phs : List ProgramHeader) (size : ℕ) (l : Layout)
    → size < u32_mod
    → All IsWords phs
    → IsLayout l
    → AcceptsIf size phs l (place_segments phs size l)
unfolding place_segments
place_segments-Accepts [] size l small words valid = record {
  fits = tt;
  disjoint = tt;
  clear = tt;
  memory = omega arith;
  small = valid.small;
  low = valid.low;
  high = valid.high;
}
place_segments-Accepts (ph ∷ phs) size l small words valid =
    elim (Bool-cases (validate_segment ph size)) [
      | inr bad ↦ rw bad tt
      | inl good ↦ elim (Bool-cases (ph.type == 1)) [
        | inr other ↦
            rw (good, other)
              (AcceptsIf-skip size ph phs l (place_segments phs size l) other
                (place_segments-Accepts phs size l small words.1 valid))
        | inl load ↦
            let fits = validate_segment-Fits ph size words.0 small good (ground (arith, load)) in
            rw (good, load)
              (behind size ph phs l (ground (arith, load)) fits (place_segment ph l)
                (place_segment-Places ph size l fits valid)
                (λ l1 v. place_segments-Accepts phs size l1 small words.1 v))
      ]
    ]
  where
    behind :
        (size : ℕ) (ph : ProgramHeader) (phs : List ProgramHeader) (l : Layout)
        → ph.type ≡ 1
        → Fits size ph
        → (o : Option Layout) → PlacesIf ph l o
        → ((l1 : Layout) → IsLayout l1 → AcceptsIf size phs l1 (place_segments phs size l1))
        → AcceptsIf size
            (ph ∷ phs)
            l
            (elim o [ none ↦ none | some l1 ↦ place_segments phs size l1 ])
    behind size ph phs l t fits none p rest = tt
    behind size ph phs l t fits (some l1) p rest =
        finish (place_segments phs size l1) (rest l1 p.valid)
      where
        finish : (o : Option Layout) → AcceptsIf size phs l1 o → AcceptsIf size (ph ∷ phs) l o
        finish none a = tt
        finish (some l2) a = Accepts-place size ph phs l l1 l2 t fits p a
