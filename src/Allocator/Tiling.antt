-- ===== src/Allocator/Tiling.antt =====
-- The blocks of kernel/allocator.c tile the heap, and the used bytes are counted.
use agentic_os_harness.Common.{
  ℕ, ◌+◌, ◌-◌, ◌≤◌, ◌<◌, ◌≡◌, refl, ap, subst, true, false, ◌&&◌, Option, none, some, List, [], ◌∷◌,
  arith, leb, ◌==◌, if◌then◌else◌, inl, inr, ◌⊎◌, if_rule, u32_mod, add32, ◌≢◌,
}
use agentic_os_harness.Allocator.{
  Block, Heap, heap_start, heap_size, header_size, min_split, align_up, allocator_init, split_block,
  split_size, alloc_from, kmalloc,
}
use agentic_os_harness.Common.{All}

-- From `a` to `e` every byte belongs to one block.
abbrev pub Tiles : ℕ → ℕ → List Block → Type 0
Tiles a e [] = a ≡ e
Tiles a e (b ∷ bs) = (b.address ≡ a) × Tiles (a + header_size + b.size) e bs

abbrev pub used_bytes : List Block → ℕ
used_bytes [] = 0
used_bytes (b ∷ bs) = if b.free then used_bytes bs else b.size + used_bytes bs

pub record IsHeap (h : Heap) : Type 0 where
  pub tiles : Tiles heap_start (heap_start + heap_size) h.blocks
  pub counted : h.used ≡ used_bytes h.blocks

pub allocator_init-IsHeap : IsHeap allocator_init
unfolding allocator_init
allocator_init-IsHeap = record { tiles = (refl, refl); counted = refl }

used_bytes-bound : (a e : ℕ) (bs : List Block) → Tiles a e bs → a + used_bytes bs ≤ e
used_bytes-bound a e [] t = omega (arith, t)
used_bytes-bound a e (b ∷ bs) t =
    ground (arith, used_bytes-bound (a + header_size + b.size) e bs t.1)

pub Tiles-at : (a b e : ℕ) (bs : List Block) → a ≡ b → Tiles a e bs → Tiles b e bs
Tiles-at a b e bs s t = subst (λ x. Tiles x e bs) s t

split_block-Tiles :
    (a e needed : ℕ) (b : Block) (bs : List Block)
    → needed ≤ b.size
    → Tiles a e (b ∷ bs)
    → Tiles a e (split_block b needed bs)
split_block-Tiles a e needed b bs h t =
    if_rule (λ l. Tiles a e l) (leb (b.size - needed) (header_size + min_split)) _ _ (λ f. t)
      (λ f. (
        t.0,
        (
          ap (λ x. x + header_size + needed) t.0,
          Tiles-at (a + header_size + b.size) _ e bs (ground (arith, f, h)) t.1,
        ),
      ))

split_block-used :
    (needed : ℕ) (b : Block) (bs : List Block)
    → b.free ≡ true
    → used_bytes (split_block b needed bs) ≡ split_size b needed + used_bytes (b ∷ bs)
split_block-used needed b bs f = ground (arith, f)

-- A block in use behind the pointer `p`, of at least `n` bytes.
abbrev pub HasUsed : ℕ → ℕ → List Block → Type 0
HasUsed p n [] = ⊥
HasUsed p n (b ∷ bs) =
    ((b.address + header_size ≡ p) × (b.free ≡ false) × (n ≤ b.size)) ⊎ HasUsed p n bs

-- `p` points behind the header of the first free block of at least `n` bytes.
abbrev pub FirstFit : ℕ → ℕ → List Block → Type 0
FirstFit p n [] = ⊥
FirstFit p n (b ∷ bs) =
    ((b.address + header_size ≡ p) × (b.free ≡ true) × (n ≤ b.size))
    ⊎ ((b.free ≡ true → b.size < n) × FirstFit p n bs)

-- What the search of `kmalloc` leaves.
pub record Allocated (a e needed : ℕ) (bs : List Block) (r : Option ℕ × ℕ × List Block)
    : Type 0 where
  pub tiled : Tiles a e r.2
  pub grown : used_bytes r.2 ≡ r.1 + used_bytes bs
  pub given : (p : ℕ) → r.0 ≡ some p → FirstFit p needed bs × HasUsed p needed r.2
  pub refused : r.0 ≡ none → (r.1 ≡ 0) × (r.2 ≡ bs) × All (λ b. b.free ≡ true → b.size < needed) bs

split_block-HasUsed :
    (needed p : ℕ) (b : Block) (bs : List Block)
    → needed ≤ b.size
    → b.address + header_size ≡ p
    → HasUsed p needed (split_block b needed bs)
split_block-HasUsed needed p b bs h e =
    if_rule (λ l. HasUsed p needed l) (leb (b.size - needed) (header_size + min_split)) _ _
      (λ f. inl (e, refl, h)) (λ f. inl (e, refl, omega arith))

alloc_from-Allocated :
    (a e needed : ℕ) (bs : List Block)
    → Tiles a e bs
    → Allocated a e needed bs (alloc_from bs needed)
unfolding alloc_from
alloc_from-Allocated a e needed [] t = record {
  tiled = t;
  grown = refl;
  given = λ p f. absurd (cc);
  refused = λ f. (refl, refl, tt);
}
alloc_from-Allocated a e needed (b ∷ bs) t =
    let rest = alloc_from-Allocated (a + header_size + b.size) e needed bs t.1 in
    if_rule (λ (r : Option ℕ × ℕ × List Block). Allocated a e needed (b ∷ bs) r)
      (b.free && leb needed b.size) _ _
      (λ f. record {
        tiled = split_block-Tiles a e needed b bs (ground (arith, f)) t;
        grown = split_block-used needed b bs (ground (arith, f));
        given = λ p g. (
          inl (cc, ground (arith, f), ground (arith, f)),
          split_block-HasUsed needed p b bs (ground (arith, f)) (cc),
        );
        refused = λ g. absurd (cc);
      })
      (λ f. record {
        tiled = (t.0, rest.tiled);
        grown = ground (arith, rest.grown);
        given = λ p g. let r = rest.given p g in (inr (λ x. ground (arith, f), r.0), inr r.1);
        refused = λ g.
            let r = rest.refused g in (r.0, ap (λ l. b ∷ l) r.1, (λ x. ground (arith, f), r.2));
      })

abbrev heap_of : List Block → ℕ → Heap
heap_of blocks used = record { blocks = blocks; used = used }

same_heap : (bs cs : List Block) (m n : ℕ) → bs ≡ cs → m ≡ n → heap_of bs m ≡ heap_of cs n
same_heap bs cs m n e f = cc

-- What an allocation does: the first free block that is large enough is in use, or nothing changes, when
-- there is none or the size is 0.
pub record Grant (h : Heap) (size : ℕ) (r : Option ℕ × Heap) : Type 0 where
  pub heap : IsHeap r.1
  pub given :
      (p : ℕ)
      → r.0 ≡ some p
      → (size ≢ 0) × FirstFit p (align_up size) h.blocks × HasUsed p (align_up size) r.1.blocks
  pub refused :
      r.0 ≡ none
      → (r.1 ≡ h) × ((size ≡ 0) ⊎ All (λ b. b.free ≡ true → b.size < align_up size) h.blocks)

-- On a heap whose blocks tile it, `kmalloc` leaves the blocks tiling it and the used bytes counted. A
-- pointer that it returns is, for a size that is not 0, that of the first free block of at least the
-- aligned size, and that block is then in use; it returns nothing only when the size is 0 or no free block
-- is as large, and then changes nothing.
pub kmalloc-Grant : (h : Heap) (size : ℕ) → IsHeap h → Grant h size (kmalloc h size)
unfolding kmalloc
kmalloc-Grant h size v =
    if_rule (λ (r : Option ℕ × Heap). Grant h size r) (size == 0) _ _
      (λ f. record {
        heap = v;
        given = λ p g. absurd (cc);
        refused = λ g. (refl, inl (ground arith));
      })
      (λ f.
        let r = alloc_from h.blocks (align_up size) in
        let t =
          alloc_from-Allocated heap_start (heap_start + heap_size) (align_up size) h.blocks
            v.tiles in
        let bound = used_bytes-bound heap_start (heap_start + heap_size) r.2 t.tiled in
        let small : h.used + r.1 < u32_mod = omega (arith, bound, t.grown, v.counted) in
        record {
          heap = record { tiles = t.tiled; counted = omega (arith, small, t.grown, v.counted) };
          given = λ p g. let x = t.given p g in (λ e. ground (arith, f, e), x.0, x.1);
          refused = λ g.
              let x = t.refused g in
              let same : add32 h.used r.1 ≡ h.used = omega (arith, x.0, small) in
              (same_heap r.2 h.blocks (add32 h.used r.1) h.used x.1 same, inr x.2);
        })
