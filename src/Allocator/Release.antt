-- ===== src/Allocator/Release.antt =====
-- `kfree` of kernel/allocator.c keeps the heap tiled and its used bytes counted.
use agentic_os_harness.Common.{
  ℕ, ◌+◌, ◌-◌, ◌≡◌, refl, sym, ◌∙◌, true, Option, none, some, List, [], ◌∷◌, arith, ◌==◌,
  if◌then◌else◌, if_rule,
}
use agentic_os_harness.Allocator.{
  Block, Heap, heap_start, heap_size, header_size, merge_next, merge_into, put_before, free_in,
  lowered, kfree,
}
use agentic_os_harness.Allocator.Tiling.{Tiles, Tiles-at, used_bytes, IsHeap}

merge_next-Tiles :
    (a e : ℕ) (b : Block) (bs : List Block) → Tiles a e (b ∷ bs) → Tiles a e (merge_next b bs)
merge_next-Tiles a e b [] t = t
merge_next-Tiles a e b (n ∷ rest) t =
    if_rule (λ l. Tiles a e l) n.free _ _
      (λ f. (
        t.0,
        Tiles-at (a + header_size + b.size + header_size + n.size) _ e rest (omega arith) t.1.1,
      ))
      (λ f. t)

merge_next-used :
    (b : Block) (bs : List Block) → b.free ≡ true → used_bytes (merge_next b bs) ≡ used_bytes bs
merge_next-used b [] f = ground (arith, f)
merge_next-used b (n ∷ rest) f = ground (arith, f)

-- The blocks behind `prev`, which begins at `a`.
merge_into-Tiles :
    (a e : ℕ) (o : Option Block) (bs : List Block)
    → Tiles a e (put_before o bs)
    → Tiles a e (merge_into o bs)
merge_into-Tiles a e none bs t = t
merge_into-Tiles a e (some p) [] t = t
merge_into-Tiles a e (some p) (b ∷ rest) t =
    if_rule (λ l. Tiles a e l) p.free _ _
      (λ f. (
        t.0,
        Tiles-at (a + header_size + p.size + header_size + b.size) _ e rest (omega arith) t.1.1,
      ))
      (λ f. t)

merge_into-used :
    (o : Option Block) (b : Block) (bs : List Block)
    → b.free ≡ true
    → used_bytes (merge_into o (b ∷ bs)) ≡ used_bytes (put_before o (b ∷ bs))
merge_into-used none b bs f = refl
merge_into-used (some p) b bs f = ground (arith, f)

coalesced-used :
    (o : Option Block) (b : Block) (bs : List Block)
    → b.free ≡ true
    → used_bytes (merge_into o (merge_next b bs)) ≡ used_bytes (put_before o (merge_next b bs))
coalesced-used o b [] f = merge_into-used o b [] f
coalesced-used o b (n ∷ rest) f =
    if_rule (λ l. used_bytes (merge_into o l) ≡ used_bytes (put_before o l)) n.free _ _
      (λ g. merge_into-used o (record b { size = b.size + header_size + n.size }) rest f)
      (λ g. merge_into-used o b (n ∷ rest) f)

put_before-Tiles :
    (a e : ℕ) (o : Option Block) (bs cs : List Block)
    → ((start : ℕ) → Tiles start e bs → Tiles start e cs)
    → Tiles a e (put_before o bs)
    → Tiles a e (put_before o cs)
put_before-Tiles a e none bs cs f t = f a t
put_before-Tiles a e (some p) bs cs f t = (t.0, f (a + header_size + p.size) t.1)

abbrev before_bytes : Option Block → ℕ
before_bytes none = 0
before_bytes (some p) = if p.free then 0 else p.size

put_before-used :
    (o : Option Block) (bs : List Block)
    → used_bytes (put_before o bs) ≡ before_bytes o + used_bytes bs
put_before-used none bs = omega arith
put_before-used (some p) bs = ground arith

abbrev size_of : Option ℕ → ℕ
size_of none = 0
size_of (some n) = n

-- The blocks behind a call of `free_in`: still a tiling, and short of the size that was freed.
record Freed (e : ℕ) (all : List Block) (r : Option ℕ × List Block) : Type 0 where
  pub tiled : (a : ℕ) → Tiles a e all → Tiles a e r.1
  pub lower : used_bytes r.1 + size_of r.0 ≡ used_bytes all

free_in-Freed :
    (e address : ℕ) (o : Option Block) (bs : List Block)
    → Freed e (put_before o bs) (free_in address o bs)
unfolding free_in
free_in-Freed e address o [] = record { tiled = λ a t. t; lower = omega arith }
free_in-Freed e address o (b ∷ bs) =
    let rest = free_in-Freed e address (some b) bs in
    let b' = record b { free = true } in
    if_rule (λ (r : Option ℕ × List Block). Freed e (put_before o (b ∷ bs)) r)
      (b.address == address) _ _
      (λ here.
        if_rule (λ (r : Option ℕ × List Block). Freed e (put_before o (b ∷ bs)) r) b.free _ _
          (λ f. record { tiled = λ a t. t; lower = omega arith })
          (λ f. record {
            tiled = λ a t. merge_into-Tiles a e o (merge_next b' bs) (
                put_before-Tiles a e o (b ∷ bs) (merge_next b' bs)
                  (λ start u. merge_next-Tiles start e b' bs u) t);
            lower =
                let own : used_bytes (b ∷ bs) ≡ b.size + used_bytes bs = ground (arith, f) in
                omega (
                  arith,
                  coalesced-used o b' bs refl,
                  put_before-used o (merge_next b' bs),
                  merge_next-used b' bs refl,
                  put_before-used o (b ∷ bs),
                  own,
                );
          }))
      (λ other. record {
        tiled = λ a t.
            put_before-Tiles a e o (b ∷ bs) (free_in address (some b) bs).1
              (λ start u. rest.tiled start u) t;
        lower = omega (
          arith,
          rest.lower,
          put_before-used o (free_in address (some b) bs).1,
          put_before-used o (b ∷ bs),
        );
      })

lowered-eq :
    (used rest : ℕ) (size : Option ℕ) → rest + size_of size ≡ used → lowered used size ≡ rest
lowered-eq used rest none e = omega (arith, e)
lowered-eq used rest (some n) e = ground (arith, e)

-- On a heap whose blocks tile it, `kfree` of NULL or of the pointer of a block leaves the blocks tiling
-- it and the used bytes counted; of another pointer the model changes nothing.
pub kfree-IsHeap : (h : Heap) (pointer : ℕ) → IsHeap h → IsHeap (kfree h pointer)
unfolding kfree
kfree-IsHeap h pointer v =
    if_rule IsHeap (pointer == 0) h _ (λ f. v)
      (λ f.
        let r = free_in (pointer - header_size) none h.blocks in
        let t = free_in-Freed (heap_start + heap_size) (pointer - header_size) none h.blocks in
        record {
          tiles = t.tiled heap_start v.tiles;
          counted = lowered-eq h.used (used_bytes r.1) r.0 (t.lower ∙ sym v.counted);
        })
