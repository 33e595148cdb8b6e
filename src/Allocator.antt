-- ===== src/Allocator.antt =====
-- kernel/allocator.c: the kernel heap. The doubly linked list of headers is the list of the blocks in
-- its order, each with the address of its header, which has 16 bytes; before `allocator_init` it is
-- empty. A pointer that `kmalloc` did not return is outside the model of `kfree`.
pub mod Tiling
pub mod Release
mod Tests
use agentic_os_harness.Common.{
  ℕ, ◌+◌, ◌-◌, ◌%◌, Bool, true, false, not, ◌&&◌, ◌||◌, Option, none, some, List, [], ◌∷◌, ltb, leb,
  ◌==◌, if◌then◌else◌, add32, sub32,
}

abbrev pub heap_start : ℕ
heap_start = 2097152

abbrev pub heap_size : ℕ
heap_size = 1048576

abbrev pub header_size : ℕ
header_size = 16

abbrev pub min_split : ℕ
min_split = 32

-- `struct heap_block`
pub record Block : Type 0 where
  pub address : ℕ
  pub size : ℕ
  pub free : Bool

pub record Heap : Type 0 where
  pub blocks : List Block
  pub used : ℕ

-- `(value + 15) & ~15` in 32 bits
abbrev pub align_up : ℕ → ℕ
align_up value = let sum = add32 value 15 in sum - sum % 16

unfoldable pub allocator_init : Heap
allocator_init = record {
  blocks = record { address = heap_start; size = heap_size - header_size; free = true } ∷ [];
  used = 0;
}

-- The block, and the free one that `split_block` puts behind it.
abbrev pub split_block : Block → ℕ → List Block → List Block
split_block b needed rest =
    let remaining = b.size - needed in
    if leb remaining (header_size + min_split)
    then record b { free = false } ∷ rest
    else record b { size = needed; free = false }
      ∷ record {
        address = b.address + header_size + needed;
        size = remaining - header_size;
        free = true;
      }
      ∷ rest

-- What `heap_used` grows by.
abbrev pub split_size : Block → ℕ → ℕ
split_size b needed = if leb (b.size - needed) (header_size + min_split) then b.size else needed

-- The loop of `kmalloc`: the pointer, what it takes, and the blocks.
pub alloc_from : List Block → ℕ → Option ℕ × ℕ × List Block
alloc_from [] needed = (none, 0, [])
alloc_from (b ∷ bs) needed =
    let (pointer, taken, rest) = alloc_from bs needed in
    if b.free && leb needed b.size
    then (some (b.address + header_size), split_size b needed, split_block b needed bs)
    else (pointer, taken, b ∷ rest)

unfoldable pub kmalloc : Heap → ℕ → Option ℕ × Heap
unfolding alloc_from
kmalloc h size =
    if size == 0
    then (none, h)
    else let (pointer, taken, blocks) = alloc_from h.blocks (align_up size) in
      (pointer, record { blocks = blocks; used = add32 h.used taken })

-- The first half of `coalesce`: a free block behind is taken in.
abbrev pub merge_next : Block → List Block → List Block
merge_next b [] = b ∷ []
merge_next b (n ∷ rest) =
    if n.free then record b { size = b.size + header_size + n.size } ∷ rest else b ∷ n ∷ rest

-- The second half: the block before takes this one in, if it is free.
abbrev pub merge_into : Option Block → List Block → List Block
merge_into none bs = bs
merge_into (some p) [] = p ∷ []
merge_into (some p) (b ∷ rest) =
    if p.free then record p { size = p.size + header_size + b.size } ∷ rest else p ∷ b ∷ rest

abbrev pub put_before : Option Block → List Block → List Block
put_before none bs = bs
put_before (some p) bs = p ∷ bs

-- The blocks behind `prev` when the block with its header at `address` is freed, and the size that it
-- had; a block that is free is left alone.
pub free_in : ℕ → Option Block → List Block → Option ℕ × List Block
free_in address prev [] = (none, put_before prev [])
free_in address prev (b ∷ bs) =
    let (size, rest) = free_in address (some b) bs in
    if b.address == address
    then (if b.free
        then (none, put_before prev (b ∷ bs))
        else (some b.size, merge_into prev (merge_next (record b { free = true }) bs)))
    else (size, put_before prev rest)

-- `if (heap_used >= block->size) heap_used -= block->size; else heap_used = 0;`
abbrev pub lowered : ℕ → Option ℕ → ℕ
lowered used none = used
lowered used (some size) = if leb size used then used - size else 0

unfoldable pub kfree : Heap → ℕ → Heap
unfolding free_in
kfree h pointer =
    if pointer == 0
    then h
    else let (size, blocks) = free_in (pointer - header_size) none h.blocks in
      record { blocks = blocks; used = lowered h.used size }

abbrev pub sum_free : List Block → ℕ
sum_free [] = 0
sum_free (b ∷ bs) = if b.free then add32 b.size (sum_free bs) else sum_free bs

unfoldable pub allocator_get_free_bytes : Heap → ℕ
allocator_get_free_bytes h = sum_free h.blocks
