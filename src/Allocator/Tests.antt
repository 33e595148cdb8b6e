-- ===== src/Allocator/Tests.antt =====
-- Runs of kernel/allocator.c.
use agentic_os_harness.Common.{◌≡◌, refl, some}
use agentic_os_harness.Allocator.{allocator_init, kmalloc, kfree, alloc_from, align_up}
use agentic_os_harness.Allocator.Tiling.{IsHeap, allocator_init-IsHeap, Grant, kmalloc-Grant}
use agentic_os_harness.Allocator.Release.{kfree-IsHeap}

kmalloc-Grant_example : Grant allocator_init 100 (kmalloc allocator_init 100)
kmalloc-Grant_example = kmalloc-Grant allocator_init 100 allocator_init-IsHeap

kfree-IsHeap_example : IsHeap (kfree (kmalloc allocator_init 100).1 2097168)
kfree-IsHeap_example =
    kfree-IsHeap (kmalloc allocator_init 100).1 2097168 kmalloc-Grant_example.heap

-- The aligned size wraps around: almost 4 GB are granted, as a block of 0 bytes.
oversize_pointer : (kmalloc allocator_init 4294967295).0 ≡ some 2097168
unfolding kmalloc alloc_from allocator_init
oversize_pointer = refl

oversize_bytes : align_up 4294967295 ≡ 0
oversize_bytes = refl
