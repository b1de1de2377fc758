-- ===== src/Kmalloc/Tests.antt =====
-- A run of core/kmalloc.rs on a fresh heap.
use the_cursed_moon_kernel.Prelude.{◌+◌, ◌^◌, arith}
use the_cursed_moon_kernel.Kmalloc.{heap_start, kmalloc_aligned}
use the_cursed_moon_kernel.Kmalloc.Blocks.{Block, kmalloc_aligned_lem}

kmalloc_aligned_lem_example :
    Block 100 4096 (heap_start + 3) (kmalloc_aligned (2 ^ 32) (heap_start + 3) 100 4096)
kmalloc_aligned_lem_example =
    kmalloc_aligned_lem (2 ^ 32) (heap_start + 3) 100 4096 (omega arith) (omega arith) (omega arith)
