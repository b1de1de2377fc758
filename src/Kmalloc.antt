-- ===== src/Kmalloc.antt =====
-- kernel/src/level0a/core/kmalloc.rs: the bump allocator of the kernel's heap. `usize` has `word`
-- values; its state, NEXT_FREE, is the address of the first free byte.
pub mod Blocks
mod Tests
use the_cursed_moon_kernel.Prelude.{
  ℕ, ◌+◌, ◌-◌, ◌*◌, ◌%◌, ◌^◌, Bool, true, false, not, ◌||◌, Option, none, some, ltb, leb, ◌==◌,
  if◌then◌else◌, find_from,
}

abbrev pub heap_start : ℕ
heap_start = 0x0080_0000

abbrev pub heap_size : ℕ
heap_size = 4 * 1024 * 1024

abbrev pub heap_end : ℕ
heap_end = heap_start + heap_size

-- `usize::is_power_of_two`, for a `usize` of at most 64 bits.
unfoldable pub is_power_of_two : ℕ → Bool
is_power_of_two n = elim (find_from (λ k. n == 2 ^ k) 64 0) [ none ↦ false | some _ ↦ true ]

-- `(current + align - 1) & !(align - 1)`: for a power of two the mask clears the rest modulo it.
unfoldable pub round_up : ℕ → ℕ → ℕ → ℕ
round_up word current align = let top = (current + align - 1) % word in top - top % align

unfoldable pub kmalloc_aligned : ℕ → ℕ → ℕ → ℕ → Option ℕ × ℕ
kmalloc_aligned word next_free size align =
    let start = round_up word next_free align in
    let end = start + size in
    if size == 0 || not (is_power_of_two align)
    then (none, next_free)
    else if leb word end
    then (none, next_free)
    else if ltb heap_end end
    then (none, next_free)
    else (some start, end)

unfoldable pub kmalloc : ℕ → ℕ → ℕ → Option ℕ × ℕ
kmalloc word next_free size = kmalloc_aligned word next_free size 16

unfoldable pub used_bytes : ℕ → ℕ
used_bytes next_free = next_free - heap_start

unfoldable pub free_bytes : ℕ → ℕ
free_bytes next_free = heap_end - next_free
