-- ===== src/Frames.antt =====
-- kernel/src/level0a/core/frames.rs: the allocator of physical frames. BITMAP is a function of the
-- byte index to a byte, REFCOUNT of the frame index to a `u8`; the physical memory that `alloc`
-- clears is a function of the address. The counters of the shell's report are numbers that do not
-- wrap.
pub mod Bits
pub mod Valid
pub mod Alloc
pub mod Refs
mod Tests
use Prim.Native.Nat.{bit_and, bit_or}
use the_cursed_moon_kernel.Prelude.{
  ℕ, ◌+◌, ◌-◌, ◌*◌, ◌/◌, ◌%◌, ◌^◌, max, Bool, true, false, not, ◌&&◌, ◌||◌, Option, none, some, ltb,
  leb, ◌==◌, if◌then◌else◌, update, find_from, count_to,
}

abbrev pub frame_size : ℕ
frame_size = 4096

abbrev pub pool_start : ℕ
pool_start = 0x0100_0000

abbrev pub pool_frames : ℕ
pool_frames = 4096

pub record State : Type 0 where
  pub bitmap : ℕ → ℕ
  pub refcounts : ℕ → ℕ
  pub used : ℕ
  pub peak : ℕ
  pub cow_copies : ℕ
  pub cow_reuses : ℕ
  pub demand_fills : ℕ
  pub memory : ℕ → ℕ

-- `1 << (index % 8)`
abbrev pub mask : ℕ → ℕ
mask index = 2 ^ (index % 8)

unfoldable pub bit_at : (ℕ → ℕ) → ℕ → Bool
bit_at bitmap index = not (bit_and (bitmap (index / 8)) (mask index) == 0)

abbrev pub bit : State → ℕ → Bool
bit s index = bit_at s.bitmap index

unfoldable pub index_of : ℕ → Option ℕ
index_of phys =
    if ltb phys pool_start
    then none
    else let index = (phys - pool_start) / frame_size in
      if leb pool_frames index then none else some index

abbrev pub set_refs : State → ℕ → ℕ → State
set_refs s index value = record s { refcounts = update s.refcounts index value }

-- `byte | mask` and `byte & !mask` of one byte.
unfoldable pub write_bit : (ℕ → ℕ) → ℕ → Bool → ℕ → ℕ
write_bit bitmap index value =
    let byte = bitmap (index / 8) in
    update bitmap (index / 8)
      (if value then bit_or byte (mask index) else bit_and byte (255 - mask index))

abbrev pub set_bit : State → ℕ → Bool → State
set_bit s index value = record s { bitmap = write_bit s.bitmap index value }

-- `write_bytes(phys, 0, FRAME_SIZE)`
abbrev pub clear : (ℕ → ℕ) → ℕ → ℕ → ℕ
clear memory phys a = if leb phys a && ltb a (phys + frame_size) then 0 else memory a

-- What `alloc` does with the first index whose bit is clear.
unfoldable pub take_frame : State → ℕ → State
take_frame s i =
    let used = s.used + 1 in
    record (set_refs (set_bit s i true) i 1) {
      used = used;
      peak = max s.peak used;
      memory = clear s.memory (pool_start + i * frame_size);
    }

unfoldable pub alloc : State → Option ℕ × State
alloc s = elim (find_from (λ i. not (bit s i)) pool_frames 0) [
  | none ↦ (none, s)
  | some i ↦ (some (pool_start + i * frame_size), take_frame s i)
]

unfoldable pub share_index : State → ℕ → Bool × State
share_index s index =
    let current = s.refcounts index in
    if not (bit s index) || current == 0 || current == 255
    then (false, s)
    else (true, set_refs s index (current + 1))

unfoldable pub share : State → ℕ → Bool × State
share s phys = elim (index_of phys) [ none ↦ (false, s) | some index ↦ share_index s index ]

unfoldable pub refcount : State → ℕ → ℕ
refcount s phys = elim (index_of phys) [ none ↦ 0 | some index ↦ s.refcounts index ]

-- `fetch_sub` runs on a frame in use only, so `used` is not 0 there.
unfoldable pub free_index : State → ℕ → State
free_index s index =
    let current = s.refcounts index in
    if not (bit s index)
    then s
    else if ltb 1 current
    then set_refs s index (current - 1)
    else record (set_bit (set_refs s index 0) index false) { used = s.used - 1 }

unfoldable pub free : State → ℕ → State
free s phys = elim (index_of phys) [ none ↦ s | some index ↦ free_index s index ]

unfoldable pub shared : State → ℕ
shared s = count_to (λ i. bit s i && ltb 1 (s.refcounts i)) pool_frames

unfoldable pub note_cow_copy : State → State
note_cow_copy s = record s { cow_copies = s.cow_copies + 1 }

unfoldable pub note_cow_reuse : State → State
note_cow_reuse s = record s { cow_reuses = s.cow_reuses + 1 }

unfoldable pub note_demand_fill : State → State
note_demand_fill s = record s { demand_fills = s.demand_fills + 1 }

unfoldable pub free_count : State → ℕ
free_count s = pool_frames - s.used
