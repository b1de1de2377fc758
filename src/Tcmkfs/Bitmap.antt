-- ===== src/Tcmkfs/Bitmap.antt =====
-- core/tcmkfs.rs: the bitmap of the data blocks, with the bit operations that the frame allocator
-- has on its own bitmap.
pub mod Count
use the_cursed_moon_kernel.Prelude.{
  ℕ, ◌+◌, ◌-◌, ◌%◌, ◌^◌, Bool, true, false, not, if◌then◌else◌, Option, none, some, find_from,
}
use the_cursed_moon_kernel.Frames.{bit_at, write_bit}
use the_cursed_moon_kernel.Tcmkfs.Layout.{State}

module _ {Disk : Type 0} where
  abbrev pub bit_get : State Disk → ℕ → Bool
  bit_get s index = bit_at s.bitmap index

  abbrev pub bit_set : ℕ → Bool → State Disk → State Disk
  bit_set index value s = record s { bitmap = write_bit s.bitmap index value }

  -- The counter wraps as `fetch_sub` does.
  unfoldable pub alloc_block : State Disk → Option ℕ × State Disk
  alloc_block s = elim (find_from (λ i. not (bit_get s i)) s.total_blocks 0) [
    | none ↦ (none, s)
    | some i ↦
        (some i, record (bit_set i true s) { free_blocks = (s.free_blocks + 2 ^ 32 - 1) % 2 ^ 32 })
  ]

  unfoldable pub free_block : ℕ → State Disk → State Disk
  free_block index s =
      if bit_get s index
      then record (bit_set index false s) { free_blocks = (s.free_blocks + 1) % 2 ^ 32 }
      else s
