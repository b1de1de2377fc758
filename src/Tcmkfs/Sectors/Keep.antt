-- ===== src/Tcmkfs/Sectors/Keep.antt =====
-- The transfers of core/tcmkfs.rs to the disk leave its tables alone.
use the_cursed_moon_kernel.Prelude.{ℕ, zero, suc, ◌+◌, ◌*◌, ◌%◌, ◌^◌}
use the_cursed_moon_kernel.Prelude.Action.{Result, Action, Keeps, result_ind, Keeps-bind}
use the_cursed_moon_kernel.Block
use the_cursed_moon_kernel.Block.{BlockError}
use the_cursed_moon_kernel.Tcmkfs.Layout.{State, FsError, table_byte}
use the_cursed_moon_kernel.Tcmkfs.Sectors.{
  Fs, io, chunk_sector, block_sector, each_chunk, write_chunk, flush_inodes, flush_bitmap,
  read_block, write_block,
}

-- A property that does not look at the disk and at the count of its writes.
abbrev pub IsBeside : {Disk : Type 0} → (State Disk → Type 0) → Type 0
IsBeside {Disk} P =
    (s : State Disk) (b : Block.State Disk) (w : ℕ) → P s → P (record s { block = b; writes = w })

module _ {Disk : Type 0} (P : State Disk → Type 0) (beside : IsBeside P) where
  io-Keeps : {A : Type 0} (m : Action (Block.State Disk) BlockError A) → Keeps P (io m)
  io-Keeps {A} m s p =
      result_ind (λ (r : Result FsError A × State Disk). P r.1) (m s.block).0
        (λ _ _. beside s (m s.block).1 s.writes p) (λ _ _. beside s (m s.block).1 s.writes p)

  write_chunk-Keeps : (chunk : ℕ) → Keeps P (write_chunk chunk)
  unfolding write_chunk
  write_chunk-Keeps chunk s =
      io-Keeps (Block.write (chunk_sector s chunk) 8 (λ k. table_byte s.inodes (chunk * 4096 + k)))
        s

  each_chunk-Keeps :
      (body : ℕ → Fs Disk (Unit {0})) (n chunk : ℕ)
      → ((c : ℕ) → Keeps P (body c))
      → Keeps P (each_chunk body n chunk)
  unfolding each_chunk
  each_chunk-Keeps body zero chunk keep s p = p
  each_chunk-Keeps body (suc n) chunk keep s p =
      Keeps-bind P (body chunk) (λ _. each_chunk body n (chunk + 1)) (keep chunk)
        (λ _. each_chunk-Keeps body n (chunk + 1) keep) s p

  pub flush_inodes-Keeps : Keeps P flush_inodes
  unfolding flush_inodes
  flush_inodes-Keeps = each_chunk-Keeps write_chunk _ 0 write_chunk-Keeps

  pub flush_bitmap-Keeps : Keeps P flush_bitmap
  unfolding flush_bitmap
  flush_bitmap-Keeps s = io-Keeps (Block.write ((s.part_lba + 33) % 2 ^ 32) 4 s.bitmap) s

  pub read_block-Keeps : (index : ℕ) → Keeps P (read_block index)
  unfolding read_block
  read_block-Keeps index s = io-Keeps (Block.read (block_sector s index) 8) s

  pub write_block-Keeps : (index : ℕ) (bytes : ℕ → ℕ) → Keeps P (write_block index bytes)
  unfolding write_block
  write_block-Keeps index bytes s p =
      io-Keeps (Block.write (block_sector s index) 8 bytes)
        (record s { writes = (s.writes + 1) % 2 ^ 32 })
        (beside s s.block ((s.writes + 1) % 2 ^ 32) p)
