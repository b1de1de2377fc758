-- ===== src/Tcmkfs/Sectors.antt =====
-- core/tcmkfs.rs: the transfers between the tables and the disk. Sector numbers are 32-bit words.
pub mod Keep
pub mod Reload
use the_cursed_moon_kernel.Prelude.{ℕ, zero, suc, ◌+◌, ◌*◌, ◌/◌, ◌%◌, ◌-◌, ◌^◌, ◌==◌, if◌then◌else◌}
use the_cursed_moon_kernel.Prelude.Action.{Result, ok, err, Action, pure, modify, ◌>>=◌, ◌>>◌}
use the_cursed_moon_kernel.Block
use the_cursed_moon_kernel.Block.{BlockError}
use the_cursed_moon_kernel.Tcmkfs.Layout.{
  State, SuperBlock, FsError, io_error, super_byte, super_of, table_byte, table_of,
  inode_table_sector, inode_table_sectors, bitmap_sector, bitmap_sectors, data_start_sector,
  sectors_per_block,
}

abbrev pub Fs : Type 0 → Type 0 → Type 0
Fs Disk A = Action (State Disk) FsError A

module _ {Disk : Type 0} where
  -- `io`: an operation of the block layer, whose errors become `Io`.
  abbrev pub io : {A : Type 0} → Action (Block.State Disk) BlockError A → Fs Disk A
  io m s =
      let (r, b) = m s.block in
      elim r [
        | ok a ↦ (ok a, record s { block = b })
        | err _ ↦ (err io_error, record s { block = b })
      ]

  unfoldable pub read_super : Fs Disk SuperBlock
  read_super s = (do bytes ← io (Block.read_sector s.part_lba); pure (super_of bytes)) s

  unfoldable pub write_super : SuperBlock → Fs Disk (Unit {0})
  write_super sb s = io (Block.write_sector s.part_lba (super_byte sb)) s

  -- The first sector of a chunk of the inode table.
  abbrev pub chunk_sector : State Disk → ℕ → ℕ
  chunk_sector s chunk = (s.part_lba + inode_table_sector + chunk * 8) % 2 ^ 32

  unfoldable pub write_chunk : ℕ → Fs Disk (Unit {0})
  write_chunk chunk s =
      io (Block.write (chunk_sector s chunk) 8 (λ k. table_byte s.inodes (chunk * 4096 + k))) s

  -- The inodes of a chunk, 16 of them, are replaced by those that its bytes hold.
  unfoldable pub read_chunk : ℕ → Fs Disk (Unit {0})
  read_chunk chunk s =
      (do
        bytes ← io (Block.read (chunk_sector s chunk) 8)
        modify λ t. record t {
          inodes = λ i. if i / 16 == chunk then table_of bytes (i - chunk * 16) else t.inodes i;
        })
        s

  -- The body of a loop over the chunks, for the `n` chunks from `chunk` on.
  unfoldable pub each_chunk : (ℕ → Fs Disk (Unit {0})) → ℕ → ℕ → Fs Disk (Unit {0})
  each_chunk body zero chunk s = (ok tt, s)
  each_chunk body (suc n) chunk s = (do body chunk; each_chunk body n (chunk + 1)) s

  unfoldable pub flush_inodes : Fs Disk (Unit {0})
  flush_inodes = each_chunk write_chunk (inode_table_sectors / 8) 0

  unfoldable pub load_inodes : Fs Disk (Unit {0})
  load_inodes = each_chunk read_chunk (inode_table_sectors / 8) 0

  unfoldable pub flush_bitmap : Fs Disk (Unit {0})
  flush_bitmap s =
      io (Block.write ((s.part_lba + bitmap_sector) % 2 ^ 32) bitmap_sectors s.bitmap) s

  unfoldable pub load_bitmap : Fs Disk (Unit {0})
  load_bitmap s =
      (do
        bytes ← io (Block.read ((s.part_lba + bitmap_sector) % 2 ^ 32) bitmap_sectors)
        modify λ t. record t { bitmap = bytes })
        s

  abbrev pub block_sector : State Disk → ℕ → ℕ
  block_sector s index = (s.part_lba + data_start_sector + index * sectors_per_block) % 2 ^ 32

  unfoldable pub read_block : ℕ → Fs Disk (ℕ → ℕ)
  read_block index s = io (Block.read (block_sector s index) sectors_per_block) s

  unfoldable pub write_block : ℕ → (ℕ → ℕ) → Fs Disk (Unit {0})
  write_block index bytes s =
      io (Block.write (block_sector s index) sectors_per_block bytes)
        (record s { writes = (s.writes + 1) % 2 ^ 32 })
