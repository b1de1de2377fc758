-- ===== src/Tcmkfs/Mount.antt =====
-- core/tcmkfs.rs: the formatting and the mounting. What `partition::tcmkfs()` found is an argument,
-- the first sector and the number of sectors, and so is the clock.
use the_cursed_moon_kernel.Prelude.{
  ℕ, true, not, ltb, ◌==◌, if◌then◌else◌, Option, List, [], ◌∷◌, update, min, count_to,
}
use the_cursed_moon_kernel.Prelude.Bytes.{nth}
use the_cursed_moon_kernel.Prelude.Action.{pure, raise_if, or_raise, modify, ◌>>=◌, ◌>>◌}
use the_cursed_moon_kernel.Block
use the_cursed_moon_kernel.Tcmkfs.Layout.{
  Inode, SuperBlock, no_partition, no_device, not_formatted, bad_version, magic, version,
  block_size, data_start_sector, max_inodes, kind_dir, root_inode, empty, capacity_blocks,
}
use the_cursed_moon_kernel.Tcmkfs.Sectors.{
  Fs, flush_inodes, flush_bitmap, load_inodes, load_bitmap, read_super, write_super,
}
use the_cursed_moon_kernel.Tcmkfs.Bitmap.{bit_get}
use the_cursed_moon_kernel.Tcmkfs.Nodes.{mkdir}

-- "/home" and "/tmp"
abbrev pub home : List ℕ
home = b'/' ∷ b'h' ∷ b'o' ∷ b'm' ∷ b'e' ∷ []

abbrev pub tmp : List ℕ
tmp = b'/' ∷ b't' ∷ b'm' ∷ b'p' ∷ []

abbrev pub new_super : ℕ → List ℕ → SuperBlock
new_super total label = record {
  magic = magic;
  version = version;
  total_blocks = total;
  free_blocks = total;
  inode_count = max_inodes;
  file_count = 0;
  block_size = block_size;
  data_start = data_start_sector;
  label = λ k. if ltb k 15 then nth label k else 0;
}

-- The table of `format`: all empty but the root.
abbrev pub new_inodes : ℕ → ℕ → Inode
new_inodes now =
    update (λ _. empty) root_inode
      (record empty { kind = kind_dir; parent = root_inode; mtime = now })

module _ {Disk : Type 0} where
  -- The checks that `format` and `mount` begin with.
  unfoldable pub locate : Option (ℕ × ℕ) → Fs Disk ℕ
  locate partition s =
      (do
        (lba, sectors) ← or_raise partition no_partition
        raise_if (not (Block.available s.block)) no_device
        modify λ t. record t { part_lba = lba }
        pure sectors)
        s

  unfoldable pub format : Option (ℕ × ℕ) → ℕ → List ℕ → Fs Disk (Unit {0})
  format partition now label s =
      (do
        sectors ← locate partition
        let total = capacity_blocks sectors
        modify λ t. record t {
          total_blocks = total;
          free_blocks = total;
          inodes = new_inodes now;
          bitmap = λ _. 0;
        }
        flush_inodes
        flush_bitmap
        write_super (new_super total label)
        modify λ t. record t { mounted = true }
        mkdir now home
        mkdir now tmp
        pure tt)
        s

  unfoldable pub mount : Option (ℕ × ℕ) → Fs Disk (Unit {0})
  mount partition s =
      (do
        sectors ← locate partition
        sb ← read_super
        raise_if (not (sb.magic == magic)) not_formatted
        raise_if (not (sb.version == version)) bad_version
        let total = min sb.total_blocks (capacity_blocks sectors)
        modify λ t. record t { total_blocks = total }
        load_inodes
        load_bitmap
        modify λ t. record t { free_blocks = count_to (λ i. not (bit_get t i)) total }
        modify λ t. record t { mounted = true })
        s
