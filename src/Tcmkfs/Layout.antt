-- ===== src/Tcmkfs/Layout.antt =====
-- core/tcmkfs.rs: the constants, the tables that it keeps in memory, and their images on the disk.
pub mod Image
use the_cursed_moon_kernel.Prelude.{
  ℕ, ◌+◌, ◌-◌, ◌*◌, ◌/◌, ◌%◌, Bool, true, false, ltb, leb, if◌then◌else◌, min,
}
use the_cursed_moon_kernel.Prelude.Bytes.{le_byte, le_u32}
use the_cursed_moon_kernel.Block

-- "TCMK"
abbrev pub magic : ℕ
magic = 0x4B4D_4354

abbrev pub version : ℕ
version = 2

abbrev pub block_size : ℕ
block_size = 4096

abbrev pub sectors_per_block : ℕ
sectors_per_block = block_size / 512

abbrev pub max_inodes : ℕ
max_inodes = 64

abbrev pub inode_size : ℕ
inode_size = 256

abbrev pub inode_table_sector : ℕ
inode_table_sector = 1

abbrev pub inode_table_sectors : ℕ
inode_table_sectors = max_inodes * inode_size / 512

abbrev pub bitmap_sector : ℕ
bitmap_sector = inode_table_sector + inode_table_sectors

abbrev pub bitmap_sectors : ℕ
bitmap_sectors = 4

abbrev pub max_blocks : ℕ
max_blocks = bitmap_sectors * 512 * 8

abbrev pub data_start_sector : ℕ
data_start_sector = 4096

abbrev pub direct_blocks : ℕ
direct_blocks = 40

abbrev pub max_file_size : ℕ
max_file_size = direct_blocks * block_size

abbrev pub max_name : ℕ
max_name = 64

abbrev pub kind_free : ℕ
kind_free = 0

abbrev pub kind_file : ℕ
kind_file = 1

abbrev pub kind_dir : ℕ
kind_dir = 2

abbrev pub root_inode : ℕ
root_inode = 0

abbrev pub max_depth : ℕ
max_depth = 8

abbrev pub path_max : ℕ
path_max = max_depth * (max_name + 1) + 1

-- `panicked` is not of the source: where an index is out of bounds, as with the 41st block of an
-- inode, the source panics.
pub data FsError : Type 0 where
  no_device no_partition not_formatted not_mounted io_error full too_many_files : FsError
  name_too_long file_too_large not_found exists bad_version bad_path not_empty too_deep : FsError
  panicked : FsError

pub record SuperBlock : Type 0 where
  pub magic : ℕ
  pub version : ℕ
  pub total_blocks : ℕ
  pub free_blocks : ℕ
  pub inode_count : ℕ
  pub file_count : ℕ
  pub block_size : ℕ
  pub data_start : ℕ
  pub label : ℕ → ℕ

-- `name` and `blocks` are arrays of 64 bytes and of 40 numbers.
pub record Inode : Type 0 where
  pub kind : ℕ
  pub size : ℕ
  pub mtime : ℕ
  pub flags : ℕ
  pub parent : ℕ
  pub name : ℕ → ℕ
  pub blocks : ℕ → ℕ

-- `Inode::empty`
abbrev pub empty : Inode
empty = record {
  kind = kind_free;
  size = 0;
  mtime = 0;
  flags = 0;
  parent = 0;
  name = λ _. 0;
  blocks = λ _. 0;
}

-- The statics of the module and the disk below it. SCRATCH is not part of it: each round of a loop
-- fills it before it is read.
pub record State (Disk : Type 0) : Type 0 where
  pub inodes : ℕ → Inode
  pub bitmap : ℕ → ℕ
  pub mounted : Bool
  pub part_lba : ℕ
  pub total_blocks : ℕ
  pub free_blocks : ℕ
  pub writes : ℕ
  pub block : Block.State Disk

abbrev pub capacity_blocks : ℕ → ℕ
capacity_blocks partition_sectors =
    if leb partition_sectors data_start_sector
    then 0
    else min ((partition_sectors - data_start_sector) / sectors_per_block) max_blocks

-- The memory of an inode and of a superblock: the source writes its structures to the disk as they
-- lie in memory, and their `repr(C)` lays the fields out in order, little-endian, in 256 bytes. The
-- byte at an offset, and the fields in an array of bytes.
abbrev pub inode_byte : Inode → ℕ → ℕ
inode_byte n o =
    if ltb o 4
    then le_byte n.kind o
    else if ltb o 8
    then le_byte n.size (o - 4)
    else if ltb o 12
    then le_byte n.mtime (o - 8)
    else if ltb o 16
    then le_byte n.flags (o - 12)
    else if ltb o 20
    then le_byte n.parent (o - 16)
    else if ltb o 84
    then n.name (o - 20)
    else if ltb o 244
    then le_byte (n.blocks ((o - 84) / 4)) ((o - 84) % 4)
    else 0

abbrev pub inode_of : (ℕ → ℕ) → Inode
inode_of f = record {
  kind = le_u32 f 0;
  size = le_u32 f 4;
  mtime = le_u32 f 8;
  flags = le_u32 f 12;
  parent = le_u32 f 16;
  name = λ k. f (20 + k);
  blocks = λ k. le_u32 f (84 + 4 * k);
}

-- The memory of the whole table, and the table in an array of bytes.
unfoldable pub table_byte : (ℕ → Inode) → ℕ → ℕ
table_byte inodes k = inode_byte (inodes (k / inode_size)) (k % inode_size)

unfoldable pub table_of : (ℕ → ℕ) → ℕ → Inode
table_of f i = inode_of (λ o. f (i * inode_size + o))

unfoldable pub super_byte : SuperBlock → ℕ → ℕ
super_byte sb o =
    if ltb o 4
    then le_byte sb.magic o
    else if ltb o 8
    then le_byte sb.version (o - 4)
    else if ltb o 12
    then le_byte sb.total_blocks (o - 8)
    else if ltb o 16
    then le_byte sb.free_blocks (o - 12)
    else if ltb o 20
    then le_byte sb.inode_count (o - 16)
    else if ltb o 24
    then le_byte sb.file_count (o - 20)
    else if ltb o 28
    then le_byte sb.block_size (o - 24)
    else if ltb o 32
    then le_byte sb.data_start (o - 28)
    else if ltb o 48
    then sb.label (o - 32)
    else 0

unfoldable pub super_of : (ℕ → ℕ) → SuperBlock
super_of f = record {
  magic = le_u32 f 0;
  version = le_u32 f 4;
  total_blocks = le_u32 f 8;
  free_blocks = le_u32 f 12;
  inode_count = le_u32 f 16;
  file_count = le_u32 f 20;
  block_size = le_u32 f 24;
  data_start = le_u32 f 28;
  label = λ k. f (32 + k);
}
