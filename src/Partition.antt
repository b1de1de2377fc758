-- ===== src/Partition.antt =====
-- kernel/src/level0a/drivers/partition.rs: the partition table of the disk.
pub mod Table
mod Tests
use the_cursed_moon_kernel.Prelude.{
  ℕ, zero, suc, ◌+◌, ◌*◌, Bool, true, false, not, ◌||◌, leb, ◌==◌, if◌then◌else◌, Option, none,
  some, update,
}
use the_cursed_moon_kernel.Prelude.Bytes.{le_u32}
use the_cursed_moon_kernel.Prelude.Action.{Result, ok, err}
use the_cursed_moon_kernel.Block

abbrev pub type_tcmkfs : ℕ
type_tcmkfs = 0x7F

abbrev pub max_partitions : ℕ
max_partitions = 4

pub record Partition : Type 0 where
  pub index : ℕ
  pub kind : ℕ
  pub bootable : Bool
  pub start_lba : ℕ
  pub sectors : ℕ

pub record State : Type 0 where
  pub table : ℕ → Partition
  pub count : ℕ
  pub tcmkfs_lba : ℕ
  pub tcmkfs_sectors : ℕ

abbrev pub empty : Partition
empty = record { index = 0; kind = 0; bootable = false; start_lba = 0; sectors = 0 }

abbrev pub initial : State
initial = record { table = λ _. empty; count = 0; tcmkfs_lba = 0; tcmkfs_sectors = 0 }

-- The entry `i` of the first sector, unless it is unused or has no sectors.
unfoldable pub entry : (ℕ → ℕ) → ℕ → Option Partition
entry mbr i =
    let base = 446 + i * 16 in
    let sectors = le_u32 mbr (base + 12) in
    if mbr (base + 4) == 0 || sectors == 0
    then none
    else some (record {
      index = i;
      kind = mbr (base + 4);
      bootable = mbr base == 0x80;
      start_lba = le_u32 mbr (base + 8);
      sectors = sectors;
    })

-- The body of the loop, for an entry that is used.
abbrev pub record_entry : Partition → ℕ → State → State
record_entry p found s =
    let s' = record s { table = update s.table found p } in
    if p.kind == type_tcmkfs
    then record s' { tcmkfs_lba = p.start_lba; tcmkfs_sectors = p.sectors }
    else s'

-- The loop over the last `n` entries, from entry `i` on.
unfoldable pub scan_from : (ℕ → ℕ) → ℕ → ℕ → ℕ → State → ℕ × State
scan_from mbr zero i found s = (found, s)
scan_from mbr (suc n) i found s = elim (entry mbr i) [
  | none ↦ scan_from mbr n (i + 1) found s
  | some p ↦ scan_from mbr n (i + 1) (found + 1) (record_entry p found s)
]

-- What `scan` does with the sector that it has read.
unfoldable pub scan_sector : (ℕ → ℕ) → State → ℕ × State
scan_sector mbr s =
    if not (mbr 510 == 0x55) || not (mbr 511 == 0xAA)
    then (0, s)
    else let (found, s') = scan_from mbr max_partitions 0 0 s in
      (found, record s' { count = found })

unfoldable pub scan : {Disk : Type 0} → Block.State Disk → State → ℕ × State × Block.State Disk
scan disk s =
    if not (Block.available disk)
    then (0, s, disk)
    else let (r, disk') = Block.read_sector 0 disk in
      elim r [
        | err _ ↦ (0, s, disk')
        | ok mbr ↦ ((scan_sector mbr s).0, (scan_sector mbr s).1, disk')
      ]

unfoldable pub get : State → ℕ → Option Partition
get s index = if leb s.count index then none else some (s.table index)

unfoldable pub tcmkfs : State → Option (ℕ × ℕ)
tcmkfs s = if s.tcmkfs_lba == 0 then none else some (s.tcmkfs_lba, s.tcmkfs_sectors)
