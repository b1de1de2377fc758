-- ===== src/Block.antt =====
-- kernel/src/level0a/drivers/block.rs: the layer between the file system and the disk driver. The
-- driver's table of functions is a record; the disk itself is a state that the driver changes.
pub mod Ram
use the_cursed_moon_kernel.Prelude.{
  ℕ, ◌+◌, ◌*◌, ◌/◌, Bool, true, false, Option, none, some, ◌≡◌, ◌<◌, ◌≤◌, ◌&&◌, leb, ltb,
  if◌then◌else◌, ◌-◌, ◌^◌,
}
use the_cursed_moon_kernel.Prelude.Action.{
  Result, ok, err, Action, pure, raise, modify, ◌>>=◌, ◌>>◌,
}

abbrev pub sector_size : ℕ
sector_size = 512

pub data BlockError : Type 0 where
  no_device out_of_range buffer_too_small device_error timeout : BlockError

-- A read gives the bytes of `count` sectors, by their index.
pub record Driver (Disk : Type 0) : Type 0 where
  pub read : Disk → ℕ → ℕ → Result BlockError (ℕ → ℕ)
  pub write : Disk → ℕ → ℕ → (ℕ → ℕ) → Result BlockError (Unit {0}) × Disk
  pub sectors : ℕ

pub record State (Disk : Type 0) : Type 0 where
  pub driver : Option (Driver Disk)
  pub disk : Disk
  pub sectors_read : ℕ
  pub sectors_written : ℕ

module _ {Disk : Type 0} where
  unfoldable pub available : State Disk → Bool
  available s = elim s.driver [ none ↦ false | some _ ↦ true ]

  unfoldable pub sector_count : State Disk → ℕ
  sector_count s = elim s.driver [ none ↦ 0 | some d ↦ d.sectors ]

  unfoldable pub capacity_mib : State Disk → ℕ
  capacity_mib s = sector_count s / 2 / 1024

  unfoldable pub read : ℕ → ℕ → Action (State Disk) BlockError (ℕ → ℕ)
  read lba count s = elim s.driver [
    | none ↦ (err no_device, s)
    | some d ↦ elim (d.read s.disk lba count) [
      | err e ↦ (err e, s)
      | ok bytes ↦ (ok bytes, record s { sectors_read = s.sectors_read + count })
    ]
  ]

  unfoldable pub write : ℕ → ℕ → (ℕ → ℕ) → Action (State Disk) BlockError (Unit {0})
  write lba count bytes s = elim s.driver [
    | none ↦ (err no_device, s)
    | some d ↦
        let (r, disk) = d.write s.disk lba count bytes in
        elim r [
          | err e ↦ (err e, record s { disk = disk })
          | ok _ ↦ (ok tt, record s { disk = disk; sectors_written = s.sectors_written + count })
        ]
  ]

  abbrev pub read_sector : ℕ → Action (State Disk) BlockError (ℕ → ℕ)
  read_sector lba = read lba 1

  abbrev pub write_sector : ℕ → (ℕ → ℕ) → Action (State Disk) BlockError (Unit {0})
  write_sector lba bytes = write lba 1 bytes

-- What the layers above rely on, where the device does not fail: up to its last sector the disk is
-- an array of bytes, which the driver reads and writes, at most 255 sectors at once. Sectors are
-- numbered in 28 bits. Beyond the last sector the driver may refuse.
pub record IsDisk {Disk : Type 0} (d : Driver Disk) : Type 0 where
  pub cell : Disk → ℕ → ℕ
  pub small : d.sectors ≤ 2 ^ 28
  pub reads :
      (disk : Disk) (lba count : ℕ)
      → count ≤ 255
      → lba + count ≤ d.sectors
      → (f : ℕ → ℕ) × (d.read disk lba count ≡ ok f)
        × ((i : ℕ) → i < count * 512 → f i ≡ cell disk (lba * 512 + i))
  pub writes :
      (disk : Disk) (lba count : ℕ) (f : ℕ → ℕ)
      → count ≤ 255
      → lba + count ≤ d.sectors
      → (d.write disk lba count f).0 ≡ ok tt
  pub written :
      (disk : Disk) (lba count : ℕ) (f : ℕ → ℕ) (a : ℕ)
      → count ≤ 255
      → lba + count ≤ d.sectors
      → cell (d.write disk lba count f).1 a ≡ (
          if leb (lba * 512) a && ltb a (lba * 512 + count * 512)
          then f (a - lba * 512)
          else cell disk a)
