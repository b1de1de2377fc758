-- ===== src/Partition/Tests.antt =====
-- A first sector with one partition, of TCMKFS.
use the_cursed_moon_kernel.Prelude.{ℕ, ◌==◌, if◌then◌else◌, some, length, get_elem?, ◌≡◌, refl}
use the_cursed_moon_kernel.Partition.{initial, entry, scan_from, scan_sector, get, tcmkfs}
use the_cursed_moon_kernel.Partition.Table.{entries, chosen, scan_sector-entries}

abbrev mbr : ℕ → ℕ
mbr i =
    if i == 510
    then 0x55
    else if i == 511
    then 0xAA
    else if i == 466
    then 0x7F
    else if i == 471
    then 8
    else if i == 475
    then 32
    else 0

tcmkfs_found : tcmkfs (scan_sector mbr initial).1 ≡ some (2048, 8192)
unfolding tcmkfs scan_sector scan_from entry
tcmkfs_found = refl

scan_sector-entries_example :
    let (found, t) = scan_sector mbr initial in
    (found ≡ length (entries mbr 4 0))
    × ((k : ℕ) → get t k ≡ get_elem? (entries mbr 4 0) k)
    × ((t.tcmkfs_lba, t.tcmkfs_sectors) ≡ chosen (0, 0) (entries mbr 4 0))
scan_sector-entries_example = scan_sector-entries mbr initial refl refl
