-- ===== src/Tcmkfs/Data/Place.antt =====
-- One block of a disk that works, in `write` of core/tcmkfs.rs.
use the_cursed_moon_kernel.Prelude.{
  ℕ, ◌+◌, ◌-◌, ◌*◌, ◌%◌, ◌^◌, ◌≤◌, ◌<◌, ◌&&◌, ltb, leb, if◌then◌else◌, some, ◌≡◌, refl, ap, ◌∙◌,
  ◌≢◌, ◌⊎◌, arith, inl, inr, if_ind, lt_cases,
}
use the_cursed_moon_kernel.Prelude.Action.{Result, ok}
use the_cursed_moon_kernel.Block
use the_cursed_moon_kernel.Block.{Driver, IsDisk}
use the_cursed_moon_kernel.Tcmkfs.Layout.{State, FsError}
use the_cursed_moon_kernel.Tcmkfs.Sectors.{write_block, block_sector}
use the_cursed_moon_kernel.Tcmkfs.Data.{before_copy}
use the_cursed_moon_kernel.Tcmkfs.Data.Read.{OnDisk, was_read, read_block_lem}

inside :
    (lba o z : ℕ) (g : ℕ → ℕ)
    → o < 4096
    → (if leb (lba * 512) (lba * 512 + o) && ltb (lba * 512 + o) (lba * 512 + 8 * 512)
        then g (lba * 512 + o - lba * 512)
        else z)
      ≡ g o
inside lba o z g lt =
    if_ind (λ x. x ≡ g o)
      (leb (lba * 512) (lba * 512 + o) && ltb (lba * 512 + o) (lba * 512 + 8 * 512))
      (λ _. ap g (omega arith)) (λ bad. absurd (ground (arith, bad, lt)))

outside :
    (lba lba' o z : ℕ) (g : ℕ → ℕ)
    → (lba' + 8 ≤ lba) ⊎ (lba + 8 ≤ lba')
    → o < 4096
    → (if leb (lba * 512) (lba' * 512 + o) && ltb (lba' * 512 + o) (lba * 512 + 8 * 512)
        then g (lba' * 512 + o - lba * 512)
        else z)
      ≡ z
outside lba lba' o z g apart lt =
    if_ind (λ x. x ≡ z)
      (leb (lba * 512) (lba' * 512 + o) && ltb (lba' * 512 + o) (lba * 512 + 8 * 512))
      (λ bad. absurd (ground (arith, bad, lt, apart))) (λ _. refl)

module _ {Disk : Type 0} (d : Driver Disk) (works : IsDisk d) where
  -- A block of the disk.
  abbrev pub cell_of : State Disk → ℕ → ℕ → ℕ
  cell_of s b o = works.cell s.block.disk (block_sector s b * 512 + o)

  -- What is the same in two states but for the contents of the disk.
  abbrev pub Around : State Disk → State Disk → Type 0
  Around s t = (t.block.driver ≡ some d) × (t.part_lba ≡ s.part_lba) × (t.inodes ≡ s.inodes)

  apart_sectors :
      (s : State Disk) (b c : ℕ)
      → c ≢ b
      → OnDisk d works s b
      → OnDisk d works s c
      → (block_sector s c + 8 ≤ block_sector s b) ⊎ (block_sector s b + 8 ≤ block_sector s c)
  apart_sectors s b c ne fb fc =
      let small = works.small in
      elim (lt_cases c b) [ inl lt ↦ inl (omega arith) | inr ge ↦ inr (omega arith) ]

  pub write_block_lem :
      (s : State Disk) (b : ℕ) (g : ℕ → ℕ)
      → s.block.driver ≡ some d
      → OnDisk d works s b
      → (t : State Disk) × (write_block b g s ≡ (ok tt, t))
        × Around s t
        × ((o : ℕ) → o < 4096 → cell_of t b o ≡ g o)
        × ((c o : ℕ) → c ≢ b → o < 4096 → OnDisk d works s c → cell_of t c o ≡ cell_of s c o)
  unfolding write_block Block.write
  write_block_lem s b g h fits =
      let lba = block_sector s b in
      let t = record s {
        writes = (s.writes + 1) % 2 ^ 32;
        block = record s.block {
          disk = (d.write s.block.disk lba 8 g).1;
          sectors_written = s.block.sectors_written + 8;
        };
      } in
      let small = works.small in
      let near : lba + 8 ≤ d.sectors = omega (arith, small, fits) in
      let fine = works.writes s.block.disk lba 8 g (omega arith) near in
      (
        t,
        ground (arith, h, fine),
        (h, refl, refl),
        λ o lt.
            works.written s.block.disk lba 8 g (lba * 512 + o) (omega arith) near
            ∙ inside lba o _ g lt,
        λ c o ne lt fits'.
            works.written s.block.disk lba 8 g (block_sector s c * 512 + o) (omega arith) near
            ∙ outside lba (block_sector s c) o _ g (apart_sectors s b c ne fits fits') lt,
      )

  pub before_copy_lem :
      (s : State Disk) (b i have chunk : ℕ)
      → s.block.driver ≡ some d
      → OnDisk d works s b
      → (f : ℕ → ℕ) × (n : ℕ) × (before_copy b i have chunk s ≡ (ok f, was_read s n))
  before_copy_lem s b i have chunk h fits =
      if_ind
        (λ (r : Result FsError (ℕ → ℕ) × State Disk).
          (f : ℕ → ℕ) × (n : ℕ) × (r ≡ (ok f, was_read s n)))
        (ltb chunk 4096 && ltb i have)
        (λ _. let (f, e, _) = read_block_lem d works s b h fits in (f, s.block.sectors_read + 8, e))
        (λ _. (λ _. 0, s.block.sectors_read, refl))
