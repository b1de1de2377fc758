-- ===== src/Block/Ram.antt =====
-- A disk of 8 MiB in memory, which meets the contract of a driver and refuses what lies beyond it.
use the_cursed_moon_kernel.Prelude.{
  ℕ, ◌+◌, ◌*◌, ◌-◌, ◌&&◌, leb, ltb, if◌then◌else◌, some, refl, arith,
}
use the_cursed_moon_kernel.Prelude.Action.{ok, err}
use the_cursed_moon_kernel.Block.{Driver, State, IsDisk, out_of_range}

abbrev pub ram : Driver (ℕ → ℕ)
ram = record {
  read = λ disk lba count.
      if leb (lba + count) 16384 then ok (λ i. disk (lba * 512 + i)) else err out_of_range;
  write = λ disk lba count bytes.
      if leb (lba + count) 16384
      then (
        ok tt,
        λ a.
            if leb (lba * 512) a && ltb a (lba * 512 + count * 512)
            then bytes (a - lba * 512)
            else disk a,
      )
      else (err out_of_range, disk);
  sectors = 16384;
}

abbrev pub ram_state : State (ℕ → ℕ)
ram_state = record { driver = some ram; disk = λ _. 0; sectors_read = 0; sectors_written = 0 }

pub ram-IsDisk : IsDisk ram
ram-IsDisk = record {
  cell = λ disk. disk;
  small = omega arith;
  reads = λ disk lba count _ fits. (λ i. disk (lba * 512 + i), ground (arith, fits), λ i h. refl);
  writes = λ disk lba count f _ fits. ground (arith, fits);
  written = λ disk lba count f a _ fits. ground (arith, fits);
}
