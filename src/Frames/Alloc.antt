-- ===== src/Frames/Alloc.antt =====
-- What `alloc` of core/frames.rs hands out.
use the_cursed_moon_kernel.Prelude.{
  ℕ, ◌+◌, ◌*◌, ◌≤◌, ◌<◌, ◌≡◌, refl, ◌≢◌, true, false, not, arith, update_ne, count_to_all,
  option_ind, find_from_hit, find_from_miss, Option, none, some, find_from,
}
use the_cursed_moon_kernel.Frames.{
  State, bit, take_frame, alloc, pool_frames, pool_start, frame_size, free_count,
}
use the_cursed_moon_kernel.Frames.Bits.{bit_at-write_bit}
use the_cursed_moon_kernel.Frames.Valid.{IsValid}

-- What a result of `alloc` says. An address is that of the lowest free frame; the frame has one
-- reference now and holds zeros; no other frame, counter or byte changes. A failure changes
-- nothing, and no frame is free.
abbrev pub Gives : State → Option ℕ × State → Type 0
Gives s (some phys, s') =
    (i : ℕ) × (i < 4096)
    × (phys ≡ pool_start + i * frame_size)
    × (bit s i ≡ false)
    × ((j : ℕ) → j < i → bit s j ≡ true)
    × (bit s' i ≡ true)
    × (s'.refcounts i ≡ 1)
    × ((j : ℕ) → j ≢ i → (bit s' j ≡ bit s j) × (s'.refcounts j ≡ s.refcounts j))
    × ((a : ℕ) → phys ≤ a → a < phys + frame_size → s'.memory a ≡ 0)
    × ((a : ℕ) → a < phys → s'.memory a ≡ s.memory a)
    × ((a : ℕ) → phys + frame_size ≤ a → s'.memory a ≡ s.memory a)
Gives s (none, s') = (s' ≡ s) × (free_count s ≡ 0)

-- In a valid allocator, `alloc` either gives the address of the lowest free frame, which then is in
-- use with one reference and holds zeros, while every other frame, counter and byte stays; or it
-- changes nothing, and no frame is free.
pub alloc_lem : {s : State} → IsValid s → Gives s (alloc s)
unfolding alloc take_frame free_count
alloc_lem {s} v =
    option_ind (Gives s) (find_from (λ i. not (bit s i)) pool_frames 0)
      (λ full. (
        refl,
        omega (
          arith,
          v.counted,
          count_to_all (bit s) 4096 (λ j lt. ground (arith, find_from_miss _ 4096 0 full j)),
        ),
      ))
      (λ i e.
        let hit = find_from_hit _ 4096 0 i e in
        (
          i,
          omega (arith, hit.2),
          refl,
          ground (arith, hit.0),
          λ j lt. ground (arith, hit.3 j),
          ground (arith, bit_at-write_bit s.bitmap i i true v.bytes),
          ground (arith),
          λ j ne. (
            ground (arith, bit_at-write_bit s.bitmap i j true v.bytes),
            update_ne s.refcounts i 1 j ne,
          ),
          λ a lo hi. ground arith,
          λ a lt. ground arith,
          λ a lo. ground arith,
        ))
