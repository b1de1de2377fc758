-- ===== src/Frames/Tests.antt =====
-- Runs of core/frames.rs on a pool with nothing in use and on one with its first frame in use.
use Prim.Native.Nat.{bit_and, bit_and-bitwise}
use the_cursed_moon_kernel.Prelude.{
  ℕ, ◌+◌, ◌-◌, ◌≡◌, refl, sym, true, false, some, count_to_none, arith, if◌then◌else◌, ◌==◌,
}
use the_cursed_moon_kernel.Frames.{
  State, pool_start, bit_at, bit, mask, index_of, alloc, share, share_index, free, take_frame,
}
use the_cursed_moon_kernel.Frames.Bits.{bit_at-write_bit}
use the_cursed_moon_kernel.Frames.Valid.{IsValid, alloc-IsValid, take_frame-IsValid}
use the_cursed_moon_kernel.Frames.Alloc.{Gives, alloc_lem}
use the_cursed_moon_kernel.Frames.Refs.{frees, frees_lem}

abbrev blank : State
blank = record {
  bitmap = λ _. 0;
  refcounts = λ _. 0;
  used = 0;
  peak = 0;
  cow_copies = 0;
  cow_reuses = 0;
  demand_fills = 0;
  memory = λ a. a + 7;
}

no_bits : (m : ℕ) → bit_and 0 m ≡ 0
no_bits m = bit_and-bitwise 0 m

blank-bit : (i : ℕ) → bit blank i ≡ false
unfolding bit_at
blank-bit i = ground (arith, no_bits (mask i))

blank-IsValid : IsValid blank
blank-IsValid = record {
  bytes = λ k. omega arith;
  small = λ i. omega arith;
  live = λ i h. absurd (ground (arith, blank-bit i));
  dead = λ i h. refl;
  counted = sym (count_to_none (bit blank) 4096 (λ j lt. blank-bit j));
}

-- The first frame is in use.
abbrev held : State
held = take_frame blank 0

held-IsValid : IsValid held
held-IsValid = take_frame-IsValid 0 blank-IsValid (omega arith) (blank-bit 0)

held-bit : bit held 0 ≡ true
unfolding take_frame
held-bit = bit_at-write_bit blank.bitmap 0 0 true (λ k. omega arith)

first_address : index_of pool_start ≡ some 0
unfolding index_of
first_address = refl

alloc-IsValid_example :
    IsValid (alloc held).1 × IsValid (share held pool_start).1 × IsValid (free held pool_start)
alloc-IsValid_example = alloc-IsValid pool_start held-IsValid

alloc_lem_example : Gives held (alloc held)
alloc_lem_example = alloc_lem held-IsValid

share_done : (share held pool_start).0 ≡ true
unfolding share share_index index_of take_frame
share_done = ground (arith, held-bit)

held_refs : held.refcounts 0 ≡ 1
unfolding take_frame
held_refs = refl

frees_lem_example :
    ((frees 1 held 0).refcounts 0 ≡ held.refcounts 0 - 1)
    × (bit (frees 1 held 0) 0 ≡ (if 1 == held.refcounts 0 then false else true))
    × IsValid (frees 1 held 0)
frees_lem_example = frees_lem 1 0 held-IsValid (omega arith) held-bit (omega (arith, held_refs))
