-- ===== src/Frames/Refs.antt =====
-- The life of a shared frame in core/frames.rs, from `share` to the last `free`.
use the_cursed_moon_kernel.Prelude.{
  ℕ, zero, suc, ◌+◌, ◌-◌, ◌*◌, ◌≤◌, ◌<◌, ◌≡◌, refl, true, false, ◌==◌, if◌then◌else◌, arith, eq→==,
  some, inl, inr, Option-cases, ◌⊎◌,
}
use the_cursed_moon_kernel.Frames.{
  State, bit, share, share_index, free, free_index, refcount, index_of, pool_start, frame_size,
}
use the_cursed_moon_kernel.Frames.Bits.{bit_at-write_bit}
use the_cursed_moon_kernel.Frames.Valid.{IsValid, free_index-IsValid}

-- Every byte of the `i`-th frame of the pool belongs to it.
pub index_of_frame :
    (i offset : ℕ)
    → i < 4096
    → offset < 4096
    → index_of (pool_start + i * frame_size + offset) ≡ some i
unfolding index_of
index_of_frame i offset lt small = ground arith

-- In a valid allocator, `share` succeeds exactly at an address with from 1 to 254 references, and
-- adds one; otherwise it changes nothing.
pub share_lem :
    {s : State} (phys : ℕ)
    → IsValid s
    → let (done, s') = share s phys in
      ((done ≡ true)
        → (0 < refcount s phys)
          × (refcount s phys < 255)
          × (refcount s' phys ≡ refcount s phys + 1))
      × ((done ≡ false) → (s' ≡ s) × ((refcount s phys ≡ 0) ⊎ (refcount s phys ≡ 255)))
unfolding share share_index refcount
share_lem {s} phys v = elim (Option-cases (index_of phys)) [
  | inl e ↦ ground arith
  | inr (i, e) ↦ ground (arith, v.dead i, v.live i, v.small i)
]

-- In a valid allocator, where `share` succeeds on a frame of the pool, a `free` at that address
-- gives every frame the counter and the bit that it had before, and `used` its value.
pub free-share :
    {s : State} (phys i : ℕ)
    → IsValid s
    → index_of phys ≡ some i
    → (share s phys).0 ≡ true
    → let s' = free (share s phys).1 phys in
      ((j : ℕ) → (s'.refcounts j ≡ s.refcounts j) × (bit s' j ≡ bit s j)) × (s'.used ≡ s.used)
unfolding share share_index free free_index
free-share {s} phys i v e done = (λ j. ground (arith, v.live i), ground (arith, v.live i))

-- `n` owners drop the frame one after the other.
abbrev pub frees : ℕ → State → ℕ → State
frees zero s i = s
frees (suc n) s i = frees n (free_index s i) i

free_one :
    (s : State) (i : ℕ)
    → IsValid s
    → bit s i ≡ true
    → ((free_index s i).refcounts i ≡ s.refcounts i - 1)
      × (bit (free_index s i) i ≡ (if s.refcounts i == 1 then false else true))
unfolding free_index
free_one s i v busy =
    ground (arith, v.live i, bit_at-write_bit s.bitmap i i false v.bytes, eq→== i i refl)

-- In a valid allocator, after at most as many drops as a frame in use has references, its counter
-- has gone down by the number of the drops, the frame is in use exactly if a reference is left, and
-- the allocator is valid.
pub frees_lem :
    {s : State} (n i : ℕ)
    → IsValid s
    → i < 4096
    → bit s i ≡ true
    → n ≤ s.refcounts i
    → ((frees n s i).refcounts i ≡ s.refcounts i - n)
      × (bit (frees n s i) i ≡ (if n == s.refcounts i then false else true))
      × IsValid (frees n s i)
frees_lem {s} zero i v lt busy le = (omega arith, ground (arith, v.live i), v)
frees_lem {s} (suc zero) i v lt busy le =
    let one = free_one s i v busy in
    (one.0, ground (arith, one.1, v.live i), free_index-IsValid i v lt)
frees_lem {s} (suc (suc n)) i v lt busy le =
    let one = free_one s i v busy in
    let ih =
      frees_lem {s = free_index s i} (suc n) i (free_index-IsValid i v lt) lt
        (ground (arith, one.1)) (omega (arith, one.0)) in
    (omega (arith, one.0, ih.0), ground (arith, one.0, ih.1), ih.2)
