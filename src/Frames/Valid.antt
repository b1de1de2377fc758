-- ===== src/Frames/Valid.antt =====
-- The validity of the allocator of core/frames.rs, and its calls.
use the_cursed_moon_kernel.Prelude.{
  ℕ, ◌+◌, ◌<◌, ◌≡◌, refl, Bool, true, false, not, ◌||◌, ltb, ◌==◌, if◌then◌else◌, arith, eq→==,
  ne→==, sym, ◌∙◌, count_to, count_to_change, if_ind, option_ind, find_from_hit, Option, some,
}
use the_cursed_moon_kernel.Frames.{
  State, bit, bit_at, write_bit, take_frame, alloc, share_index, share, free_index, free, index_of,
}
use the_cursed_moon_kernel.Frames.Bits.{bit_at-write_bit, bytes-write_bit}

-- The bitmap holds bytes, a counter is a `u8` and is 0 for the free frames alone, and `used` is
-- the number of the frames in use.
pub record IsValid (s : State) : Type 0 where
  pub bytes : (k : ℕ) → s.bitmap k < 256
  pub small : (i : ℕ) → s.refcounts i < 256
  pub live : (i : ℕ) → bit s i ≡ true → 0 < s.refcounts i
  pub dead : (i : ℕ) → bit s i ≡ false → s.refcounts i ≡ 0
  pub counted : s.used ≡ count_to (bit s) 4096

-- The number of set bits after one of them is written.
count-write_bit :
    (m : ℕ → ℕ) (i : ℕ) (v : Bool)
    → ((k : ℕ) → m k < 256)
    → i < 4096
    → count_to (bit_at (write_bit m i v)) 4096 + (if bit_at m i then 1 else 0)
      ≡ count_to (bit_at m) 4096 + (if v then 1 else 0)
count-write_bit m i v bytes lt =
    let here : bit_at (write_bit m i v) i ≡ v =
      bit_at-write_bit m i i v bytes ∙ rw (eq→== i i refl) refl in
    rw here at (
      count_to_change (bit_at m) (bit_at (write_bit m i v)) 4096 i lt
        (λ j ne. sym (bit_at-write_bit m i j v bytes ∙ rw (ne→== j i ne) refl)))

-- A frame that was free, taken with one reference.
pub take_frame-IsValid :
    {s : State} (i : ℕ) → IsValid s → i < 4096 → bit s i ≡ false → IsValid (take_frame s i)
unfolding take_frame
take_frame-IsValid {s} i v lt idle = record {
  bytes = bytes-write_bit s.bitmap i true v.bytes;
  small = λ j. ground (arith, v.small j);
  live = λ j. ground (arith, v.live j, bit_at-write_bit s.bitmap i j true v.bytes);
  dead = λ j. ground (arith, v.dead j, bit_at-write_bit s.bitmap i j true v.bytes);
  counted = ground (arith, v.counted, count-write_bit s.bitmap i true v.bytes lt);
}

pub share_index-IsValid : {s : State} (i : ℕ) → IsValid s → IsValid (share_index s i).1
unfolding share_index
share_index-IsValid {s} i v =
    if_ind (λ (r : Bool × State). IsValid r.1)
      (not (bit s i) || s.refcounts i == 0 || s.refcounts i == 255) (λ _. v)
      λ fits. record {
        bytes = v.bytes;
        small = λ j. ground (arith, v.small j);
        live = λ j. ground (arith, v.live j);
        dead = λ j. ground (arith, v.dead j);
        counted = v.counted;
      }

pub free_index-IsValid : {s : State} (i : ℕ) → IsValid s → i < 4096 → IsValid (free_index s i)
unfolding free_index
free_index-IsValid {s} i v lt =
    if_ind IsValid (not (bit s i)) (λ _. v)
      λ busy.
        if_ind IsValid (ltb 1 (s.refcounts i))
          (λ many. record {
            bytes = v.bytes;
            small = λ j. ground (arith, v.small j, v.small i);
            live = λ j. ground (arith, v.live j);
            dead = λ j. ground (arith, v.dead j);
            counted = v.counted;
          })
          (λ last. record {
            bytes = bytes-write_bit s.bitmap i false v.bytes;
            small = λ j. ground (arith, v.small j);
            live = λ j. ground (arith, v.live j, bit_at-write_bit s.bitmap i j false v.bytes);
            dead = λ j. ground (arith, v.dead j, bit_at-write_bit s.bitmap i j false v.bytes);
            counted = ground (arith, v.counted, count-write_bit s.bitmap i false v.bytes lt);
          })

pub index_of_lt : (phys i : ℕ) → index_of phys ≡ some i → i < 4096
unfolding index_of
index_of_lt phys i h = ground arith

-- `alloc`, and `share` and `free` at any address, keep the allocator valid: the bitmap holds bytes,
-- a counter is below 256 and is 0 exactly for the frames that are free, and `used` is the number of
-- the frames in use.
pub alloc-IsValid :
    {s : State} (phys : ℕ)
    → IsValid s
    → IsValid (alloc s).1 × IsValid (share s phys).1 × IsValid (free s phys)
unfolding alloc share free
alloc-IsValid {s} phys v = (
  option_ind (λ (r : Option ℕ × State). IsValid r.1) _ (λ _. v)
      (λ i e.
        let hit = find_from_hit _ 4096 0 i e in
        take_frame-IsValid i v (omega (arith, hit.2)) (ground (arith, hit.0))),
  option_ind (λ (r : Bool × State). IsValid r.1) (index_of phys) (λ _. v)
      (λ i e. share_index-IsValid i v),
  option_ind IsValid (index_of phys) (λ _. v)
      (λ i e. free_index-IsValid i v (index_of_lt phys i e)),
)
