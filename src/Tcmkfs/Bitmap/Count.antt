-- ===== src/Tcmkfs/Bitmap/Count.antt =====
-- The count of the free blocks of core/tcmkfs.rs, and a block that is allocated and given back.
use the_cursed_moon_kernel.Prelude.{
  ℕ, ◌+◌, ◌-◌, ◌%◌, ◌^◌, ◌≤◌, ◌<◌, Bool, true, false, not, ◌==◌, if◌then◌else◌, Option, none, some,
  ◌≡◌, refl, ◌∙◌, arith, eq→==, ne→==, ℕ_discrete, if_ind, option_ind, find_from, find_from_hit,
  find_from_miss, count_to, count_to-le, count_to_change,
}
use the_cursed_moon_kernel.Frames.Bits.{bit_at-write_bit, bytes-write_bit}
use the_cursed_moon_kernel.Tcmkfs.Layout.{State}
use the_cursed_moon_kernel.Tcmkfs.Bitmap.{bit_get, bit_set, alloc_block, free_block}

module _ {Disk : Type 0} where
  abbrev pub is_clear : State Disk → ℕ → Bool
  is_clear s i = not (bit_get s i)

  -- The bitmap holds bytes, and `free_blocks` is the number of its clear bits.
  pub record IsCounted (s : State Disk) : Type 0 where
    pub bytes : (k : ℕ) → s.bitmap k < 256
    pub small : s.total_blocks ≤ 16384
    pub counted : s.free_blocks ≡ count_to (is_clear s) s.total_blocks

  pub bit_get-bit_set :
      (s : State Disk) (i j : ℕ) (v : Bool)
      → ((k : ℕ) → s.bitmap k < 256)
      → bit_get (bit_set i v s) j ≡ (if j == i then v else bit_get s j)
  bit_get-bit_set s i j v bytes = bit_at-write_bit s.bitmap i j v bytes

  -- The number of clear bits after one of them is written.
  count-bit_set :
      (s : State Disk) (i : ℕ) (v : Bool)
      → ((k : ℕ) → s.bitmap k < 256)
      → i < s.total_blocks
      → count_to (is_clear (bit_set i v s)) s.total_blocks + (if is_clear s i then 1 else 0)
        ≡ count_to (is_clear s) s.total_blocks + (if not v then 1 else 0)
  count-bit_set s i v bytes lt =
      let here : bit_get (bit_set i v s) i ≡ v =
        bit_get-bit_set s i i v bytes ∙ rw (eq→== i i refl) refl in
      rw here at (
        count_to_change (is_clear s) (is_clear (bit_set i v s)) s.total_blocks i lt
          (λ j ne. rw (bit_get-bit_set s i j v bytes, ne→== j i ne) refl))

  -- What `alloc_block` does: it finds no clear bit and changes nothing, or it sets the first one
  -- and lowers the count.
  abbrev pub Allocated : State Disk → Option ℕ → State Disk → Type 0
  Allocated s none t = (t ≡ s) × ((j : ℕ) → j < s.total_blocks → bit_get s j ≡ true)
  Allocated s (some i) t =
      IsCounted t
      × (i < s.total_blocks)
      × (bit_get s i ≡ false)
      × ((j : ℕ) → bit_get t j ≡ (if j == i then true else bit_get s j))
      × (t.free_blocks + 1 ≡ s.free_blocks)
      × (t.inodes ≡ s.inodes)
      × (t.total_blocks ≡ s.total_blocks)
      × (t.mounted ≡ s.mounted)

  taken :
      (s : State Disk) (i : ℕ)
      → IsCounted s
      → i < s.total_blocks
      → bit_get s i ≡ false
      → Allocated s
          (some i)
          (record (bit_set i true s) { free_blocks = (s.free_blocks + 2 ^ 32 - 1) % 2 ^ 32 })
  taken s i c lt clear =
      let change = count-bit_set s i true c.bytes lt in
      let change' : count_to (is_clear (bit_set i true s)) s.total_blocks + 1
          ≡ count_to (is_clear s) s.total_blocks + 0 =
        rw clear at change in
      let bound = count_to-le (is_clear s) s.total_blocks in
      let down : (s.free_blocks + 2 ^ 32 - 1) % 2 ^ 32 + 1 ≡ s.free_blocks =
        omega (arith, change', bound, c.counted, c.small) in
      (
        record {
          bytes = bytes-write_bit s.bitmap i true c.bytes;
          small = c.small;
          counted = omega (arith, change', bound, c.counted, down);
        },
        lt,
        clear,
        λ j. bit_get-bit_set s i j true c.bytes,
        down,
        refl,
        refl,
        refl,
      )

  pub alloc_block-Allocated :
      (s : State Disk) → IsCounted s → Allocated s (alloc_block s).0 (alloc_block s).1
  unfolding alloc_block
  alloc_block-Allocated s c =
      option_ind (λ (r : Option ℕ × State Disk). Allocated s r.0 r.1)
        (find_from (is_clear s) s.total_blocks 0)
        (λ e. (
          refl,
          λ j lt.
              let miss =
                find_from_miss (is_clear s) s.total_blocks 0 e j (omega arith) (omega arith) in
              ground (arith, miss),
        ))
        λ i e.
          let (hit, _, lt, _) = find_from_hit (is_clear s) s.total_blocks 0 i e in
          taken s i c (omega arith) (ground (arith, hit))

  -- What `free_block` does to the bits and the count.
  abbrev pub Freed : State Disk → ℕ → State Disk → Type 0
  Freed s i t =
      IsCounted t
      × ((j : ℕ) → bit_get t j ≡ (if j == i then false else bit_get s j))
      × (t.free_blocks ≡ s.free_blocks + (if bit_get s i then 1 else 0))
      × (t.inodes ≡ s.inodes)
      × (t.total_blocks ≡ s.total_blocks)
      × (t.mounted ≡ s.mounted)

  pub free_block-Freed :
      (s : State Disk) (i : ℕ) → IsCounted s → i < s.total_blocks → Freed s i (free_block i s)
  unfolding free_block
  free_block-Freed s i c lt =
      if_ind (Freed s i) (bit_get s i)
        (λ set.
          let change = count-bit_set s i false c.bytes lt in
          let change' : count_to (is_clear (bit_set i false s)) s.total_blocks + 0
              ≡ count_to (is_clear s) s.total_blocks + 1 =
            rw set at change in
          let bound = count_to-le (is_clear (bit_set i false s)) s.total_blocks in
          let up : (s.free_blocks + 1) % 2 ^ 32 ≡ s.free_blocks + 1 =
            omega (arith, change', bound, c.counted, c.small) in
          (
            record {
              bytes = bytes-write_bit s.bitmap i false c.bytes;
              small = c.small;
              counted = omega (arith, change', c.counted, up);
            },
            λ j. bit_get-bit_set s i j false c.bytes,
            rw set up,
            refl,
            refl,
            refl,
          ))
        (λ clear. (
          c,
          λ j. elim (ℕ_discrete j i) [
            | yes e ↦ rw (e, eq→== i i refl) clear
            | no ne ↦ rw (ne→== j i ne) refl
          ],
          rw clear (omega arith),
          refl,
          refl,
          refl,
        ))
