-- ===== src/Kmalloc/Blocks.antt =====
-- The blocks that core/kmalloc.rs gives out.
use the_cursed_moon_kernel.Prelude.{
  ℕ, zero, suc, ◌+◌, ◌-◌, ◌*◌, ◌/◌, ◌%◌, ◌^◌, ◌≤◌, ◌<◌, ◌≡◌, ◌⊎◌, refl, Bool, true, false, not,
  Bool-cases, ◌||◌, Option, none, some, ltb, leb, ◌==◌, arith, if_ind, ==→eq, find_from_hit,
  find_from, Option-cases, inl, inr,
}
use native.Mathlib.Nat.{mod-eq_of_lt, mod-lt, div-add-mod, mul-mod_right, pow-suc}
use the_cursed_moon_kernel.Kmalloc.{heap_end, is_power_of_two, round_up, kmalloc_aligned}

two_pow_pos : (k : ℕ) → 0 < 2 ^ k
two_pow_pos zero = omega arith
two_pow_pos (suc k) = omega (arith, pow-suc 2 k, two_pow_pos k)

-- Rounding up, where the sum does not wrap, gives the next multiple of the alignment.
pub round_up_lem :
    (word current align : ℕ)
    → 0 < align
    → current + align ≤ word
    → (current ≤ round_up word current align)
      × (round_up word current align < current + align)
      × (round_up word current align % align ≡ 0)
unfolding round_up
round_up_lem word current align pos fits =
    let x = current + align - 1 in
    let whole : x - x % align ≡ align * (x / align) = omega (arith, div-add-mod x align) in
    let rest = mod-lt x pos in
    rw (mod-eq_of_lt {n = x} {m = word} (omega arith))
      (omega arith, omega arith, rw whole (mul-mod_right align (x / align)))

power_of_two-pos : (n : ℕ) → is_power_of_two n ≡ true → 0 < n
unfolding is_power_of_two
power_of_two-pos n h = elim (Option-cases (find_from (λ k. n == 2 ^ k) 64 0)) [
  | inl e ↦ ground arith
  | inr (k, e) ↦
      let hit = find_from_hit (λ j. n == 2 ^ j) 64 0 k e in
      rw (==→eq n (2 ^ k) hit.0) (two_pow_pos k)
]

-- What a result of an allocation says of the address, with the first free byte before and after. A
-- failure takes nothing, and the size is 0, the alignment is no power of two, or the heap is short.
abbrev pub Block : ℕ → ℕ → ℕ → Option ℕ × ℕ → Type 0
Block size align free (some start, free') =
    (free ≤ start)
    × (start < free + align)
    × (start % align ≡ 0)
    × (free' ≡ start + size)
    × (free' ≤ heap_end)
    × (0 < size)
Block size align free (none, free') =
    (free' ≡ free)
    × ((size ≡ 0) ⊎ (is_power_of_two align ≡ false) ⊎ (heap_end < free + align + size))

refused : (size : ℕ) (b : Bool) → ((size == 0) || not b) ≡ true → (size ≡ 0) ⊎ (b ≡ false)
refused size b h = elim (Bool-cases b) [ inl e ↦ inl (ground arith) | inr e ↦ inr e ]

-- With words of at least 32 bits, a first free byte not behind the heap's end and an alignment up
-- to 2 ^ 31, a block that `kmalloc_aligned` gives starts at or after the first free byte, is
-- aligned, is not empty, ends within the heap, and the next free byte is the one behind it, with
-- less than the alignment skipped; a failure takes nothing, and means a size of 0, an alignment
-- that is no power of two, or a heap with less than the size and the alignment left.
pub kmalloc_aligned_lem :
    (word free size align : ℕ)
    → 2 ^ 32 ≤ word
    → free ≤ heap_end
    → align ≤ 2 ^ 31
    → Block size align free (kmalloc_aligned word free size align)
unfolding kmalloc_aligned
kmalloc_aligned_lem word free size align wide in_heap small =
    if_ind (Block size align free) (size == 0 || not (is_power_of_two align))
      (λ bad. (
        refl,
        elim (refused size (is_power_of_two align) bad) [ inl e ↦ inl e | inr e ↦ inr (inl e) ],
      ))
      λ good.
        let two : is_power_of_two align ≡ true = ground arith in
        let r = round_up_lem word free align (power_of_two-pos align two) (omega arith) in
        if_ind (Block size align free) (leb word (round_up word free align + size))
          (λ over. (refl, inr (inr (ground (arith, r.1)))))
          λ _.
            if_ind (Block size align free) (ltb heap_end (round_up word free align + size))
              (λ over. (refl, inr (inr (ground (arith, r.1)))))
              λ fits. (r.0, r.1, r.2, refl, ground arith, ground arith)
