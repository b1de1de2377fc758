-- ===== src/Tcmkfs/Data/Reserve.antt =====
-- How `write` of core/tcmkfs.rs takes the blocks that it needs, and gives them back.
use the_cursed_moon_kernel.Prelude.{
  ℕ, zero, suc, ◌+◌, ◌-◌, ◌≤◌, ◌<◌, true, false, not, Option, none, some, ◌≡◌, refl, ap, sym, ◌∙◌,
  ◌≢◌, ◌⊎◌, inl, inr, arith, eq→==, ne→==, ℕ_discrete, update_self, update_ne, count_to,
  count_to_ext, Bool-cases, subst,
}
use the_cursed_moon_kernel.Prelude.Action.{Result, ok, err}
use the_cursed_moon_kernel.Tcmkfs.Layout.{State, Inode, FsError, full}
use the_cursed_moon_kernel.Tcmkfs.Bitmap.{bit_get, alloc_block, free_block}
use the_cursed_moon_kernel.Tcmkfs.Bitmap.Count.{
  IsCounted, Allocated, Freed, is_clear, alloc_block-Allocated, free_block-Freed,
}
use the_cursed_moon_kernel.Tcmkfs.Data.{set_block, reserve, roll_back}

true-false : true ≡ false → ⊥
true-false h = cc

module _ {Disk : Type 0} (index : ℕ) where
  abbrev pub blocks_of : State Disk → ℕ → ℕ
  blocks_of t = (t.inodes index).blocks

  -- Beyond the blocks that were in use in `s`, those of the file at the places `j` to `i` are in
  -- use in `t`, and no others.
  pub record Holding (s t : State Disk) (j i : ℕ) : Type 0 where
    pub count : IsCounted t
    pub total : t.total_blocks ≡ s.total_blocks
    pub taken :
        (k : ℕ)
        → j ≤ k
        → k < i
        → (blocks_of t k < s.total_blocks) × (bit_get s (blocks_of t k) ≡ false)
    pub only :
        (x : ℕ)
        → bit_get t x ≡ true
        → (bit_get s x ≡ true) ⊎ ((k : ℕ) × (j ≤ k) × (k < i) × (blocks_of t k ≡ x))
    pub kept : (x : ℕ) → bit_get s x ≡ true → bit_get t x ≡ true

  Holding-none : (s : State Disk) (j : ℕ) → IsCounted s → Holding s s j j
  Holding-none s j c = record {
    count = c;
    total = refl;
    taken = λ k lo hi. absurd (omega arith);
    only = λ x h. inl h;
    kept = λ x h. h;
  }

  counted : (i b : ℕ) (u : State Disk) → IsCounted u → IsCounted (set_block index i b u)
  counted i b u c = record { bytes = c.bytes; small = c.small; counted = c.counted }

  written : (i b : ℕ) (u : State Disk) → blocks_of (set_block index i b u) i ≡ b
  written i b u =
      ap (λ (n : Inode). n.blocks i) (update_self u.inodes index _) ∙ update_self (blocks_of u) i b

  unwritten :
      (i b k : ℕ) (u t : State Disk)
      → u.inodes ≡ t.inodes
      → k ≢ i
      → blocks_of (set_block index i b u) k ≡ blocks_of t k
  unwritten i b k u t e ne =
      ap (λ (n : Inode). n.blocks k) (update_self u.inodes index _)
      ∙ update_ne (blocks_of u) i b k ne
      ∙ ap (λ (f : ℕ → Inode). (f index).blocks k) e

  -- A block is allocated and written into the file.
  Holding-next :
      (s t u : State Disk) (j i b : ℕ)
      → Holding s t j i
      → j ≤ i
      → Allocated t (some b) u
      → Holding s (set_block index i b u) j (suc i)
  Holding-next s t u j i b h le a =
      let here = written i b u in
      let was_free : bit_get s b ≡ false = ground (arith, h.kept b, a.2) in
      record {
        count = counted i b u a.0;
        total = a.6 ∙ h.total;
        taken = λ k lo hi. elim (ℕ_discrete k i) [
          | yes e ↦ rw (e, here) (omega (arith, a.1, h.total), was_free)
          | no ne ↦ rw (unwritten i b k u t a.5 ne) (h.taken k lo (omega arith))
        ];
        only = λ x set. elim (ℕ_discrete x b) [
          | yes e ↦ inr (i, le, omega arith, here ∙ sym e)
          | no ne ↦ elim (h.only x (sym (a.3 x ∙ rw (ne→== x b ne) refl) ∙ set)) [
            | inl old ↦ inl old
            | inr (k, lo, hi, e) ↦
                inr (k, lo, omega arith, unwritten i b k u t a.5 (λ q. omega arith) ∙ e)
          ]
        ];
        kept = λ x set. ground (arith, h.kept x, a.3 x);
      }

  -- The first of them is given back.
  Holding-drop :
      (s t u : State Disk) (j i : ℕ)
      → Holding s t j i
      → j < i
      → Freed t (blocks_of t j) u
      → Holding s (set_block index j 0 u) (suc j) i
  Holding-drop s t u j i h lt f =
      let mine = h.taken j (omega arith) lt in
      record {
        count = counted j 0 u f.0;
        total = f.4 ∙ h.total;
        taken =
            λ k lo hi. rw (unwritten j 0 k u t f.3 (λ q. omega arith)) (h.taken k (omega arith) hi);
        only = λ x set. elim (ℕ_discrete x (blocks_of t j)) [
          | yes e ↦ absurd (true-false (sym set ∙ f.1 x ∙ rw (eq→== x (blocks_of t j) e) refl))
          | no ne ↦ elim (h.only x (sym (f.1 x ∙ rw (ne→== x (blocks_of t j) ne) refl) ∙ set)) [
            | inl old ↦ inl old
            | inr (k, lo, hi, e) ↦
                let kj : k ≢ j = λ q. ne (sym e ∙ ap (blocks_of t) q) in
                inr (k, omega arith, hi, unwritten j 0 k u t f.3 kj ∙ e)
          ]
        ];
        kept = λ x set. elim (ℕ_discrete x (blocks_of t j)) [
          | yes e ↦ absurd (true-false (sym set ∙ ap (bit_get s) e ∙ mine.1))
          | no ne ↦ f.1 x ∙ rw (ne→== x (blocks_of t j) ne) (h.kept x set)
        ];
      }

  roll_back-Holding :
      (n : ℕ) (s t : State Disk) (j i : ℕ)
      → n + j ≡ i
      → Holding s t j i
      → Holding s (roll_back index n j t) i i
  unfolding roll_back
  roll_back-Holding zero s t j i e h = subst (λ k. Holding s t k i) {x = j} (omega arith) h
  roll_back-Holding (suc n) s t j i e h =
      let mine = h.taken j (omega arith) (omega arith) in
      let lt : blocks_of t j < t.total_blocks = omega (arith, mine.0, h.total) in
      let next =
        Holding-drop s t (free_block (blocks_of t j) t) j i h (omega arith)
          (free_block-Freed t (blocks_of t j) h.count lt) in
      subst
        (λ m.
          Holding s (roll_back index n m (set_block index j 0 (free_block (blocks_of t j) t))) i i)
        (omega arith)
        (roll_back-Holding n s (set_block index j 0 (free_block (blocks_of t j) t)) (suc j) i
          (omega arith) next)

  -- With nothing held, the bits and the count are those of before.
  abbrev pub Restored : State Disk → State Disk → Type 0
  Restored s t = ((x : ℕ) → bit_get t x ≡ bit_get s x) × (t.free_blocks ≡ s.free_blocks)

  Holding-Restored : (s t : State Disk) (i : ℕ) → IsCounted s → Holding s t i i → Restored s t
  Holding-Restored s t i c h =
      let bits : (x : ℕ) → bit_get t x ≡ bit_get s x = λ x. elim (Bool-cases (bit_get s x)) [
        | inl old ↦ h.kept x old ∙ sym old
        | inr new ↦ elim (Bool-cases (bit_get t x)) [
          | inr q ↦ q ∙ sym new
          | inl q ↦ elim (h.only x q) [
            | inl old ↦ absurd (true-false (sym old ∙ new))
            | inr (k, lo, hi, _) ↦ absurd (omega arith)
          ]
        ]
      ] in
      (
        bits,
        h.count.counted
            ∙ ap (count_to (is_clear t)) h.total
            ∙ count_to_ext (is_clear t) (is_clear s) s.total_blocks (λ x _. ap not (bits x))
            ∙ sym c.counted,
      )

  -- What `reserve` ends with: all blocks up to `i` held, or everything given back.
  abbrev pub Outcome : State Disk → ℕ → ℕ → Result FsError (Unit {0}) × State Disk → Type 0
  Outcome s have i (ok x, t) = Holding s t have i
  Outcome s have i (err e, t) = (e ≡ full) × Restored s t

  reserve-from :
      (n : ℕ) (s t : State Disk) (have i : ℕ)
      → IsCounted s
      → Holding s t have i
      → have ≤ i
      → Outcome s have (n + i) (reserve index have n i t)
  unfolding reserve
  reserve-from zero s t have i c h le = subst (λ k. Holding s t have k) {x = i} (omega arith) h
  reserve-from (suc n) s t have i c h le =
      step (alloc_block t).0 (alloc_block t).1 (alloc_block-Allocated t h.count) (λ b u a.
        subst (λ k. Outcome s have k (reserve index have n (i + 1) (set_block index i b u)))
          {x = n + (i + 1)} (omega arith)
          (reserve-from n s (set_block index i b u) have (i + 1) c
            (subst (Holding s (set_block index i b u) have) (omega arith)
              (Holding-next s t u have i b h le a))
            (omega arith)))
    where
      step :
          (o : Option ℕ) (u : State Disk)
          → Allocated t o u
          → ((b : ℕ) (v : State Disk)
              → Allocated t (some b) v
              → Outcome s have (suc n + i) (reserve index have n (i + 1) (set_block index i b v)))
          → Outcome s have (suc n + i) (elim o [
            | none ↦ (err full, roll_back index (i - have) have u)
            | some b ↦ reserve index have n (i + 1) (set_block index i b u)
          ])
      step none u a more = (
        refl,
        Holding-Restored s (roll_back index (i - have) have u) i c (
            roll_back-Holding (i - have) s u have i (omega arith)
              (subst (λ v. Holding s v have i) (sym a.0) h)),
      )
      step (some b) u a more = more b u a

  pub reserve-Outcome :
      (n : ℕ) (s : State Disk) (have : ℕ)
      → IsCounted s
      → Outcome s have (n + have) (reserve index have n have s)
  reserve-Outcome n s have c = reserve-from n s s have have c (Holding-none s have c) (omega arith)
