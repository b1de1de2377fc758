-- ===== src/Pipe/Seam.antt =====
-- The last ring index of core/pipe.rs, 1024, over a buffer of 1024 bytes, and the difference of
-- indices that `info` takes modulo the machine word first.
use the_cursed_moon_kernel.Prelude.{
  ℕ, ◌+◌, ◌%◌, ◌^◌, ◌≡◌, refl, ◌≢◌, true, some, [], ◌∷◌, arith, ltb, eq→==, if◌then◌else◌,
}
use the_cursed_moon_kernel.Ring.{gap}
use the_cursed_moon_kernel.Pipe.{State, is_open, slot, write_loop, write, read_loop, read, info}
use the_cursed_moon_kernel.Pipe.Flow.{IsValid, pending, write-open}

-- The last ring index and the first name the same byte of BUFFERS.
pub slot_shared : (i : ℕ) → slot i 1024 ≡ slot i 0
slot_shared i = omega arith

-- Where both indices of an open pipe with a reader are 1024, a write of two bytes is acknowledged
-- in full, and a read of two bytes then returns the second byte twice.
pub seam_overwrites :
    (s : State) (i a b : ℕ)
    → is_open s i ≡ true
    → (s.pipes i).readers ≢ 0
    → (s.pipes i).head ≡ 1024
    → (s.pipes i).tail ≡ 1024
    → let (n, s') = write s i (a ∷ b ∷ []) in (n ≡ 2) × ((read s' i 2).0 ≡ b ∷ b ∷ [])
unfolding write_loop read_loop read
seam_overwrites s i a b open_i reads head tail =
    rw (write-open s i (a ∷ b ∷ []) open_i reads, eq→== i i refl, open_i, tail, head) (ground arith)

-- On a 64-bit machine, `info` of an open pipe with valid indices gives the number of waiting bytes
-- where the head is not below the tail, 16 more than that modulo 1025 where it is, and the two
-- counters.
pub info-pending :
    (s : State) (i : ℕ)
    → is_open s i ≡ true
    → IsValid (s.pipes i)
    → let p = s.pipes i in
      info (2 ^ 64) s i
      ≡ some
          (if ltb p.head p.tail then (pending p + 16) % 1025 else pending p, p.writers, p.readers)
unfolding info gap
info-pending s i open_i v = ground arith

-- On a 32-bit machine the difference is 1021.
pub info-pending_32 :
    (s : State) (i : ℕ)
    → is_open s i ≡ true
    → IsValid (s.pipes i)
    → let p = s.pipes i in
      info (2 ^ 32) s i
      ≡ some
          (if ltb p.head p.tail then (pending p + 1021) % 1025 else pending p, p.writers, p.readers)
unfolding info gap
info-pending_32 s i open_i v = ground arith
