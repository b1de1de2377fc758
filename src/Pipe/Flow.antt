-- ===== src/Pipe/Flow.antt =====
-- How many bytes `write` and `read` of core/pipe.rs move, and the indices that they leave.
use the_cursed_moon_kernel.Prelude.{
  ℕ, zero, suc, ◌+◌, ◌-◌, ◌<◌, min, ◌≡◌, refl, ◌≢◌, ap, Bool-cases, inl, inr, true, List, [], ◌∷◌,
  arith, length, take, drop, ◌==◌, ==→eq, eq→==, ne→==, update,
}
use the_cursed_moon_kernel.Ring.{window, gap, gap-lt, gap-full, gap-push, gap-step, gap_self}
use the_cursed_moon_kernel.Pipe.{
  State, Pipe, is_open, next, slot, write_loop, write, read_loop, read,
}

-- The indices of a pipe are below 1025, one more than the capacity.
pub record IsValid (p : Pipe) : Type 0 where
  pub head_in : p.head < 1025
  pub tail_in : p.tail < 1025

-- The number of bytes that wait in a pipe, and the bytes at its ring indices in order.
abbrev pub pending : Pipe → ℕ
pending p = gap 1025 p.tail p.head

abbrev pub at_index : State → ℕ → ℕ → ℕ
at_index s i k = s.buffers (slot i k)

abbrev pub contents : State → ℕ → List ℕ
contents s i = window (at_index s i) 1025 (s.pipes i).tail (pending (s.pipes i))

-- What the loop of `write` leaves: a valid head and the count.
pub record Moved (tail head written n : ℕ) (out : (ℕ → ℕ) × ℕ × ℕ) : Type 0 where
  pub head_in : out.1 < 1025
  pub count : out.2 ≡ written + min n (1024 - gap 1025 tail head)
  pub grown : gap 1025 tail out.1 ≡ gap 1025 tail head + min n (1024 - gap 1025 tail head)

pub write_loop-Moved :
    (i tail : ℕ) (bytes : List ℕ) (buffers : ℕ → ℕ) (head written : ℕ)
    → tail < 1025
    → head < 1025
    → Moved tail head written (length bytes) (write_loop i tail bytes buffers head written)
unfolding write_loop
write_loop-Moved i tail [] buffers head written ht hh = record {
  head_in = hh;
  count = omega arith;
  grown = omega arith;
}
write_loop-Moved i tail (b ∷ bs) buffers head written ht hh =
    elim (Bool-cases (next head == tail)) [
      | inl full ↦
          let e = gap-full 1025 tail head ht hh (==→eq _ _ full) in
          rw full (record { head_in = hh; count = omega arith; grown = omega arith })
      | inr more ↦
          let ih =
            write_loop-Moved i tail bs (update buffers (slot i head) b) (next head) (written + 1) ht
              (omega arith) in
          let e = gap-push 1025 tail head ht hh (ground arith) in
          let lt = gap-lt 1025 tail (next head) ht (omega arith) in
          rw more (record { head_in = ih.head_in; count = omega arith; grown = omega arith })
    ]

-- What the loop of `read` takes and leaves, as lists.
pub record Taken (f : ℕ → ℕ) (tail head room : ℕ) (out : List ℕ × ℕ) : Type 0 where
  pub tail_in : out.1 < 1025
  pub bytes : out.0 ≡ take room (window f 1025 tail (gap 1025 tail head))
  pub rest :
      window f 1025 out.1 (gap 1025 out.1 head)
      ≡ drop room (window f 1025 tail (gap 1025 tail head))

pub read_loop-Taken :
    (i head room : ℕ) (buffers : ℕ → ℕ) (tail : ℕ)
    → tail < 1025
    → head < 1025
    → Taken (λ k. buffers (slot i k)) tail head room (read_loop i head room buffers tail)
unfolding read_loop
read_loop-Taken i head zero buffers tail ht hh = record { tail_in = ht; bytes = refl; rest = refl }
read_loop-Taken i head (suc room) buffers tail ht hh = elim (Bool-cases (tail == head)) [
  | inl done ↦
      let e : gap 1025 tail head ≡ 0 = rw (==→eq tail head done) (gap_self 1025 head) in
      rw done (record { tail_in = ht; bytes = rw e; rest = rw e })
  | inr more ↦
      let e = gap-step 1025 tail head ht hh (ground arith) in
      let ih = read_loop-Taken i head room buffers (next tail) (omega arith) hh in
      rw more (record {
        tail_in = ih.tail_in;
        bytes = rw e (ap (◌∷◌ (buffers (slot i tail))) ih.bytes);
        rest = rw e ih.rest;
      })
]

-- An open pipe with a reader runs the loop of `write`.
pub write-open :
    (s : State) (i : ℕ) (bytes : List ℕ)
    → is_open s i ≡ true
    → (s.pipes i).readers ≢ 0
    → let (buffers, head, written) =
        write_loop i (s.pipes i).tail bytes s.buffers (s.pipes i).head 0 in
      write s i bytes ≡ (
        written,
        record { pipes = update s.pipes i (record (s.pipes i) { head = head }); buffers = buffers },
      )
unfolding write
write-open s i bytes open_i reads = rw (open_i, ne→== (s.pipes i).readers 0 reads)

pub read-open :
    (s : State) (i room : ℕ)
    → is_open s i ≡ true
    → let (bytes, tail) = read_loop i (s.pipes i).head room s.buffers (s.pipes i).tail in
      read s i room
      ≡ (bytes, record s { pipes = update s.pipes i (record (s.pipes i) { tail = tail }) })
unfolding read
read-open s i room open_i = rw open_i

-- A write to an open pipe with a reader and valid indices returns the number of the bytes that
-- there is room for in 1024, adds that number to the bytes that wait, and keeps the indices valid.
pub write_count :
    (s : State) (i : ℕ) (bytes : List ℕ)
    → is_open s i ≡ true
    → (s.pipes i).readers ≢ 0
    → IsValid (s.pipes i)
    → let (n, s') = write s i bytes in
      (n ≡ min (length bytes) (1024 - pending (s.pipes i)))
      × (pending (s'.pipes i) ≡ pending (s.pipes i) + n)
      × IsValid (s'.pipes i)
write_count s i bytes open_i reads v =
    let m =
      write_loop-Moved i (s.pipes i).tail bytes s.buffers (s.pipes i).head 0 v.tail_in v.head_in in
    rw (write-open s i bytes open_i reads, eq→== i i refl)
      (
        omega (arith, m.count),
        omega (arith, m.count, m.grown),
        record { head_in = m.head_in; tail_in = v.tail_in },
      )
