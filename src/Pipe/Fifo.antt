-- ===== src/Pipe/Fifo.antt =====
-- core/pipe.rs as a queue of bytes, for bytes in flight that lie in one round of the 1025 ring
-- indices, from the tail up to index 1024.
use the_cursed_moon_kernel.Prelude.{
  fun_ext, take-nil, take_all, drop_all, ℕ, suc, ◌+◌, ◌-◌, ◌≤◌, ◌<◌, ◌≡◌, refl, ◌≢◌, ◌∙◌, ap,
  Bool-cases, inl, inr, true, List, [], ◌∷◌, ◌++◌, append-nil, append_assoc, arith, length, take,
  drop, ◌==◌, ==→eq, eq→==, ne→==, update,
}
use the_cursed_moon_kernel.Ring.{
  window, window_ext, window-snoc, place, gap, gap-lt, gap-full, gap-push, gap-place,
}
use mathlib.Core.Path.{ap₂}
use the_cursed_moon_kernel.Pipe.{State, is_open, next, slot, write_loop, write, read}
use the_cursed_moon_kernel.Pipe.Flow.{
  IsValid, pending, at_index, contents, write-open, read-open, read_loop-Taken, write_count,
}

-- The window after one more byte, as long as it stays in one round.
window-write :
    (i b tail head : ℕ) (buffers : ℕ → ℕ)
    → tail < 1025
    → head < 1025
    → next head ≢ tail
    → tail + gap 1025 tail head ≤ 1024
    → window (λ k. update buffers (slot i head) b (slot i k)) 1025 tail (suc (gap 1025 tail head))
      ≡ window (λ k. buffers (slot i k)) 1025 tail (gap 1025 tail head) ++ (b ∷ [])
window-write i b tail head buffers ht hh ne fits =
    let n = gap 1025 tail head in
    let f = λ (k : ℕ). update buffers (slot i head) b (slot i k) in
    let g = λ (k : ℕ). buffers (slot i k) in
    let end : place 1025 tail n ≡ head = gap-place 1025 tail head ht hh in
    let short = gap-push 1025 tail head ht hh ne in
    let bound = gap-lt 1025 tail (next head) ht (omega arith) in
    window-snoc f 1025 tail n ht
    ∙ ap₂ (λ xs (x : ℕ). xs ++ (x ∷ []))
        (window_ext f g 1025 tail n
          (λ j hj. ground (arith, ne→== (slot i (place 1025 tail j)) (slot i head) (omega arith)))
          ht)
        (rw end (rw (eq→== (slot i head) (slot i head) refl)))

-- The loop of `write` appends to the window as much as fits in the pipe.
write_loop-window :
    (i tail : ℕ) (bytes : List ℕ) (buffers : ℕ → ℕ) (head written : ℕ)
    → tail < 1025
    → head < 1025
    → tail + gap 1025 tail head + length bytes ≤ 1025
    → let (buffers', head', written') = write_loop i tail bytes buffers head written in
      window (λ k. buffers' (slot i k)) 1025 tail (gap 1025 tail head')
      ≡ window (λ k. buffers (slot i k)) 1025 tail (gap 1025 tail head)
        ++ take (1024 - gap 1025 tail head) bytes
unfolding write_loop
write_loop-window i tail [] buffers head written ht hh fits =
    rw (take-nil ℕ (1024 - gap 1025 tail head), append-nil)
write_loop-window i tail (b ∷ bs) buffers head written ht hh fits =
    elim (Bool-cases (next head == tail)) [
      | inl full ↦
          let e = gap-full 1025 tail head ht hh (==→eq _ _ full) in
          let z : 1024 - gap 1025 tail head ≡ 0 = omega arith in rw full (rw (z, append-nil))
      | inr more ↦
          let e = gap-push 1025 tail head ht hh (ground arith) in
          let ih =
            write_loop-window i tail bs (update buffers (slot i head) b) (next head) (written + 1)
              ht (omega arith) (omega arith) in
          let z : 1024 - gap 1025 tail head ≡ suc (1024 - gap 1025 tail (next head)) =
            omega (arith, gap-lt 1025 tail (next head) ht (omega arith)) in
          let e' : gap 1025 tail (next head) ≡ suc (gap 1025 tail head) = omega arith in
          let one = window-write i b tail head buffers ht hh (ground arith) (omega arith) in
          rw more (
            rw z (
              ih
              ∙ ap (λ xs. xs ++ take (1024 - gap 1025 tail (next head)) bs) (rw e' one)
              ∙ append_assoc (window (λ k. buffers (slot i k)) 1025 tail (gap 1025 tail head))
                  (b ∷ []) (take (1024 - gap 1025 tail (next head)) bs)))
    ]

-- A write to an open pipe with a reader and valid indices appends to the bytes of the pipe exactly
-- those that there is room for, in order, while the bytes in flight and the new ones end by ring
-- index 1024.
pub contents-write :
    (s : State) (i : ℕ) (bytes : List ℕ)
    → is_open s i ≡ true
    → (s.pipes i).readers ≢ 0
    → IsValid (s.pipes i)
    → (s.pipes i).tail + pending (s.pipes i) + length bytes ≤ 1025
    → contents (write s i bytes).1 i ≡ contents s i ++ take (1024 - pending (s.pipes i)) bytes
contents-write s i bytes open_i reads v fits =
    rw (write-open s i bytes open_i reads, eq→== i i refl)
      (write_loop-window i (s.pipes i).tail bytes s.buffers (s.pipes i).head 0 v.tail_in v.head_in
        fits)

-- A read from an open pipe with valid indices returns the first `room` bytes that its indices name,
-- in order, leaves exactly the others, and keeps the indices valid.
pub contents-read :
    (s : State) (i room : ℕ)
    → is_open s i ≡ true
    → IsValid (s.pipes i)
    → let (bytes, s') = read s i room in
      (bytes ≡ take room (contents s i))
      × (contents s' i ≡ drop room (contents s i))
      × IsValid (s'.pipes i)
contents-read s i room open_i v =
    let t =
      read_loop-Taken i (s.pipes i).head room s.buffers (s.pipes i).tail v.tail_in v.head_in in
    rw (read-open s i room open_i, eq→== i i refl)
      (t.bytes, t.rest, record { head_in = v.head_in; tail_in = t.tail_in })

pub is_open-write :
    (s : State) (i : ℕ) (bytes : List ℕ)
    → is_open s i ≡ true
    → (s.pipes i).readers ≢ 0
    → is_open (write s i bytes).1 i ≡ true
is_open-write s i bytes open_i reads =
    rw (write-open s i bytes open_i reads) (ground (arith, eq→== i i refl))

-- What is written to an empty open pipe with a reader and valid indices is read back byte for byte
-- and leaves the pipe empty, for at most 1024 bytes that end by ring index 1024 and a read with
-- room for them.
pub read-write :
    (s : State) (i room : ℕ) (bytes : List ℕ)
    → is_open s i ≡ true
    → (s.pipes i).readers ≢ 0
    → IsValid (s.pipes i)
    → pending (s.pipes i) ≡ 0
    → length bytes ≤ 1024
    → (s.pipes i).tail + length bytes ≤ 1025
    → length bytes ≤ room
    → let (out, s') = read (write s i bytes).1 i room in (out ≡ bytes) × (contents s' i ≡ [])
read-write s i room bytes open_i reads v empty small fits enough =
    let s' = (write s i bytes).1 in
    let none_yet = ap (window (at_index s i) 1025 (s.pipes i).tail) empty in
    let all_in : contents s' i ≡ bytes =
      contents-write s i bytes open_i reads v (omega arith)
      ∙ ap (λ xs. xs ++ take (1024 - pending (s.pipes i)) bytes) none_yet
      ∙ take_all (1024 - pending (s.pipes i)) bytes (omega arith) in
    let r =
      contents-read s' i room (is_open-write s i bytes open_i reads)
        (write_count s i bytes open_i reads v).2 in
    (
      r.0 ∙ ap (take room) all_in ∙ take_all room bytes enough,
      r.1 ∙ ap (drop room) all_in ∙ drop_all room bytes enough,
    )

-- The loop of `write` leaves the part of BUFFERS that another pipe has as it was.
write_loop_elsewhere :
    (i j tail : ℕ) (bytes : List ℕ) (buffers : ℕ → ℕ) (head written k : ℕ)
    → j ≢ i
    → (write_loop i tail bytes buffers head written).0 (slot j k) ≡ buffers (slot j k)
unfolding write_loop
write_loop_elsewhere i j tail [] buffers head written k ne = refl
write_loop_elsewhere i j tail (b ∷ bs) buffers head written k ne = ground (
  arith,
  write_loop_elsewhere i j tail bs (update buffers (slot i head) b) (next head) (written + 1) k,
  ne→== (slot j k) (slot i head) (omega arith),
)

pipes-write_other :
    (s : State) (i j : ℕ) (bytes : List ℕ) → j ≢ i → (write s i bytes).1.pipes j ≡ s.pipes j
unfolding write
pipes-write_other s i j bytes ne = ground (arith, ne→== j i ne)

at_index-write_other :
    (s : State) (i j : ℕ) (bytes : List ℕ) (k : ℕ)
    → j ≢ i
    → at_index (write s i bytes).1 j k ≡ at_index s j k
unfolding write
at_index-write_other s i j bytes k ne =
    ground (arith, write_loop_elsewhere i j (s.pipes i).tail bytes s.buffers (s.pipes i).head 0 k)

-- A write to one pipe changes neither the indices nor the bytes of another one, whatever the state
-- of the first.
pub contents-write_other :
    (s : State) (i j : ℕ) (bytes : List ℕ)
    → j ≢ i
    → let s' = (write s i bytes).1 in (s'.pipes j ≡ s.pipes j) × (contents s' j ≡ contents s j)
contents-write_other s i j bytes ne = (
  pipes-write_other s i j bytes ne,
  ap₂ (λ f p. window f 1025 p.tail (pending p))
      (fun_ext (λ k. at_index-write_other s i j bytes k ne)) (pipes-write_other s i j bytes ne),
)
