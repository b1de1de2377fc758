-- ===== src/Pipe.antt =====
-- kernel/src/level0a/core/pipe.rs: one-way byte channels between processes. The static arrays
-- PIPES and BUFFERS are the two fields of `State`; BUFFERS is the flat memory that the code
-- reaches by pointer arithmetic. Each operation returns the new state.
pub mod Flow
pub mod Fifo
pub mod Ends
pub mod Seam
mod Tests
use the_cursed_moon_kernel.Prelude.{
  ℕ, zero, suc, ◌+◌, ◌-◌, ◌*◌, ◌%◌, Bool, true, false, not, ◌&&◌, Option, none, some, List, [], ◌∷◌,
  leb, ◌==◌, if◌then◌else◌, update, find_from, count_to,
}

abbrev pub max_pipes : ℕ
max_pipes = 4

abbrev pub pipe_capacity : ℕ
pipe_capacity = 1024

pub record Pipe : Type 0 where
  pub used : Bool
  pub head : ℕ
  pub tail : ℕ
  pub writers : ℕ
  pub readers : ℕ

pub record State : Type 0 where
  pub pipes : ℕ → Pipe
  pub buffers : ℕ → ℕ

-- `Pipe::new`
abbrev pub new : Pipe
new = record { used = false; head = 0; tail = 0; writers = 0; readers = 0 }

abbrev fresh : Pipe
fresh = record { used = true; head = 0; tail = 0; writers = 1; readers = 1 }

abbrev pub set_pipe : State → ℕ → Pipe → State
set_pipe s i p = record s { pipes = update s.pipes i p }

unfoldable pub create : State → Option ℕ × State
create s = elim (find_from (λ i. not (s.pipes i).used) max_pipes 0) [
  | none ↦ (none, s)
  | some i ↦ (some i, set_pipe s i fresh)
]

-- The guard that `write`, `read`, `close_end` and `add_ref` share: `index < MAX_PIPES` and `used`.
abbrev pub is_open : State → ℕ → Bool
is_open s index = if leb max_pipes index then false else (s.pipes index).used

-- `usize::wrapping_sub`, in words of `word` values.
abbrev pub wrapping_sub : ℕ → ℕ → ℕ → ℕ
wrapping_sub word a b = (a + word - b) % word

-- The bytes waiting, the writers and the readers.
unfoldable pub info : ℕ → State → ℕ → Option (ℕ × ℕ × ℕ)
info word s index =
    let p = s.pipes index in
    if leb max_pipes index
    then none
    else if not p.used
    then none
    else some (wrapping_sub word p.head p.tail % (pipe_capacity + 1), p.writers, p.readers)

-- The address that a byte at ring index `k` has in BUFFERS.
abbrev pub slot : ℕ → ℕ → ℕ
slot index k = index * pipe_capacity + k % pipe_capacity

abbrev pub next : ℕ → ℕ
next k = (k + 1) % (pipe_capacity + 1)

-- The loop of `write`: the buffers, the head and the count so far.
unfoldable pub write_loop : ℕ → ℕ → List ℕ → (ℕ → ℕ) → ℕ → ℕ → (ℕ → ℕ) × ℕ × ℕ
write_loop index tail [] buffers head written = (buffers, head, written)
write_loop index tail (byte ∷ bytes) buffers head written =
    let rest =
      write_loop index tail bytes (update buffers (slot index head) byte) (next head)
        (written + 1) in
    if next head == tail then (buffers, head, written) else rest

-- The number of bytes taken.
unfoldable pub write : State → ℕ → List ℕ → ℕ × State
unfolding write_loop
write s index bytes =
    let p = s.pipes index in
    if not (is_open s index)
    then (0, s)
    else if p.readers == 0
    then (0, s)
    else let (buffers, head, written) = write_loop index p.tail bytes s.buffers p.head 0 in
      (
        written,
        record { pipes = update s.pipes index (record p { head = head }); buffers = buffers },
      )

-- The loop of `read`, with `room` bytes of `out` left: the bytes read and the new tail.
unfoldable pub read_loop : ℕ → ℕ → ℕ → (ℕ → ℕ) → ℕ → List ℕ × ℕ
read_loop index head zero buffers tail = ([], tail)
read_loop index head (suc room) buffers tail =
    let rest = read_loop index head room buffers (next tail) in
    if tail == head then ([], tail) else (buffers (slot index tail) ∷ rest.0, rest.1)

-- The bytes that `read` puts at the front of an `out` of `room` bytes; it returns their number.
unfoldable pub read : State → ℕ → ℕ → List ℕ × State
unfolding read_loop
read s index room =
    let p = s.pipes index in
    if not (is_open s index)
    then ([], s)
    else let (bytes, tail) = read_loop index p.head room s.buffers p.tail in
      (bytes, set_pipe s index (record p { tail = tail }))

-- One end goes: `writer` says which. `used` falls with the last end.
abbrev pub drop_end : Pipe → Bool → Pipe
drop_end p writer =
    let writers = if writer then p.writers - 1 else p.writers in
    let readers = if writer then p.readers else p.readers - 1 in
    record p {
      writers = writers;
      readers = readers;
      used = if writers == 0 && readers == 0 then false else p.used;
    }

-- `previous - 1` runs at `previous > 0` only, which the subtraction of ℕ says too.
unfoldable pub close_end : State → ℕ → Bool → State
close_end s index writer =
    if not (is_open s index) then s else set_pipe s index (drop_end (s.pipes index) writer)

abbrev pub more_ends : Pipe → Bool → Pipe
more_ends p writer =
    if writer then record p { writers = p.writers + 1 } else record p { readers = p.readers + 1 }

unfoldable pub add_ref : State → ℕ → Bool → State
add_ref s index writer =
    if not (is_open s index) then s else set_pipe s index (more_ends (s.pipes index) writer)

unfoldable pub open_count : State → ℕ
open_count s = count_to (λ i. (s.pipes i).used) max_pipes
