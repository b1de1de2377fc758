-- ===== src/Fd/Create.antt =====
-- `kernel_api::create_pipe` (kernel/src/level0a/kernel_api.rs): a new pipe with a descriptor for
-- each end, or everything undone where the table has no room.
use the_cursed_moon_kernel.Prelude.{
  ℕ, ◌<◌, ◌≡◌, refl, ap, inl, inr, true, false, Option, none, some, arith, update, update_self,
  update-update, option_ind, ◌⊎◌, ℕ_discrete, ne→==,
}
use the_cursed_moon_kernel.Pipe
use the_cursed_moon_kernel.Pipe.{is_open, close_end}
use the_cursed_moon_kernel.Pipe.Ends.{Created, create_lem}
use the_cursed_moon_kernel.Fd.{
  State, FileDescriptor, FdKind, pipe_read, pipe_write, empty, put, release, slot, entry_at,
  first_free, allocate_pipe, close, create_pipe,
}
use the_cursed_moon_kernel.Fd.Count.{ends-update}
use the_cursed_moon_kernel.Fd.{after_reader, after_writer}
use the_cursed_moon_kernel.Fd.Slots.{IsBalanced}
use the_cursed_moon_kernel.Fd.Balance.{first_free_hit}

abbrev end_of : ℕ → FdKind → FileDescriptor
end_of index kind = record { used = true; kind = kind; node = index; offset = 0 }

-- The tables and pipes after both ends were put into unused slots.
both-IsBalanced :
    {s : State} (q : Pipe.State) (index k k' : ℕ)
    → IsBalanced s
    → Created s.pipes q index
    → k < 128
    → k' < 128
    → (s.tables k).used ≡ false
    → (update s.tables k (end_of index pipe_read) k').used ≡ false
    → IsBalanced (record {
      tables = update (update s.tables k (end_of index pipe_read)) k' (end_of index pipe_write);
      pipes = q;
    })
both-IsBalanced {s} q index k k' b c lt lt' free free' p =
    let t = s.tables in
    let t1 = update t k (end_of index pipe_read) in
    let one = ends-update t k (end_of index pipe_read) p true lt in
    let two = ends-update t k (end_of index pipe_read) p false lt in
    let three = ends-update t1 k' (end_of index pipe_write) p true lt' in
    let four = ends-update t1 k' (end_of index pipe_write) p false lt' in
    elim (ℕ_discrete p index) [
      | yes e ↦ ground (arith, c.1, c.2, c.3, c.4, (b p).dead, one, two, three, four)
      | no ne ↦ ground (
        arith,
        c.6 p ne,
        (b p).writers,
        (b p).readers,
        (b p).alive,
        (b p).dead,
        one,
        two,
        three,
        four,
      )
    ]

-- Both ends of the new pipe closed, and the tables as they were.
none-IsBalanced :
    {s : State} (q : Pipe.State) (index : ℕ)
    → IsBalanced s
    → Created s.pipes q index
    → IsBalanced (record s { pipes = close_end (close_end q index false) index true })
unfolding close_end
none-IsBalanced {s} q index b c p = elim (ℕ_discrete p index) [
  | yes e ↦ ground (arith, c.0, c.1, c.2, c.3, c.4, (b p).dead)
  | no ne ↦
      ground
        (arith, c.6 p ne, (b p).writers, (b p).readers, (b p).alive, (b p).dead, ne→== p index ne)
]

-- The reading end was put into a slot, closed again, and the writing end closed.
one-IsBalanced :
    {s : State} (q : Pipe.State) (index k : ℕ)
    → IsBalanced s
    → Created s.pipes q index
    → k < 128
    → (s.tables k).used ≡ false
    → let s' =
        put (release (record { tables = s.tables; pipes = q }) (end_of index pipe_read)) k empty in
      IsBalanced (record s' { pipes = close_end s'.pipes index true })
unfolding close_end release
one-IsBalanced {s} q index k b c lt free p =
    let one = ends-update s.tables k empty p true lt in
    let two = ends-update s.tables k empty p false lt in
    elim (ℕ_discrete p index) [
      | yes e ↦ ground (arith, c.0, c.1, c.2, c.3, c.4, (b p).dead, one, two)
      | no ne ↦ ground (
        arith,
        c.6 p ne,
        (b p).writers,
        (b p).readers,
        (b p).alive,
        (b p).dead,
        ne→== p index ne,
        one,
        two,
      )
    ]

-- `close` of a descriptor in use.
close_used :
    (s : State) (task fd : ℕ)
    → fd < 16
    → (entry_at s task fd).used ≡ true
    → (close s task fd).1 ≡ put (release s (entry_at s task fd)) (slot task fd) empty
unfolding close
close_used s task fd lt u = rw u (ground arith)

-- What `allocate_pipe` does: nothing, or the end goes into an unused slot of the task's table.
abbrev Allocated : State → ℕ → ℕ → FdKind → Option ℕ × State → Type 0
Allocated s task index kind r =
    (r ≡ (none, s))
    ⊎ ((fd : ℕ) × (fd < 16)
        × ((entry_at s task fd).used ≡ false)
        × (r ≡ (some fd, put s (slot task fd) (end_of index kind))))

allocate_pipe_cases :
    (s : State) (task index : ℕ) (kind : FdKind)
    → Allocated s task index kind (allocate_pipe s task index kind)
unfolding allocate_pipe
allocate_pipe_cases s task index kind =
    option_ind (Allocated s task index kind) (first_free s task) (λ _. inl refl)
      λ fd e. let hit = first_free_hit s task fd e in inr (fd, hit.2, hit.0, refl)

-- `create_pipe` by a task below 8 keeps the pipe counters equal to the number of descriptors that
-- own an end, whether it returns both descriptors or fails for want of a pipe, of a first or of a
-- second descriptor.
pub create_pipe-IsBalanced :
    {s : State} (task : ℕ) → task < 8 → IsBalanced s → IsBalanced (create_pipe s task).1
unfolding create_pipe after_reader after_writer release
create_pipe-IsBalanced {s} task ht b =
    let P = λ (r : Option (ℕ × ℕ) × State). IsBalanced r.1 in
    let made = create_lem s.pipes in
    let q = (Pipe.create s.pipes).1 in
    option_ind P (Pipe.create s.pipes).0 (λ e. rw (made.1 e).0 b)
      λ index e.
        let c = made.0 index e in
        let s1 : State = record s { pipes = q } in
        elim (allocate_pipe_cases s1 task index pipe_read) [
          | inl e1 ↦ rw (e1, after_reader) (none-IsBalanced q index b c)
          | inr (fd, lt, free, e1) ↦
              let k = slot task fd in
              let s2 = put s1 k (end_of index pipe_read) in
              let there : (s2.tables k).used ≡ true =
                ap (λ x. x.used) (update_self s.tables k (end_of index pipe_read)) in
              elim (allocate_pipe_cases s2 task index pipe_write) [
                | inl e2 ↦
                    rw (e1, after_reader, e2, after_writer, close_used s2 task fd lt there)
                      (rw
                        (
                          update_self s.tables k (end_of index pipe_read),
                          update-update s.tables k (end_of index pipe_read) empty,
                        )
                        (one-IsBalanced q index k b c (omega arith) free))
                | inr (fd', lt', free', e2) ↦
                    rw (e1, after_reader, e2, after_writer)
                      (both-IsBalanced q index k (slot task fd') b c (omega arith) (omega arith)
                        free free')
              ]
        ]
