-- ===== src/Fd/Count.antt =====
-- How many descriptors of core/fd.rs own an end of a pipe, and how a write to one slot of the
-- tables changes that number.
use the_cursed_moon_kernel.Prelude.{
  update_self, update_ne, sym, ℕ, ◌+◌, ◌-◌, ◌<◌, ◌≡◌, ap, Bool, true, false, arith, ◌==◌,
  if◌then◌else◌, update, count_to, count_to_change, count_to_pos,
}
use the_cursed_moon_kernel.Pipe.{is_open, add_ref, close_end}
use the_cursed_moon_kernel.Fd.{State, FileDescriptor, file, pipe_read, pipe_write, retain, release}

-- A descriptor in use of the pipe `p`, for its writing or its reading end.
abbrev pub owns : ℕ → Bool → FileDescriptor → Bool
owns p writer e =
    if e.used
    then elim e.kind [
      | pipe_write ↦ if writer then e.node == p else false
      | pipe_read ↦ if writer then false else e.node == p
      | file ↦ false
    ]
    else false

-- The number of such descriptors in all tables.
unfoldable pub ends : (ℕ → FileDescriptor) → ℕ → Bool → ℕ
ends t p writer = count_to (λ k. owns p writer (t k)) 128

abbrev pub one_if : Bool → ℕ
one_if b = if b then 1 else 0

pub ends-update :
    (t : ℕ → FileDescriptor) (k : ℕ) (e : FileDescriptor) (p : ℕ) (w : Bool)
    → k < 128
    → ends (update t k e) p w + one_if (owns p w (t k)) ≡ ends t p w + one_if (owns p w e)
unfolding ends
ends-update t k e p w lt = rw (ap (owns p w) (update_self t k e)) at (
    count_to_change (λ j. owns p w (t j)) (λ j. owns p w (update t k e j)) 128 k lt
      (λ j ne. ap (owns p w) (sym (update_ne t k e j ne))))

pub ends_pos :
    (t : ℕ → FileDescriptor) (k p : ℕ) (w : Bool) → k < 128 → owns p w (t k) ≡ true → 0 < ends t p w
unfolding ends
ends_pos t k p w lt h = count_to_pos _ 128 k lt h

pub tables-retain : (s : State) (e : FileDescriptor) → (retain s e).tables ≡ s.tables
unfolding retain
tables-retain s e = ground arith

pub tables-release : (s : State) (e : FileDescriptor) → (release s e).tables ≡ s.tables
unfolding release
tables-release s e = ground arith

-- `retain` of an entry in use adds its end to an open pipe.
pub retain_open :
    (s : State) (e : FileDescriptor) (p : ℕ)
    → e.used ≡ true
    → is_open s.pipes p ≡ true
    → let q = (retain s e).pipes in
      (is_open q p ≡ true)
      × ((q.pipes p).writers ≡ (s.pipes.pipes p).writers + one_if (owns p true e))
      × ((q.pipes p).readers ≡ (s.pipes.pipes p).readers + one_if (owns p false e))
unfolding retain add_ref
retain_open s e p u o = ground arith

pub retain_shut :
    (s : State) (e : FileDescriptor) (p : ℕ)
    → is_open s.pipes p ≡ false
    → is_open (retain s e).pipes p ≡ false
unfolding retain add_ref
retain_shut s e p o = ground arith

-- `release` of an entry in use takes its end from an open pipe that has one, and the pipe stays
-- open as long as it has an end.
pub release_open :
    (s : State) (e : FileDescriptor) (p : ℕ)
    → e.used ≡ true
    → is_open s.pipes p ≡ true
    → 0 < (s.pipes.pipes p).writers + (s.pipes.pipes p).readers
    → let q = (release s e).pipes in
      ((q.pipes p).writers ≡ (s.pipes.pipes p).writers - one_if (owns p true e))
      × ((q.pipes p).readers ≡ (s.pipes.pipes p).readers - one_if (owns p false e))
      × (is_open q p ≡ (if (q.pipes p).writers + (q.pipes p).readers == 0 then false else true))
unfolding release close_end
release_open s e p u o some_end = ground arith

pub release_shut :
    (s : State) (e : FileDescriptor) (p : ℕ)
    → is_open s.pipes p ≡ false
    → is_open (release s e).pipes p ≡ false
unfolding release close_end
release_shut s e p o = ground arith
