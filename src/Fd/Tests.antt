-- ===== src/Fd/Tests.antt =====
-- Runs of core/fd.rs on a table of one task with both ends of a pipe.
use the_cursed_moon_kernel.Prelude.{
  ℕ, ◌≡◌, ◌<◌, ◌≤◌, ◌⊎◌, refl, Bool, true, false, some, count_to_none, find_from, arith,
}
use the_cursed_moon_kernel.Pipe
use the_cursed_moon_kernel.Fd.{
  State, empty, slot, entry_at, close_all, clone_into, first_free, allocate_pipe, dup2, close,
  create_pipe, after_reader, after_writer,
}
use the_cursed_moon_kernel.Fd.Count.{ends}
use the_cursed_moon_kernel.Fd.Slots.{IsBalanced}
use the_cursed_moon_kernel.Fd.Balance.{dup2-IsBalanced}
use the_cursed_moon_kernel.Fd.Create.{create_pipe-IsBalanced}
use the_cursed_moon_kernel.Fd.Tasks.{close_all_lem, clone_into_lem}

abbrev blank : State
blank = record { tables = λ _. empty; pipes = record { pipes = λ _. Pipe.new; buffers = λ _. 0 } }

no_ends : (p : ℕ) (w : Bool) → ends blank.tables p w ≡ 0
unfolding ends
no_ends p w = count_to_none _ 128 (λ j lt. refl)

blank-Balanced : IsBalanced blank
blank-Balanced p = record {
  writers = λ o. absurd (ground arith);
  readers = λ o. absurd (ground arith);
  alive = λ o. absurd (ground arith);
  dead = λ c. omega (arith, no_ends p true, no_ends p false);
}

-- Task 1 has made a pipe: its descriptors 3 and 4.
abbrev piped : State
piped = (create_pipe blank 1).1

piped-Balanced : IsBalanced piped
piped-Balanced = create_pipe-IsBalanced 1 (omega arith) blank-Balanced

create_pipe_run : (create_pipe blank 1).0 ≡ some (3, 4)
unfolding create_pipe Pipe.create find_from after_reader after_writer allocate_pipe first_free
create_pipe_run = refl

create_pipe-IsBalanced_example : IsBalanced (create_pipe blank 1).1
create_pipe-IsBalanced_example = create_pipe-IsBalanced 1 (omega arith) blank-Balanced

others_free : (fd : ℕ) → fd < 16 → (entry_at piped 2 fd).used ≡ false
unfolding create_pipe Pipe.create find_from after_reader after_writer allocate_pipe first_free
others_free fd lt = ground arith

piped_used : (entry_at piped 1 4).used ≡ true
unfolding create_pipe Pipe.create find_from after_reader after_writer allocate_pipe first_free
piped_used = refl

closes : (close piped 1 4).0 ≡ true
unfolding close create_pipe Pipe.create find_from after_reader after_writer allocate_pipe first_free
closes = refl

clone_into_lem_example :
    IsBalanced (clone_into piped 1 2)
    × ((fd : ℕ) → fd < 16 → entry_at (clone_into piped 1 2) 2 fd ≡ entry_at piped 1 fd)
    × ((k : ℕ)
        → (k < slot 2 0) ⊎ (slot 2 16 ≤ k)
        → (clone_into piped 1 2).tables k ≡ piped.tables k)
clone_into_lem_example =
    clone_into_lem 1 2 (omega arith) (omega arith) (omega arith) piped-Balanced others_free

close_all_lem_example :
    IsBalanced (close_all piped 1)
    × ((fd : ℕ) → fd < 16 → (entry_at (close_all piped 1) 1 fd).used ≡ false)
    × ((k : ℕ) → (k < slot 1 0) ⊎ (slot 1 16 ≤ k) → (close_all piped 1).tables k ≡ piped.tables k)
close_all_lem_example = close_all_lem 1 (omega arith) piped-Balanced

dup2-IsBalanced_example : IsBalanced (dup2 piped 1 4 3).1
dup2-IsBalanced_example = dup2-IsBalanced 1 4 3 (omega arith) piped-Balanced
