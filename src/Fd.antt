-- ===== src/Fd.antt =====
-- kernel/src/level0a/core/fd.rs: the descriptor tables, one of 16 slots for each of the 8 tasks.
-- The static array TABLES is a function of the flat index that `table_of(task).add(fd)` points
-- to. The running task (`scheduler::current_id`) is the argument `task`. The pipes, whose
-- counters the descriptors own, are part of the state.
mod Count
pub mod Slots
pub mod Balance
pub mod Tasks
pub mod Create
pub mod Lookup
mod Tests
use the_cursed_moon_kernel.Prelude.{
  ℕ, zero, suc, ◌+◌, ◌-◌, ◌*◌, Bool, true, false, not, ◌&&◌, Option, none, some, leb, ◌==◌,
  if◌then◌else◌, update, find_from, count_to,
}
use the_cursed_moon_kernel.Pipe
use the_cursed_moon_kernel.Pipe.{add_ref, close_end}

abbrev pub max_tasks : ℕ
max_tasks = 8

abbrev pub max_fds : ℕ
max_fds = 16

abbrev pub first_free_fd : ℕ
first_free_fd = 3

pub data FdKind : Type 0 where
  file pipe_read pipe_write : FdKind

pub record FileDescriptor : Type 0 where
  pub used : Bool
  pub kind : FdKind
  pub node : ℕ
  pub offset : ℕ

-- `FileDescriptor::empty`
abbrev pub empty : FileDescriptor
empty = record { used = false; kind = file; node = 0; offset = 0 }

pub record State : Type 0 where
  pub tables : ℕ → FileDescriptor
  pub pipes : Pipe.State

-- `table_of(task).add(fd)`
abbrev pub slot : ℕ → ℕ → ℕ
slot task fd = task * max_fds + fd

abbrev pub entry_at : State → ℕ → ℕ → FileDescriptor
entry_at s task fd = s.tables (slot task fd)

-- One write through the table's pointer.
abbrev pub put : State → ℕ → FileDescriptor → State
put s k e = record s { tables = update s.tables k e }

unfoldable pub retain : State → FileDescriptor → State
retain s e = elim e.kind [
  | pipe_read ↦ record s { pipes = add_ref s.pipes e.node false }
  | pipe_write ↦ record s { pipes = add_ref s.pipes e.node true }
  | file ↦ s
]

unfoldable pub release : State → FileDescriptor → State
release s e = elim e.kind [
  | pipe_read ↦ record s { pipes = close_end s.pipes e.node false }
  | pipe_write ↦ record s { pipes = close_end s.pipes e.node true }
  | file ↦ s
]

-- The loop of `init` over the slots of all tables.
init_loop : ℕ → State → State
init_loop zero s = s
init_loop (suc n) s = put (init_loop n s) n empty

unfoldable pub init : State → State
unfolding init_loop
init s = init_loop (max_tasks * max_fds) s

-- One round of the loop of `clone_into`: the entry goes to the child, and is retained.
unfoldable pub clone_step : ℕ → ℕ → ℕ → State → State
clone_step task child fd s =
    let entry = entry_at s task fd in
    let s' = put s (slot child fd) entry in if entry.used then retain s' entry else s'

unfoldable pub clone_loop : ℕ → ℕ → ℕ → State → State
clone_loop task child zero s = s
clone_loop task child (suc n) s = clone_step task child n (clone_loop task child n s)

unfoldable pub clone_into : State → ℕ → ℕ → State
clone_into s task child = if leb max_tasks child then s else clone_loop task child max_fds s

-- One round of the loop of `close_all`.
unfoldable pub close_step : ℕ → ℕ → State → State
close_step task fd s =
    let entry = entry_at s task fd in
    if not entry.used then s else put (release s entry) (slot task fd) empty

unfoldable pub close_loop : ℕ → ℕ → State → State
close_loop task zero s = s
close_loop task (suc n) s = close_step task n (close_loop task n s)

unfoldable pub close_all : State → ℕ → State
close_all s task = if leb max_tasks task then s else close_loop task max_fds s

-- The scan `for fd in FIRST_FREE_FD..MAX_FDS` of `allocate`, `allocate_pipe` and `dup`.
unfoldable pub first_free : State → ℕ → Option ℕ
first_free s task =
    find_from (λ fd. not (entry_at s task fd).used) (max_fds - first_free_fd) first_free_fd

unfoldable pub allocate : State → ℕ → ℕ → Option ℕ × State
allocate s task node = elim (first_free s task) [
  | none ↦ (none, s)
  | some fd ↦
      (some fd, put s (slot task fd) (record { used = true; kind = file; node = node; offset = 0 }))
]

unfoldable pub get : State → ℕ → ℕ → Option FileDescriptor
get s task fd =
    if leb max_fds fd
    then none
    else let entry = entry_at s task fd in if entry.used then some entry else none

unfoldable pub allocate_pipe : State → ℕ → ℕ → FdKind → Option ℕ × State
allocate_pipe s task pipe kind = elim (first_free s task) [
  | none ↦ (none, s)
  | some fd ↦
      (some fd, put s (slot task fd) (record { used = true; kind = kind; node = pipe; offset = 0 }))
]

unfoldable pub dup : State → ℕ → ℕ → Option ℕ × State
dup s task oldfd =
    let entry = entry_at s task oldfd in
    if leb max_fds oldfd
    then (none, s)
    else if not entry.used
    then (none, s)
    else elim (first_free s task) [
      | none ↦ (none, s)
      | some fd ↦ (some fd, retain (put s (slot task fd) entry) entry)
    ]

unfoldable pub dup2 : State → ℕ → ℕ → ℕ → Option ℕ × State
dup2 s task oldfd newfd =
    let entry = entry_at s task oldfd in
    let previous = entry_at s task newfd in
    let s' = if previous.used then release s previous else s in
    if leb max_fds oldfd
    then (none, s)
    else if leb max_fds newfd
    then (none, s)
    else if not entry.used
    then (none, s)
    else if oldfd == newfd
    then (some newfd, s)
    else (some newfd, retain (put s' (slot task newfd) entry) entry)

unfoldable pub advance : State → ℕ → ℕ → ℕ → State
advance s task fd delta =
    let entry = entry_at s task fd in
    if leb max_fds fd
    then s
    else if entry.used
    then put s (slot task fd) (record entry { offset = entry.offset + delta })
    else s

unfoldable pub close : State → ℕ → ℕ → Bool × State
close s task fd =
    let entry = entry_at s task fd in
    if leb max_fds fd
    then (false, s)
    else if not entry.used
    then (false, s)
    else (true, put (release s entry) (slot task fd) empty)

unfoldable pub open_count : State → ℕ → ℕ
open_count s task = count_to (λ fd. (entry_at s task fd).used) max_fds

-- `kernel_api::create_pipe`, in three parts by what was allocated last. Where the table has no
-- room the steps taken so far are undone.
unfoldable pub after_writer : ℕ → ℕ → ℕ → Option ℕ × State → Option (ℕ × ℕ) × State
after_writer task index read_fd (none, s) =
    let s' = (close s task read_fd).1 in (none, record s' { pipes = close_end s'.pipes index true })
after_writer task index read_fd (some write_fd, s) = (some (read_fd, write_fd), s)

unfoldable pub after_reader : ℕ → ℕ → Option ℕ × State → Option (ℕ × ℕ) × State
after_reader task index (none, s) =
    (none, record s { pipes = close_end (close_end s.pipes index false) index true })
after_reader task index (some read_fd, s) =
    after_writer task index read_fd (allocate_pipe s task index pipe_write)

unfoldable pub create_pipe : State → ℕ → Option (ℕ × ℕ) × State
create_pipe s task =
    let (made, pipes) = Pipe.create s.pipes in
    let s' = record s { pipes = pipes } in
    elim made [
      | none ↦ (none, s')
      | some index ↦ after_reader task index (allocate_pipe s' task index pipe_read)
    ]
