-- ===== src/Scheduler/Wait.antt =====
-- core/scheduler.rs: sleep, the wait for input, the wait for a child and the collecting of one. A
-- wait is a loop around `yield_now`; each of its parts, what it does before the loop, the loop's
-- test and what it does after it, is a definition of its own, because other tasks run in between.
use the_cursed_moon_kernel.Prelude.{
  ℕ, ◌+◌, ◌%◌, ◌^◌, Bool, true, false, not, ◌&&◌, ◌||◌, Option, none, some, leb, ◌==◌,
  if◌then◌else◌, find_from, count_to, each,
}
use the_cursed_moon_kernel.Scheduler.Tasks.{
  State, TaskState, unused, ready, running, blocked, waiting, io_wait, set_task, is_terminated,
  is_unused, max_tasks, release_slot,
}
use the_cursed_moon_kernel.Scheduler.Select.{is_due}

-- `sleep_ticks` before its loop: the tick to wake at, and `none` where it only yields.
unfoldable pub sleep_begin : State → ℕ → ℕ → Option ℕ × State
sleep_begin s now ticks =
    let wake = (now + ticks) % 2 ^ 32 in
    if s.current == 0 || ticks == 0 then (none, s) else (
      some wake,
      set_task s s.current (record (s.tasks s.current) { wake_tick = wake; state = blocked }),
    )

-- The loop of `sleep_ticks` is left.
unfoldable pub sleep_over : ℕ → ℕ → Bool
sleep_over now wake = is_due now wake

-- After the loops of `sleep_ticks` and `wait_for_io`, by the task `current`.
unfoldable pub run_again : State → ℕ → State
run_again s current = set_task s current (record (s.tasks current) { state = running })

-- The deadline of `wait_for_io`; `none` for the idle task, which does not sleep.
unfoldable pub io_deadline : State → ℕ → ℕ → Option ℕ
io_deadline s now timeout = if s.current == 0 then none else some ((now + timeout) % 2 ^ 32)

-- The part of the loop of `wait_for_io` before its `yield_now`: the answer `armed`.
unfoldable pub io_arm : State → ℕ → Bool → Bool × State
io_arm s current is_there =
    let s1 = set_task s current (record (s.tasks current) { state = io_wait }) in
    if is_there then (false, s) else (true, record s1 { io_waits = s.io_waits + 1 })

-- The part after it: an answer where the loop is left.
unfoldable pub io_check : State → ℕ → Bool → ℕ → ℕ → Option Bool × State
io_check s current is_there now deadline =
    if is_there
    then (some true, run_again s current)
    else if is_due now deadline
    then (some false, run_again s current)
    else (none, s)

abbrev pub is_io_wait : TaskState → Bool
is_io_wait io_wait = true
is_io_wait _ = false

abbrev pub is_blocked : TaskState → Bool
is_blocked blocked = true
is_blocked _ = false

-- One round of `wake_io_waiters`, with the number of tasks woken so far.
unfoldable pub wake_io_step : ℕ → ℕ × State → ℕ × State
wake_io_step i (woken, s) =
    let t = s.tasks i in
    if is_io_wait t.state
    then (woken + 1, set_task s i (record t { state = ready }))
    else (woken, s)

unfoldable pub wake_io_waiters : State → ℕ × State
wake_io_waiters s = each s.task_count wake_io_step (0, s)

unfoldable pub sleeping_count : State → ℕ
sleeping_count s = count_to (λ i. is_blocked (s.tasks i).state) s.task_count

unfoldable pub state_of : State → ℕ → TaskState
state_of s i = if leb max_tasks i then unused else (s.tasks i).state

unfoldable pub exit_code_of : State → ℕ → ℕ
exit_code_of s i = if leb max_tasks i then 0 else (s.tasks i).exit_code

unfoldable pub set_current_exit_code : State → ℕ → State
set_current_exit_code s code =
    set_task s s.current (record (s.tasks s.current) { exit_code = code })

unfoldable pub set_current_in_user_mode : State → Bool → State
set_current_in_user_mode s flag =
    set_task s s.current (record (s.tasks s.current) { in_user_mode = flag })

unfoldable pub set_address_space : State → ℕ → ℕ → State
set_address_space s i cr3 =
    if leb max_tasks i then s else set_task s i (record (s.tasks i) { address_space = cr3 })

unfoldable pub address_space_of : State → ℕ → ℕ
address_space_of s i = if leb max_tasks i then 0 else (s.tasks i).address_space

unfoldable pub set_current_address_space : State → ℕ → State
set_current_address_space s cr3 =
    set_task s s.current (record (s.tasks s.current) { address_space = cr3 })

-- The exit code of a terminated task, whose slot is given back.
abbrev pub collect : State → ℕ → ℕ × State
collect s child = (exit_code_of s child, release_slot s child)

-- What `wait_for_task` does before its loop: it has no task to wait for, or the exit code at once, or it
-- has to sleep.
pub data Begun : Type 0 where
  no_task sleeps : Begun
  code : ℕ → Begun

unfoldable pub wait_begin : State → ℕ → Begun × State
wait_begin s child =
    let t = s.tasks s.current in
    if leb s.task_count child || child == s.current || s.current == 0
    then (no_task, s)
    else if is_unused (state_of s child)
    then (no_task, s)
    else if is_terminated (state_of s child)
    then (code (collect s child).0, (collect s child).1)
    else (sleeps, set_task s s.current (record t { wait_for = child + 1; state = waiting }))

-- One round of the loop of `wait_for_task`, after its `yield_now`.
unfoldable pub wait_check : State → ℕ → Option ℕ × State
wait_check s child =
    if is_terminated (state_of s child)
    then (some (collect s child).0, (collect s child).1)
    else (none, s)

-- A finished child of `parent`, the first of the table.
abbrev pub is_finished : State → ℕ → ℕ → Bool
is_finished s parent i =
    not (i == parent) && (s.tasks i).parent == parent && is_terminated (s.tasks i).state

unfoldable pub reap_finished_child : State → ℕ → Option (ℕ × ℕ) × State
reap_finished_child s parent = elim (find_from (is_finished s parent) s.task_count 0) [
  | some i ↦ (some (i, (collect s i).0), (collect s i).1)
  | none ↦ (none, s)
]

abbrev pub is_child : State → ℕ → ℕ → Bool
is_child s parent i =
    not (i == parent) && (s.tasks i).parent == parent && not (is_unused (s.tasks i).state)

unfoldable pub has_children : State → ℕ → Bool
has_children s i = elim (find_from (is_child s i) s.task_count 0) [ none ↦ false | some _ ↦ true ]

-- `wait_for_any` up to the loop of `wait_for_task`: the child that it is about.
unfoldable pub wait_any_begin : State → Option ℕ × Begun × State
wait_any_begin s = elim (find_from (is_finished s s.current) s.task_count 0) [
  | some i ↦ (some i, code (collect s i).0, (collect s i).1)
  | none ↦ elim (find_from (is_child s s.current) s.task_count 0) [
    | some i ↦ (some i, (wait_begin s i).0, (wait_begin s i).1)
    | none ↦ (none, no_task, s)
  ]
]

unfoldable pub user_task_count : State → ℕ
user_task_count s =
    count_to (λ i. (s.tasks i).in_user_mode && not (is_terminated (s.tasks i).state)) s.task_count
