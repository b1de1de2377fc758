-- ===== src/Scheduler/Spawn.antt =====
-- core/scheduler.rs: the birth of a task, the end of one, and the cleaning up of the slots. What
-- `bootstrap_stack` writes below the top of a fresh stack is a parameter, the stack pointer that it
-- returns.
use Prim.Native.String.{String}
use the_cursed_moon_kernel.Prelude.{
  ℕ, ◌+◌, Bool, true, false, not, ◌&&◌, ◌||◌, Option, none, some, ltb, leb, ◌==◌, if◌then◌else◌,
  find_from, each,
}
use the_cursed_moon_kernel.Prelude.Int.{pos}
use the_cursed_moon_kernel.Kmalloc.{kmalloc_aligned}
use the_cursed_moon_kernel.Scheduler.Tasks.{
  Task, State, ready, terminated, set_task, is_terminated, is_unused, slice_ticks, max_tasks,
  task_stack_size, release_slot,
}

-- The fields that `spawn_inner` writes.
abbrev pub born : Task → String → ℕ → ℕ → ℕ → ℕ → Bool → Task
born t name stack_top kstack_top sp parent waitable = record t {
  nice = pos 0;
  credits = slice_ticks (pos 0);
  cpu_ticks = 0;
  state = ready;
  stack_pointer = sp;
  stack_top = stack_top;
  name = name;
  kernel_stack_top = kstack_top;
  user_resume = 0;
  in_user_mode = false;
  address_space = 0;
  wake_tick = 0;
  wait_for = 0;
  exit_code = 0;
  parent = parent;
  waitable = waitable;
}

-- The slot of a new task: the first unused one, or else the next one of the table.
unfoldable pub new_slot : State → Option (ℕ × State)
new_slot s = elim (find_from (λ i. is_unused (s.tasks i).state) s.task_count 0) [
  | some i ↦ some (i, s)
  | none ↦
      if leb max_tasks s.task_count
      then none
      else some (s.task_count, record s { task_count = s.task_count + 1 })
]

-- The tops of a slot's two stacks: the ones the slot has, or two new ones of the heap. A first
-- stack stays taken where the second one fails.
unfoldable pub new_stacks : ℕ → State → ℕ → Option (ℕ × ℕ) × State
new_stacks word s i =
    let t = s.tasks i in
    let (stack, free) = kmalloc_aligned word s.next_free task_stack_size 16 in
    let (kstack, free') = kmalloc_aligned word free task_stack_size 16 in
    if not (t.stack_top == 0) then (some (t.stack_top, t.kernel_stack_top), s) else elim stack [
      | none ↦ (none, record s { next_free = free })
      | some a ↦ elim kstack [
        | none ↦ (none, record s { next_free = free' })
        | some b ↦ (some (a + task_stack_size, b + task_stack_size), record s { next_free = free' })
      ]
    ]

-- The end of `spawn_inner`, where the slot has its stacks.
unfoldable pub fill_slot : (ℕ → ℕ) → ℕ → String → Bool → Option (ℕ × ℕ) × State → Option ℕ × State
fill_slot bootstrap_stack i name waitable (none, s) = (none, s)
fill_slot bootstrap_stack i name waitable (some (top, ktop), s) =
    (some i, set_task s i (born (s.tasks i) name top ktop (bootstrap_stack top) s.current waitable))

unfoldable pub spawn_inner : ℕ → (ℕ → ℕ) → State → String → Bool → Option ℕ × State
spawn_inner word bootstrap_stack s name waitable = elim (new_slot s) [
  | none ↦ (none, s)
  | some slot ↦ fill_slot bootstrap_stack slot.0 name waitable (new_stacks word slot.1 slot.0)
]

unfoldable pub spawn : ℕ → (ℕ → ℕ) → State → String → Option ℕ × State
spawn word bootstrap_stack s name = spawn_inner word bootstrap_stack s name false

unfoldable pub spawn_child : ℕ → (ℕ → ℕ) → State → String → Option ℕ × State
spawn_child word bootstrap_stack s name = spawn_inner word bootstrap_stack s name true

-- The parent that could still collect a task.
abbrev pub parent_alive : State → ℕ → ℕ → Bool
parent_alive s count p =
    ltb p count && not (is_unused (s.tasks p).state) && not (is_terminated (s.tasks p).state)

unfoldable pub reap_step : ℕ → ℕ → State → State
reap_step count i s =
    let t = s.tasks i in
    if not (is_terminated t.state) || not t.waitable
    then s
    else if parent_alive s count t.parent
    then s
    else release_slot s i

unfoldable pub reap_orphans : State → State
reap_orphans s = each s.task_count (reap_step s.task_count) s

-- The two ends of a task: `terminated`, or an unused slot where nobody is to collect it.
abbrev pub ended : State → ℕ → Task → State
ended s i t =
    let s1 = set_task s i (record t { state = terminated }) in
    if t.waitable then s1 else release_slot s1 i

-- What `terminate_current` does to the table before it yields for ever. The descriptors that it
-- closes first are those of the Fd module.
unfoldable pub terminate_current : State → State
terminate_current s = reap_orphans (ended s s.current (s.tasks s.current))

-- The outcome of `terminate`: the address space to destroy, 0 for none.
pub data TerminateError : Type 0 where
  is_idle bad_number is_current no_such already_done : TerminateError

pub data Terminate : Type 0 where
  ok : ℕ → Terminate
  err : TerminateError → Terminate

-- The change of the table. Its windows and descriptors (`fd::close_all`, the `close_all` of Fd) are
-- closed and the address space is destroyed behind it, which touches no field of the table.
unfoldable pub terminate : State → ℕ → Terminate × State
terminate s i =
    let t = s.tasks i in
    if i == 0
    then (err is_idle, s)
    else if leb max_tasks i
    then (err bad_number, s)
    else if i == s.current
    then (err is_current, s)
    else if is_unused t.state
    then (err no_such, s)
    else if is_terminated t.state
    then (err already_done, s)
    else (ok t.address_space, ended s i (record t { address_space = 0 }))
