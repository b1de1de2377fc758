-- ===== src/Scheduler/Tasks.antt =====
-- core/scheduler.rs: the task table, the constants, and the operations on one slot.
use Prim.Native.String.{String}
use the_cursed_moon_kernel.Prelude.{ℕ, ◌*◌, Bool, true, false, leb, if◌then◌else◌, update}
use the_cursed_moon_kernel.Prelude.Int.{ℤ, pos, negsuc}

abbrev pub max_tasks : ℕ
max_tasks = 8

abbrev pub idle_task : ℕ
idle_task = 0

abbrev pub task_stack_size : ℕ
task_stack_size = 16 * 1024

pub data TaskState : Type 0 where
  unused ready running blocked waiting io_wait terminated : TaskState

pub record Task : Type 0 where
  pub state : TaskState
  pub stack_pointer : ℕ
  pub name : String
  pub kernel_stack_top : ℕ
  pub user_resume : ℕ
  pub in_user_mode : Bool
  pub address_space : ℕ
  pub wake_tick : ℕ
  pub wait_for : ℕ
  pub exit_code : ℕ
  pub nice : ℤ
  pub credits : ℕ
  pub parent : ℕ
  pub waitable : Bool
  pub stack_top : ℕ
  pub cpu_ticks : ℕ

-- `Task::empty`
abbrev pub empty : Task
empty = record {
  state = unused;
  stack_pointer = 0;
  name = "";
  kernel_stack_top = 0;
  user_resume = 0;
  in_user_mode = false;
  address_space = 0;
  wake_tick = 0;
  wait_for = 0;
  exit_code = 0;
  nice = pos 0;
  credits = 0;
  parent = 0;
  waitable = false;
  stack_top = 0;
  cpu_ticks = 0;
}

-- The statics of the module, and what its operations set elsewhere: NEXT_FREE of `kmalloc`, the
-- heartbeat and its suppression of `pit`, and the kernel stack and address space that the processor uses.
pub record State : Type 0 where
  pub tasks : ℕ → Task
  pub current : ℕ
  pub task_count : ℕ
  pub need_resched : Bool
  pub switches : ℕ
  pub io_waits : ℕ
  pub preemptions : ℕ
  pub preempt_lock : ℕ
  pub next_free : ℕ
  pub heartbeat : ℕ
  pub suppressed_until : ℕ
  pub kernel_stack : ℕ
  pub loaded_space : ℕ

abbrev pub set_task : State → ℕ → Task → State
set_task s i t = record s { tasks = update s.tasks i t }

abbrev pub is_unused : TaskState → Bool
is_unused unused = true
is_unused _ = false

abbrev pub is_ready : TaskState → Bool
is_ready ready = true
is_ready _ = false

abbrev pub is_running : TaskState → Bool
is_running running = true
is_running _ = false

abbrev pub is_terminated : TaskState → Bool
is_terminated terminated = true
is_terminated _ = false

-- The ticks of one period for a `nice` value; `negsuc n` is -(n + 1).
unfoldable pub slice_ticks : ℤ → ℕ
slice_ticks (negsuc n) = if leb 9 n then 8 else 4
slice_ticks (pos n) = if leb n 4 then 2 else 1

-- `init`: the running flow becomes task 0.
unfoldable pub init : State → State
init s =
    let t = record (s.tasks 0) { state = running; name = "idle" } in
    record (set_task s 0 t) { current = 0; task_count = 1 }

-- `release_slot`: the stacks stay in the slot for the next `spawn`.
abbrev pub released : Task → Task
released t = record t { state = unused; waitable = false; wait_for = 0; credits = 0; name = "" }

unfoldable pub release_slot : State → ℕ → State
release_slot s i = set_task s i (released (s.tasks i))
