-- ===== src/Scheduler/Select.antt =====
-- core/scheduler.rs: the timer tick, the credits, the choice of the next task and the switch to
-- it. The PIT's tick count is an argument, and so are the kernel's own address space
-- (`mmu::kernel_cr3`) and the stack pointer that `arch_context_switch` saves.
use the_cursed_moon_kernel.Prelude.{
  ℕ, ◌+◌, ◌-◌, ◌%◌, ◌^◌, Bool, true, false, not, ◌&&◌, ◌||◌, Option, none, some, ltb, leb, ◌==◌,
  if◌then◌else◌, find_from, each,
}
use the_cursed_moon_kernel.Prelude.Int.{ℤ, pos, negsuc}
use the_cursed_moon_kernel.Scheduler.Tasks.{
  Task, State, ready, running, blocked, waiting, set_task, is_ready, is_running, is_terminated,
  is_unused, slice_ticks, idle_task, max_tasks,
}

-- The running task's credit goes down; the last one asks for a switch.
unfoldable pub on_timer_tick : State → State
on_timer_tick s =
    let t = s.tasks s.current in
    let t' = record t { cpu_ticks = (t.cpu_ticks + 1) % 2 ^ 32 } in
    if ltb 1 t.credits
    then set_task s s.current (record t' { credits = t.credits - 1 })
    else record (set_task s s.current (record t' { credits = 0 })) { need_resched = true }

abbrev pub refilled : Task → Task
refilled t = record t { credits = slice_ticks t.nice }

unfoldable pub refill_step : ℕ → State → State
refill_step i s = set_task s i (refilled (s.tasks i))

unfoldable pub refill_credits : State → ℕ → State
refill_credits s count = each count refill_step s

-- `value.clamp(-20, 19)`
abbrev pub clamp_nice : ℤ → ℤ
clamp_nice (pos n) = if ltb 19 n then pos 19 else pos n
clamp_nice (negsuc n) = if ltb 19 n then negsuc 19 else negsuc n

-- `set_nice`: `none` is `Ok`, and `some` an error.
pub data NiceError : Type 0 where
  bad_index no_task : NiceError

unfoldable pub set_nice : State → ℕ → ℤ → Option NiceError × State
set_nice s index value =
    if leb max_tasks index
    then (some bad_index, s)
    else if is_unused (s.tasks index).state
    then (some no_task, s)
    else (none, set_task s index (record (s.tasks index) { nice = clamp_nice value }))

-- `now.wrapping_sub(wake) < 0x8000_0000`: the tick `wake` has come.
abbrev pub is_due : ℕ → ℕ → Bool
is_due now wake = ltb ((now + 2 ^ 32 - wake) % 2 ^ 32) 0x8000_0000

-- One round of `wake_expired`. `wait_for` is not 0 while a task waits.
unfoldable pub wake_step : ℕ → ℕ → State → State
wake_step now i s =
    let t = s.tasks i in
    elim t.state [
      | blocked ↦ if is_due now t.wake_tick then set_task s i (record t { state = ready }) else s
      | waiting ↦
          if is_terminated (s.tasks (t.wait_for - 1)).state
          then set_task s i (record t { state = ready; wait_for = 0 })
          else s
      | _ ↦ s
    ]

unfoldable pub wake_expired : State → ℕ → ℕ → State
wake_expired s now count = each count (wake_step now) s

-- What the scan of `pick_next` takes: a ready task with credits that is not the idle task.
abbrev pub is_eligible : State → ℕ → Bool
is_eligible s c =
    is_ready (s.tasks c).state && not (c == idle_task) && not ((s.tasks c).credits == 0)

-- One pass over the offsets `1..=count` from the current task.
unfoldable pub scan : State → ℕ → ℕ → Option ℕ
scan s current count = find_from (λ offset. is_eligible s ((current + offset) % count)) count 1

-- What `pick_next` does where both passes found nothing.
unfoldable pub pick_last : State → ℕ → ℕ
pick_last s current =
    let t = s.tasks current in
    let idle = (s.tasks idle_task).state in
    if not (current == idle_task) && is_running t.state && ltb 0 t.credits
    then current
    else if is_ready idle || is_running idle
    then idle_task
    else current

unfoldable pub second_pass : State → ℕ → ℕ → ℕ × State
second_pass s current count = elim (scan s current count) [
  | some offset ↦ ((current + offset) % count, s)
  | none ↦ (pick_last s current, s)
]

unfoldable pub first_pass : State → ℕ → ℕ → ℕ × State
first_pass s current count = elim (scan s current count) [
  | some offset ↦ ((current + offset) % count, s)
  | none ↦ second_pass (refill_credits s count) current count
]

unfoldable pub pick_next : State → ℕ → ℕ → ℕ × State
pick_next s now current = first_pass (wake_expired s now s.task_count) current s.task_count

abbrev pub stop_running : Task → Task
stop_running t = if is_running t.state then record t { state = ready } else t

-- A turn costs a credit too, except for the idle task.
abbrev pub pay_turn : ℕ → Task → Task
pay_turn current t = if current == idle_task then t else record t { credits = t.credits - 1 }

-- The part of `yield_now` that runs where another task was chosen, up to the switch of the stacks.
unfoldable pub switch_to : State → ℕ → ℕ → ℕ → State
switch_to s next kernel_cr3 sp =
    let s1 = set_task s s.current (pay_turn s.current (stop_running (s.tasks s.current))) in
    let s2 = if next == idle_task then refill_credits s1 s1.task_count else s1 in
    let incoming = s2.tasks next in
    let s3 = set_task s2 next (record incoming { state = running }) in
    let s4 = record s3 {
      current = next;
      switches = s.switches + 1;
      kernel_stack =
          if incoming.kernel_stack_top == 0 then s.kernel_stack else incoming.kernel_stack_top;
      loaded_space = if incoming.address_space == 0 then kernel_cr3 else incoming.address_space;
    } in
    set_task s4 s.current (record (s4.tasks s.current) { stack_pointer = sp })

-- `pit::beat`: the heartbeat counts, unless it is suppressed until a later tick. The copy of the
-- heartbeat in the shared area of Ipc is left out.
unfoldable pub beat : ℕ → State → State
beat now s =
    if not (s.suppressed_until == 0) && ltb now s.suppressed_until
    then s
    else record s { heartbeat = (s.heartbeat + 1) % 2 ^ 32; suppressed_until = 0 }

-- `yield_now` from the side of the task that calls it, up to the switch of the stacks.
unfoldable pub yield_now : State → ℕ → ℕ → ℕ → State
yield_now s now kernel_cr3 sp =
    let s1 = beat now (record s { need_resched = false }) in
    let (next, s2) = pick_next s1 now s1.current in
    if next == s1.current then s2 else switch_to s2 next kernel_cr3 sp

unfoldable pub preempt_disable : State → State
preempt_disable s = record s { preempt_lock = s.preempt_lock + 1 }

-- `fetch_sub(1)`, in words of `word` values.
unfoldable pub preempt_enable : ℕ → State → State
preempt_enable word s = record s { preempt_lock = (s.preempt_lock + word - 1) % word }

unfoldable pub preempt_from_timer : State → ℕ → ℕ → ℕ → State
preempt_from_timer s now kernel_cr3 sp =
    if ltb s.task_count 2
    then s
    else if not (s.preempt_lock == 0)
    then s
    else if not s.need_resched
    then s
    else yield_now (record s { preemptions = s.preemptions + 1 }) now kernel_cr3 sp
