-- ===== src/Balancer.antt =====
-- kernel/src/level0b2/load_balancer.rs: the count of system calls per channel and per task, the
-- quota of a task, and the window that the timer rolls. The counters are 32-bit words. The time
-- that a posted message carries (`level0a::pit::ticks`) is an argument.
pub mod Quota
pub mod Window
mod Tests
use Prim.Native.Nat.{bit_and, bit_or}
use the_cursed_moon_kernel.Prelude.{
  ℕ, ◌+◌, ◌-◌, ◌%◌, ◌^◌, max, Bool, true, false, not, ◌||◌, ltb, leb, ◌==◌, if◌then◌else◌, update,
  each,
}
use the_cursed_moon_kernel.Ipc
use the_cursed_moon_kernel.Ipc.{post, throttled, count_up}

pub data Channel : Type 0 where
  posix_file posix_mem gui nt exception : Channel

-- `channel as usize`
abbrev pub index_of : Channel → ℕ
index_of posix_file = 0
index_of posix_mem = 1
index_of gui = 2
index_of nt = 3
index_of exception = 4

abbrev pub channels : ℕ
channels = 5

abbrev pub max_tasks : ℕ
max_tasks = 8

abbrev pub window_ticks : ℕ
window_ticks = 100

abbrev pub task_quota : ℕ
task_quota = 4000

abbrev pub channel_saturation : ℕ
channel_saturation = 8000

abbrev pub report_every : ℕ
report_every = 5

pub record State : Type 0 where
  pub total : ℕ → ℕ
  pub window : ℕ → ℕ
  pub rate : ℕ → ℕ
  pub peak : ℕ → ℕ
  pub task_total : ℕ → ℕ
  pub task_window : ℕ → ℕ
  pub task_rate : ℕ → ℕ
  pub task_throttles : ℕ → ℕ
  pub task_last_report : ℕ → ℕ
  pub window_start : ℕ
  pub windows_rolled : ℕ
  pub throttles : ℕ
  pub saturated : ℕ
  pub busiest_task : ℕ
  pub queue : Ipc.State

pub data Verdict : Type 0 where
  pass throttle : Verdict

abbrev pub bump : (ℕ → ℕ) → ℕ → ℕ → ℕ
bump counters i = update counters i (count_up (counters i))

-- The report of a quota that was just passed.
unfoldable pub report : ℕ → ℕ → ℕ → ℕ → State → State
report pit task in_window hits s =
    let window = s.windows_rolled in
    let last = s.task_last_report task in
    if last == 0 || leb report_every ((window + 2 ^ 32 - last) % 2 ^ 32)
    then record s {
      task_last_report = update s.task_last_report task (max window 1);
      queue =
          (post s.queue pit throttled task in_window hits
            "gorev cagri kotasini asti, CPU birakmaya zorlandi").1;
    }
    else s

-- What `note_call` does for a task that has passed its quota.
unfoldable pub over_quota : ℕ → ℕ → ℕ → State → State
over_quota pit task in_window s =
    let s1 = record s {
      throttles = count_up s.throttles;
      task_throttles = bump s.task_throttles task;
    } in
    if in_window == task_quota + 1
    then report pit task in_window (s1.task_throttles task) s1
    else s1

unfoldable pub note_call : ℕ → Channel → ℕ → State → Verdict × State
note_call pit channel task s =
    let i = index_of channel in
    let s1 = record s { total = bump s.total i; window = bump s.window i } in
    let s2 = record s1 {
      task_total = bump s.task_total task;
      task_window = bump s.task_window task;
    } in
    let in_window = s2.task_window task in
    if leb max_tasks task
    then (pass, s1)
    else if leb in_window task_quota
    then (pass, s2)
    else (throttle, over_quota pit task in_window s2)

-- One round of the loop of `on_tick` over the channels, with the mask so far.
unfoldable pub roll_channel : ℕ → ℕ × State → ℕ × State
roll_channel i (mask, s) =
    let count = s.window i in
    (
      if leb channel_saturation count then bit_or mask (2 ^ i) else mask,
      record s {
        window = update s.window i 0;
        rate = update s.rate i count;
        peak = update s.peak i (max (s.peak i) count);
      },
    )

-- One round of its loop over the tasks, with the busiest task so far and its rate.
unfoldable pub roll_task : ℕ → (ℕ × ℕ) × State → (ℕ × ℕ) × State
roll_task t ((busiest, busiest_rate), s) =
    let count = s.task_window t in
    (
      if ltb busiest_rate count then (t, count) else (busiest, busiest_rate),
      record s { task_window = update s.task_window t 0; task_rate = update s.task_rate t count },
    )

unfoldable pub roll_tasks : State → State
roll_tasks s = let r = each max_tasks roll_task ((0, 0), s) in record r.1 { busiest_task = r.0.0 }

unfoldable pub roll_channels : State → State
roll_channels s = let r = each channels roll_channel (0, s) in record r.1 { saturated = r.0 }

unfoldable pub on_tick : ℕ → State → State
on_tick ticks s =
    if ltb ((ticks + 2 ^ 32 - s.window_start) % 2 ^ 32) window_ticks
    then s
    else roll_tasks (
        roll_channels
          (record s { window_start = ticks; windows_rolled = count_up s.windows_rolled }))

unfoldable pub is_saturated : State → ℕ → Bool
is_saturated s channel = not (bit_and s.saturated (2 ^ channel) == 0)

unfoldable pub any_saturated : State → Bool
any_saturated s = not (s.saturated == 0)

-- The sum of the `u32` totals.
unfoldable pub call_count : State → ℕ
call_count s = each channels (λ i sum. (sum + s.total i) % 2 ^ 32) 0
