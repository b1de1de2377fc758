-- ===== src/Scheduler/Tests.antt =====
-- Runs of core/scheduler.rs on a table of four tasks: the idle task, a running one, a ready one,
-- and one that waits for the ready one.

use the_cursed_moon_kernel.Prelude.{
  ℕ, ◌<◌, ◌⊎◌, find_from, zero, suc, ◌+◌, ◌^◌, ◌≡◌, ◌≤◌, refl, true, false, none, arith, ltb,
  if◌then◌else◌,
}
use the_cursed_moon_kernel.Scheduler.Tasks.{
  Task, State, empty, ready, running, waiting, is_running, is_unused,
}
use the_cursed_moon_kernel.Scheduler.Select.{wake_expired, pick_next, yield_now}
use the_cursed_moon_kernel.Scheduler.Spawn.{spawn_inner, new_slot, terminate}
use the_cursed_moon_kernel.Scheduler.Wait.{wait_check}
use the_cursed_moon_kernel.Scheduler.Wake.{woken, wake_expired_lem}
use the_cursed_moon_kernel.Scheduler.Choice.{Chosen, pick_next-Chosen}
use the_cursed_moon_kernel.Scheduler.Switch.{IsValid, yield_now-IsValid}
use the_cursed_moon_kernel.Kmalloc.{heap_end}
use the_cursed_moon_kernel.Scheduler.Failures.{spawn_inner_fails}
use the_cursed_moon_kernel.Scheduler.Births.{Spawned, spawn_inner-Spawned}
use the_cursed_moon_kernel.Scheduler.Ends.{Terminated, terminate-Terminated, waiter_lem}

abbrev task_at : ℕ → Task
task_at zero = record empty { state = ready; name = "idle" }
task_at (suc zero) = record empty {
  state = running;
  credits = 2;
  name = "desktop";
  stack_top = 0x0051_0000;
}
task_at (suc (suc zero)) = record empty { state = ready; credits = 1; name = "app" }
task_at (suc (suc (suc zero))) = record empty { state = waiting; wait_for = 3; name = "shell" }
task_at _ = empty

abbrev four : State
four = record {
  tasks = task_at;
  current = 1;
  task_count = 4;
  need_resched = true;
  switches = 0;
  io_waits = 0;
  preemptions = 0;
  preempt_lock = 0;
  next_free = 0x0080_0000;
  heartbeat = 0;
  suppressed_until = 0;
  kernel_stack = 0;
  loaded_space = 0;
}

four-only : (i : ℕ) → is_running (task_at i).state ≡ true → i ≡ 1
four-only zero h = cc
four-only (suc zero) h = refl
four-only (suc (suc zero)) h = cc
four-only (suc (suc (suc zero))) h = cc
four-only (suc (suc (suc (suc i)))) h = cc

four-credits : (i : ℕ) → (task_at i).credits ≤ 8
four-credits zero = omega arith
four-credits (suc zero) = omega arith
four-credits (suc (suc zero)) = omega arith
four-credits (suc (suc (suc zero))) = omega arith
four-credits (suc (suc (suc (suc i)))) = omega arith

four-IsValid : IsValid four
four-IsValid = record {
  count_in = omega arith;
  current_in = omega arith;
  only = four-only;
  credits_in = four-credits;
}

yield_now-IsValid_example : IsValid (yield_now four 500 0x1000 0x0051_0000)
yield_now-IsValid_example = yield_now-IsValid 500 0x1000 0x0051_0000 four-IsValid

pick_next-Chosen_example : Chosen 1 4 (pick_next four 500 1)
pick_next-Chosen_example = pick_next-Chosen four 500 1 (omega arith)

wake_expired_lem_example :
    ((i : ℕ)
      → (wake_expired four 500 4).tasks i
        ≡ (if ltb i 4 then woken task_at 500 (task_at i) else task_at i))
    × (wake_expired four 500 4 ≡ record four { tasks = (wake_expired four 500 4).tasks })
wake_expired_lem_example = wake_expired_lem four 500 4

spawn_inner-Spawned_example :
    Spawned four "race" true (spawn_inner (2 ^ 32) (λ top. top) four "race" true)
spawn_inner-Spawned_example =
    spawn_inner-Spawned (2 ^ 32) (λ top. top) four "race" true (omega arith)

terminate-Terminated_example : Terminated four 2 (terminate four 2)
terminate-Terminated_example = terminate-Terminated four 2

-- The shell waits for task 2, which nobody can collect.
waiter_lem_example :
    (((wake_expired (terminate four 2).1 500 4).tasks 3).state ≡ waiting)
    × (false ≡ false → (wait_check (terminate four 2).1 2).0 ≡ none)
unfolding terminate
waiter_lem_example = waiter_lem four 3 2 500 4 refl refl (omega arith) (omega arith) refl

-- A full table.
abbrev full : State
full = record four { tasks = λ _. task_at 1; task_count = 8 }

full_fails : (spawn_inner (2 ^ 32) (λ top. top) full "race" true).0 ≡ none
unfolding spawn_inner new_slot find_from
full_fails = refl

spawn_inner_fails_example :
    ((8 ≤ 8) × ((i : ℕ) → i < 8 → is_unused (full.tasks i).state ≡ false))
    ⊎ (heap_end < 0x0080_0000 + 32800)
spawn_inner_fails_example =
    spawn_inner_fails (2 ^ 32) (λ top. top) full "race" true (omega arith) (omega arith)
      (omega arith) full_fails
