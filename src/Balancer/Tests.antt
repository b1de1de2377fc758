-- ===== src/Balancer/Tests.antt =====
-- Runs of level0b2/load_balancer.rs with a task at its quota.
use the_cursed_moon_kernel.Prelude.{◌==◌, if◌then◌else◌}
use the_cursed_moon_kernel.Ipc.{initial}
use the_cursed_moon_kernel.Balancer.{State}

abbrev busy : State
busy = record {
  total = λ _. 0;
  window = λ _. 4000;
  rate = λ _. 0;
  peak = λ _. 0;
  task_total = λ _. 0;
  task_window = λ t. if t == 3 then 4000 else 2;
  task_rate = λ _. 0;
  task_throttles = λ _. 0;
  task_last_report = λ _. 0;
  window_start = 0;
  windows_rolled = 0;
  throttles = 0;
  saturated = 0;
  busiest_task = 0;
  queue = initial;
}
