-- ===== src/Scheduler/Orphans.antt =====
-- The cleaning up of core/scheduler.rs: what `reap_orphans` leaves in the table.
use the_cursed_moon_kernel.Prelude.{ℕ, ◌≤◌, ◌<◌, ◌≡◌, Bool, not, ◌&&◌, if◌then◌else◌}
use the_cursed_moon_kernel.Scheduler.Tasks.{State, is_terminated, released}
use the_cursed_moon_kernel.Scheduler.Spawn.{parent_alive}
use the_cursed_moon_kernel.Scheduler.Ends.{is_gone}

-- The slot holds a task that nobody can collect any more.
abbrev pub is_orphan : State → ℕ → Bool
is_orphan s i =
    is_terminated (s.tasks i).state
    && (s.tasks i).waitable
    && not (parent_alive s s.task_count (s.tasks i).parent)

-- The table after the first `k` rounds.
record Reaped (s : State) (k : ℕ) (r : State) : Type 0 where
  rest : r ≡ record s { tasks = r.tasks }
  seen : (i : ℕ) → i < k → r.tasks i ≡ (if is_orphan s i then released (s.tasks i) else s.tasks i)
  ahead : (i : ℕ) → k ≤ i → r.tasks i ≡ s.tasks i
  gone : (i : ℕ) → is_gone (r.tasks i).state ≡ is_gone (s.tasks i).state
