-- ===== src/Signal/Tests.antt =====
-- Runs of level0b1/signal.rs, and its theorems at concrete inputs. A context is a number here.
use the_cursed_moon_kernel.Prelude.{
  ℕ, Bool, true, false, not, ◌||◌, ◌&&◌, leb, ◌==◌, if◌then◌else◌, Option, some, find_from, ◌≡◌,
  refl, arith, ltb,
}
use the_cursed_moon_kernel.Scheduler.Tasks
use the_cursed_moon_kernel.Signal.{set_handler, clone_into, reset, valid}
use the_cursed_moon_kernel.Signal.{
  State, returns, raise, enter, deliver_from, deliver_pending, sigreturn,
}
use the_cursed_moon_kernel.Signal.Deliver.{delivery, is_due, deliver_pending-delivery}
use the_cursed_moon_kernel.Signal.Return.{Raised, deliver_pending-sigreturn, raise-Raised}
use the_cursed_moon_kernel.Signal.Steps.{
  initial, no_programs, Reach, raises, handles, clones, resets, here, next,
}
use the_cursed_moon_kernel.Signal.Valid.{Programs, loaded, forked}

-- The handler's address becomes the context.
abbrev build : ℕ → ℕ → ℕ → ℕ → Option ℕ
build frame signo handler restorer = some handler

-- Task 2 has a handler for SIGUSR1, which is pending behind an ignored SIGHUP.
abbrev busy : State ℕ
busy = record (initial 0) {
  dispositions = λ t n.
      if n == 10
      then record { handler = 0x0800_0000; restorer = 0x0800_0100 }
      else if n == 1
      then record { handler = 1; restorer = 0 }
      else record { handler = 0; restorer = 0 };
  pending = λ t n. t == 2 && (n == 1 || n == 10);
}

abbrev ready_task : Tasks.Task
ready_task = record Tasks.empty { state = Tasks.ready; name = "app" }

abbrev two : Tasks.State
two = record {
  tasks = λ i. if ltb i 3 then ready_task else Tasks.empty;
  current = 1;
  task_count = 3;
  need_resched = false;
  switches = 0;
  io_waits = 0;
  preemptions = 0;
  preempt_lock = 0;
  next_free = 0x0080_0000;
  heartbeat = 0;
  suppressed_until = 0;
  kernel_stack = 0;
  loaded_space = 0;
}

entered : (deliver_pending build true 2 busy 77).2 ≡ 0x0800_0000
unfolding deliver_pending deliver_from enter find_from
entered = refl

inside : (deliver_pending build true 2 busy 77).1.in_handler 2 ≡ true
unfolding deliver_pending deliver_from enter find_from
inside = refl

deliver_pending-delivery_example : deliver_pending build true 2 busy 77 ≡ (
    if not true || leb 8 2 || busy.in_handler 2
    then (returns, busy, 77)
    else delivery build 2 77 busy (find_from (is_due build 2 77 busy) 32 0))
deliver_pending-delivery_example = deliver_pending-delivery build 2 77 true busy

deliver_pending-sigreturn_example :
    let t = (deliver_pending build true 2 busy 77).1 in
    ((sigreturn 2 t 5).0 ≡ true)
    × ((sigreturn 2 t 5).1.in_handler 2 ≡ false)
    × ((sigreturn 2 t 5).2 ≡ 77)
deliver_pending-sigreturn_example =
    deliver_pending-sigreturn build 2 77 true busy (omega arith) refl inside 5

-- The memory of one program, and of another.
abbrev low : ℕ → Bool
low a = leb 0x0800_0000 a && ltb a 0x0810_0000

abbrev high : ℕ → Bool
high a = leb 0x0900_0000 a && ltb a 0x0910_0000

abbrev started : Programs
started = loaded 2 low no_programs

abbrev caught : State ℕ
caught = (set_handler low 2 10 0x0800_0000 0x0800_0100 (reset 2 (initial 0))).1

-- A program starts, catches SIGUSR1, forks, is signalled, and another one takes its place.
run :
    Reach build no_programs
      (initial 0)
      (loaded 2 high (forked 2 3 started))
      (reset 2 (raise two 2 10 (clone_into 2 3 caught)).2)
run =
    next
      (next
        (next
          (next (next here (resets no_programs (initial 0) 2 low (omega arith)))
            (handles started (reset 2 (initial 0)) 2 10 0x0800_0000 0x0800_0100))
          (clones started caught 2 3 (omega arith) (omega arith)))
        (raises (forked 2 3 started) (clone_into 2 3 caught) two 2 10))
      (resets (forked 2 3 started) (raise two 2 10 (clone_into 2 3 caught)).2 2 high (omega arith))

child_catches :
    (clone_into 2 3 caught).dispositions 3 10
    ≡ record { handler = 0x0800_0000; restorer = 0x0800_0100 }
unfolding clone_into set_handler reset valid
child_catches = refl

raise-Raised_example : Raised two 2 9 busy (raise two 2 9 busy)
raise-Raised_example = raise-Raised two 2 9 busy
