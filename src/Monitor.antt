-- ===== src/Monitor.antt =====
-- kernel/src/level0b2/state_monitor.rs: the watch over Level-0a's heartbeat, with the two messages
-- that kernel/src/level0b2/fallback.rs posts when the watch gives up and when it recovers. The
-- heartbeat and the ticks of the shared area are arguments of `tick`, and so is the time that a
-- posted message carries (`level0a::pit::ticks`). The console texts are not modelled.
pub mod Watch
mod Tests
use the_cursed_moon_kernel.Prelude.{
  ℕ, ◌+◌, ◌-◌, ◌/◌, ◌%◌, ◌^◌, Bool, true, false, not, ◌&&◌, ltb, leb, ◌==◌, if◌then◌else◌,
}
use the_cursed_moon_kernel.Ipc
use the_cursed_moon_kernel.Ipc.{post, health_change, count_up}

abbrev pub dead_threshold_ticks : ℕ
dead_threshold_ticks = 300

abbrev pub busy_threshold_ticks : ℕ
busy_threshold_ticks = dead_threshold_ticks / 2

pub data Level0aHealth : Type 0 where
  healthy busy dead : Level0aHealth

pub record State : Type 0 where
  pub last_heartbeat : ℕ
  pub last_beat_tick : ℕ
  pub fallback_active : Bool
  pub last_reported : ℕ
  pub dead_events : ℕ
  pub recoveries : ℕ
  pub last_stall : ℕ
  pub queue : Ipc.State

unfoldable pub health : State → Level0aHealth
health s =
    if s.fallback_active
    then dead
    else if ltb busy_threshold_ticks s.last_stall
    then busy
    else healthy

abbrev pub code_of : Level0aHealth → ℕ
code_of healthy = 0
code_of busy = 1
code_of dead = 2

unfoldable pub report_health : ℕ → State → State
report_health pit s =
    let state = code_of (health s) in
    let s' = record s { last_reported = state } in
    if s.last_reported == state
    then s'
    else if state == 1
    then record s' {
      queue = (post s.queue pit health_change 0 1 0 "Level-0a mesgul -- nabiz gecikiyor").1;
    }
    else s'

-- `fallback::level0a_dead` and `fallback::level0a_recovered`, less the console.
unfoldable pub level0a_dead : ℕ → Ipc.State → Ipc.State
level0a_dead pit q = (post q pit health_change 0 2 0 "Level-0a olu -- Co-Service devraldi").1

unfoldable pub level0a_recovered : ℕ → ℕ → Ipc.State → Ipc.State
level0a_recovered pit stalled_ticks q =
    (post q pit health_change 0 0 stalled_ticks "Level-0a toparlandi -- normal moda donuldu").1

-- The heartbeat has changed.
unfoldable pub on_beat : ℕ → ℕ → ℕ → State → State
on_beat heartbeat now pit s =
    let s1 = record s { last_heartbeat = heartbeat; last_beat_tick = now; last_stall = 0 } in
    if s1.fallback_active
    then record s1 {
      fallback_active = false;
      recoveries = count_up s1.recoveries;
      queue = level0a_recovered pit s1.last_stall s1.queue;
    }
    else s1

-- It has not. `swap` runs only where the threshold is reached.
unfoldable pub on_silence : ℕ → ℕ → State → State
on_silence now pit s =
    let stalled = (now + 2 ^ 32 - s.last_beat_tick) % 2 ^ 32 in
    let s1 = record s { last_stall = stalled } in
    if leb dead_threshold_ticks stalled && not s1.fallback_active
    then record s1 {
      fallback_active = true;
      dead_events = count_up s1.dead_events;
      queue = level0a_dead pit s1.queue;
    }
    else s1

unfoldable pub tick : ℕ → ℕ → ℕ → State → State
tick heartbeat now pit s =
    report_health pit
      (if heartbeat == s.last_heartbeat then on_silence now pit s else on_beat heartbeat now pit s)

unfoldable pub level0a_is_dead : State → Bool
level0a_is_dead s = s.fallback_active
