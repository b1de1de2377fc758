-- ===== src/Monitor/Tests.antt =====
-- Runs of level0b2/state_monitor.rs from a healthy state and from the fallback mode.
use the_cursed_moon_kernel.Prelude.{◌≡◌, refl, true, false, arith}
use the_cursed_moon_kernel.Ipc.{initial, post, health_change}
use the_cursed_moon_kernel.Monitor.{State, tick}
use the_cursed_moon_kernel.Monitor.Watch.{tick_silent, recovery_reports_zero}

abbrev calm : State
calm = record {
  last_heartbeat = 7;
  last_beat_tick = 0xFFFF_FFFF;
  fallback_active = false;
  last_reported = 0;
  dead_events = 0;
  recoveries = 0;
  last_stall = 0;
  queue = initial;
}

abbrev lost : State
lost = record calm { fallback_active = true; last_stall = 450; dead_events = 1 }

-- The counter wraps during the 301 silent ticks.
tick_silent_example :
    ((tick 7 300 0 calm).fallback_active ≡ true)
    × ((tick 7 300 0 calm).last_stall ≡ 301)
    × ((tick 7 300 0 calm).dead_events ≡ 1)
    × ((tick 7 300 0 calm).recoveries ≡ 0)
tick_silent_example = tick_silent calm 0 301 (omega arith) (omega arith)

recovery_reports_zero_example :
    (tick 8 500 0 lost).queue
    ≡ (post initial 0 health_change 0 0 0 "Level-0a toparlandi -- normal moda donuldu").1
recovery_reports_zero_example = recovery_reports_zero lost 8 500 0 refl refl
