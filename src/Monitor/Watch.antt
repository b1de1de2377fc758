-- ===== src/Monitor/Watch.antt =====
-- What one `tick` of level0b2/state_monitor.rs makes of the heartbeat.
use the_cursed_moon_kernel.Prelude.{
  ℕ, ◌+◌, ◌-◌, ◌%◌, ◌^◌, ◌<◌, ◌≡◌, refl, ◌∙◌, true, false, not, ◌&&◌, ◌||◌, leb, ◌==◌,
  if◌then◌else◌, arith, if_ind, eq→==,
}
use the_cursed_moon_kernel.Ipc.{post, health_change, count_up}
use the_cursed_moon_kernel.Monitor.{
  State, health, healthy, report_health, on_beat, on_silence, tick, level0a_recovered,
}

Same : State → State → Type 0
Same s r =
    (r.fallback_active ≡ s.fallback_active)
    × (r.last_stall ≡ s.last_stall)
    × (r.dead_events ≡ s.dead_events)
    × (r.recoveries ≡ s.recoveries)
    × (r.last_heartbeat ≡ s.last_heartbeat)

-- A report changes nothing of the watch itself.
report_health-Same : (pit : ℕ) (s : State) → Same s (report_health pit s)
unfolding report_health Same
report_health-Same pit s = ground arith

since : (b d : ℕ) → d < 2 ^ 32 → b < 2 ^ 32 → ((b + d) % 2 ^ 32 + 2 ^ 32 - b) % 2 ^ 32 ≡ d
since b d hd hb = omega arith

on_silence_lem :
    (s : State) (now pit d : ℕ)
    → (now + 2 ^ 32 - s.last_beat_tick) % 2 ^ 32 ≡ d
    → let s' = on_silence now pit s in
      (s'.fallback_active ≡ (s.fallback_active || leb 300 d))
      × (s'.last_stall ≡ d)
      × (s'.dead_events
          ≡ (if leb 300 d && not s.fallback_active then count_up s.dead_events else s.dead_events))
      × (s'.recoveries ≡ s.recoveries)
unfolding on_silence
on_silence_lem s now pit d e = rw e (ground arith)

on_beat_lem :
    (s : State) (heartbeat now pit : ℕ)
    → let s' = on_beat heartbeat now pit s in
      (s'.fallback_active ≡ false)
      × (s'.last_stall ≡ 0)
      × (s'.dead_events ≡ s.dead_events)
      × (s'.recoveries ≡ (if s.fallback_active then count_up s.recoveries else s.recoveries))
      × (s'.last_heartbeat ≡ heartbeat)
unfolding on_beat
on_beat_lem s heartbeat now pit = ground arith

-- Where the heartbeat is as at the last tick and changed last `d` ticks ago, also across the wrap
-- of the 32-bit counter, `tick` leaves the system in fallback mode exactly if it was before or `d`
-- is at least 300, records `d`, counts the entry into the mode, and counts no recovery.
pub tick_silent :
    (s : State) (pit d : ℕ)
    → d < 2 ^ 32
    → s.last_beat_tick < 2 ^ 32
    → let s' = tick s.last_heartbeat ((s.last_beat_tick + d) % 2 ^ 32) pit s in
      (s'.fallback_active ≡ (s.fallback_active || leb 300 d))
      × (s'.last_stall ≡ d)
      × (s'.dead_events
          ≡ (if leb 300 d && not s.fallback_active then count_up s.dead_events else s.dead_events))
      × (s'.recoveries ≡ s.recoveries)
unfolding tick Same
tick_silent s pit d hd hb =
    let now = (s.last_beat_tick + d) % 2 ^ 32 in
    let h = report_health-Same pit (on_silence now pit s) in
    let q = on_silence_lem s now pit d (since s.last_beat_tick d hd hb) in
    rw (eq→== s.last_heartbeat s.last_heartbeat refl) (h.0 ∙ q.0, h.1 ∙ q.1, h.2 ∙ q.2, h.3 ∙ q.3)

-- Where the heartbeat has changed, `tick` leaves the system healthy with the new heartbeat, counts
-- a recovery exactly if it was in fallback mode, and counts no failure.
pub tick_beat :
    (s : State) (heartbeat now pit : ℕ)
    → (heartbeat == s.last_heartbeat) ≡ false
    → let s' = tick heartbeat now pit s in
      (health s' ≡ healthy)
      × (s'.last_heartbeat ≡ heartbeat)
      × (s'.recoveries ≡ (if s.fallback_active then count_up s.recoveries else s.recoveries))
      × (s'.dead_events ≡ s.dead_events)
unfolding tick health Same
tick_beat s heartbeat now pit ne =
    let h = report_health-Same pit (on_beat heartbeat now pit s) in
    let q = on_beat_lem s heartbeat now pit in
    rw ne (rw (h.0 ∙ q.0, h.1 ∙ q.1) refl, h.4 ∙ q.4, h.3 ∙ q.3, h.2 ∙ q.2)

-- Where the heartbeat has changed in fallback mode, the message that `tick` posts gives a stall of
-- 0 ticks, whatever the length of the silence.
pub recovery_reports_zero :
    (s : State) (heartbeat now pit : ℕ)
    → (heartbeat == s.last_heartbeat) ≡ false
    → s.fallback_active ≡ true
    → (tick heartbeat now pit s).queue
      ≡ (post s.queue pit health_change 0 0 0 "Level-0a toparlandi -- normal moda donuldu").1
unfolding tick on_beat report_health health level0a_recovered
recovery_reports_zero s heartbeat now pit ne active =
    rw (ne, active)
      (if_ind
        (λ (r : State).
          r.queue
          ≡ (post s.queue pit health_change 0 0 0 "Level-0a toparlandi -- normal moda donuldu").1)
        (s.last_reported == 0) (λ _. refl) (λ _. refl))
