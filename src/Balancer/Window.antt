-- ===== src/Balancer/Window.antt =====
-- The window of level0b2/load_balancer.rs: what `on_tick` reports when it rolls.
use the_cursed_moon_kernel.Prelude.{
  ℕ, suc, ◌+◌, ◌-◌, ◌%◌, ◌^◌, ◌<◌, ◌≤◌, ◌≡◌, refl, ltb, arith, each, each_inv, if_ind, update_ne,
  eq→==, ℕ_discrete, subst, ◌∙◌,
}
use the_cursed_moon_kernel.Ipc.{count_up}
use the_cursed_moon_kernel.Balancer.{
  State, roll_task, roll_tasks, roll_channel, roll_channels, on_tick,
}

-- The loop over the tasks after `k` rounds, from the windows `w`.
record Rolled (w : ℕ → ℕ) (k : ℕ) (r : (ℕ × ℕ) × State) : Type 0 where
  rates : (t : ℕ) → t < k → r.1.task_rate t ≡ w t
  cleared : (t : ℕ) → t < k → r.1.task_window t ≡ 0
  ahead : (t : ℕ) → k ≤ t → r.1.task_window t ≡ w t
  best : (r.0.1 ≤ w r.0.0) × (r.0.0 < 8)
  top : (t : ℕ) → t < k → w t ≤ r.0.1

roll_task-Rolled :
    (w : ℕ → ℕ) (k : ℕ) (r : (ℕ × ℕ) × State)
    → k < 8
    → Rolled w k r
    → Rolled w (suc k) (roll_task k r)
unfolding roll_task
roll_task-Rolled w k ((busiest, rate), s) lt v =
    let here = v.ahead k (omega arith) in
    record {
      rates = λ t ht. elim (ℕ_discrete t k) [
        | yes e ↦ rw (e, eq→== k k refl) here
        | no ne ↦ update_ne s.task_rate k (s.task_window k) t ne ∙ v.rates t (omega arith)
      ];
      cleared = λ t ht. elim (ℕ_discrete t k) [
        | yes e ↦ rw (e, eq→== k k refl) refl
        | no ne ↦ update_ne s.task_window k 0 t ne ∙ v.cleared t (omega arith)
      ];
      ahead = λ t ht.
          update_ne s.task_window k 0 t (λ e. absurd (omega arith)) ∙ v.ahead t (omega arith);
      best = ground (arith, v.best, here);
      top = λ t ht. elim (ℕ_discrete t k) [
        | yes e ↦ rw e (ground (arith, here))
        | no ne ↦ ground (arith, here, v.top t (omega arith))
      ];
    }

roll_channel_rest : (i : ℕ) (r : ℕ × State) → (roll_channel i r).1.task_window ≡ r.1.task_window
unfolding roll_channel
roll_channel_rest i (mask, s) = refl

roll_channels_rest : (s : State) → (roll_channels s).task_window ≡ s.task_window
unfolding roll_channels
roll_channels_rest s =
    each_inv (λ k (r : ℕ × State). r.1.task_window ≡ s.task_window) roll_channel 5 (0, s)
      (λ i r lt h. roll_channel_rest i r ∙ h) refl

-- At least 100 ticks after the last roll, `on_tick` makes the rate of every task its count of the
-- window, starts the counts of the tasks again from 0, and names as the busiest a task whose count
-- no other one exceeds.
pub on_tick_rolls :
    (ticks : ℕ) (s : State)
    → 100 ≤ (ticks + 2 ^ 32 - s.window_start) % 2 ^ 32
    → let s' = on_tick ticks s in
      ((t : ℕ) → t < 8 → s'.task_rate t ≡ s.task_window t)
      × ((t : ℕ) → t < 8 → s'.task_window t ≡ 0)
      × (s'.busiest_task < 8)
      × ((t : ℕ) → t < 8 → s.task_window t ≤ s.task_window s'.busiest_task)
unfolding on_tick roll_tasks
on_tick_rolls ticks s due =
    let s0 =
      roll_channels
        (record s { window_start = ticks; windows_rolled = count_up s.windows_rolled }) in
    let e : s0.task_window ≡ s.task_window =
      roll_channels_rest
        (record s { window_start = ticks; windows_rolled = count_up s.windows_rolled }) in
    let v =
      subst (λ w. Rolled w 8 (each 8 roll_task ((0, 0), s0))) e
        (each_inv (Rolled s0.task_window) roll_task 8 ((0, 0), s0)
          (λ k r lt h. roll_task-Rolled s0.task_window k r lt h)
          (record {
            rates = λ t lt. absurd (omega arith);
            cleared = λ t lt. absurd (omega arith);
            ahead = λ t le. refl;
            best = (omega arith, omega arith);
            top = λ t lt. absurd (omega arith);
          })) in
    if_ind
      (λ (s' : State).
        ((t : ℕ) → t < 8 → s'.task_rate t ≡ s.task_window t)
        × ((t : ℕ) → t < 8 → s'.task_window t ≡ 0)
        × (s'.busiest_task < 8)
        × ((t : ℕ) → t < 8 → s.task_window t ≤ s.task_window s'.busiest_task))
      (ltb ((ticks + 2 ^ 32 - s.window_start) % 2 ^ 32) 100) (λ early. absurd (ground arith))
      (λ _. (v.rates, v.cleared, v.best.1, λ t lt. omega (arith, v.top t lt, v.best.0)))
