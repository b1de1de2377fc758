-- ===== src/Scheduler/Switch.antt =====
-- The validity of the task table of core/scheduler.rs, for the timer tick and `yield_now`.
use the_cursed_moon_kernel.Prelude.{
  ℕ, ◌≤◌, ◌<◌, ◌≡◌, refl, sym, ap, ◌∙◌, ◌≢◌, ◌&&◌, not, true, false, ltb, ◌==◌, if◌then◌else◌,
  update, update_ind, Bool-cases, arith, inl, inr, eq→==, ne→==, ==→ne, option_ind, if_ind,
}
use the_cursed_moon_kernel.Scheduler.Tasks.{Task, State, set_task, running, is_running, idle_task}
use the_cursed_moon_kernel.Scheduler.Select.{
  on_timer_tick, wake_expired, refill_credits, scan, second_pass, first_pass, pick_next, switch_to,
  yield_now, stop_running, pay_turn, beat,
}
use the_cursed_moon_kernel.Scheduler.Wake.{refill_credits-Changed, wake_expired_lem}
use the_cursed_moon_kernel.Scheduler.Choice.{slice_ticks_bounds, pick_next-Chosen}

-- The current index is that of a task, no other task is marked as running, and no task has more
-- credits than a period gives.
pub record IsValid (s : State) : Type 0 where
  pub count_in : s.task_count ≤ 8
  pub current_in : s.current < s.task_count
  pub only : (i : ℕ) → is_running (s.tasks i).state ≡ true → i ≡ s.current
  pub credits_in : (i : ℕ) → (s.tasks i).credits ≤ 8

-- A change of the table that starts and stops no task, and gives no more than a period's credits.
record Keeps (s r : State) : Type 0 where
  rest : r ≡ record s { tasks = r.tasks }
  runs : (i : ℕ) → is_running (r.tasks i).state ≡ is_running (s.tasks i).state
  credits : (i : ℕ) → (s.tasks i).credits ≤ 8 → (r.tasks i).credits ≤ 8

Keeps-refl : (s : State) → Keeps s s
Keeps-refl s = record { rest = refl; runs = λ i. refl; credits = λ i h. h }

Keeps-trans : {s r q : State} → Keeps s r → Keeps r q → Keeps s q
Keeps-trans {s} {r} {q} k l = record {
  rest = l.rest ∙ ap (λ (x : State). record x { tasks = q.tasks }) k.rest;
  runs = λ i. l.runs i ∙ k.runs i;
  credits = λ i h. l.credits i (k.credits i h);
}

refill_credits-Keeps : (s : State) (count : ℕ) → Keeps s (refill_credits s count)
refill_credits-Keeps s count =
    let c = refill_credits-Changed s count in
    record {
      rest = c.rest;
      runs = λ i. ground (arith, c.tasks i);
      credits = λ i h. ground (arith, c.tasks i, slice_ticks_bounds (s.tasks i).nice);
    }

wake_expired-Keeps : (s : State) (now count : ℕ) → Keeps s (wake_expired s now count)
wake_expired-Keeps s now count =
    let c = wake_expired_lem s now count in
    record { rest = c.1; runs = λ i. ground (arith, c.0 i); credits = λ i h. ground (arith, c.0 i) }

pick_next-Keeps : (s : State) (now current : ℕ) → Keeps s (pick_next s now current).1
unfolding pick_next first_pass second_pass
pick_next-Keeps s now current =
    let w = wake_expired s now s.task_count in
    let woke = wake_expired-Keeps s now s.task_count in
    option_ind (λ (r : ℕ × State). Keeps s r.1) (scan w current s.task_count)
      (λ _.
        let both = Keeps-trans woke (refill_credits-Keeps w s.task_count) in
        option_ind (λ (r : ℕ × State). Keeps s r.1)
          (scan (refill_credits w s.task_count) current s.task_count) (λ _. both) (λ k e. both))
      (λ k e. woke)

Keeps-IsValid : {s r : State} → Keeps s r → IsValid s → IsValid r
Keeps-IsValid {s} {r} k v = record {
  count_in = rw k.rest v.count_in;
  current_in = rw k.rest v.current_in;
  only = λ i h. rw (ap (λ (x : State). x.current) k.rest) (v.only i (sym (k.runs i) ∙ h));
  credits_in = λ i. k.credits i (v.credits_in i);
}

-- A timer tick keeps the table valid.
pub on_timer_tick-IsValid : {s : State} → IsValid s → IsValid (on_timer_tick s)
unfolding on_timer_tick
on_timer_tick-IsValid {s} v =
    if_ind IsValid (ltb 1 (s.tasks s.current).credits)
      (λ _. record {
        count_in = v.count_in;
        current_in = v.current_in;
        only = λ i h. ground (arith, v.only i);
        credits_in = λ i. ground (arith, v.credits_in i);
      })
      (λ _. record {
        count_in = v.count_in;
        current_in = v.current_in;
        only = λ i h. ground (arith, v.only i);
        credits_in = λ i. ground (arith, v.credits_in i);
      })

-- A table with no running task, and no more than a period's credits.
record Stopped (tasks : ℕ → Task) : Type 0 where
  none_runs : (i : ℕ) → is_running (tasks i).state ≡ false
  credits : (i : ℕ) → (tasks i).credits ≤ 8

stop_running-stops : (t : Task) → is_running (stop_running t).state ≡ false
stop_running-stops t =
    if_ind (λ (r : Task). is_running r.state ≡ false) (is_running t.state) (λ _. refl) (λ e. e)

pay_turn-state : (c : ℕ) (t : Task) → (pay_turn c t).state ≡ t.state
pay_turn-state c t =
    if_ind (λ (r : Task). r.state ≡ t.state) (c == idle_task) (λ _. refl) (λ _. refl)

stop_running-credits : (t : Task) → (stop_running t).credits ≡ t.credits
stop_running-credits t =
    if_ind (λ (r : Task). r.credits ≡ t.credits) (is_running t.state) (λ _. refl) (λ _. refl)

pay_turn-credits : (c : ℕ) (t : Task) → (pay_turn c t).credits ≤ t.credits
pay_turn-credits c t =
    if_ind (λ (r : Task). r.credits ≤ t.credits) (c == idle_task) (λ _. omega arith)
      (λ _. omega arith)

-- The outgoing task is stopped, and no other one ran.
Stopped-outgoing :
    {s : State}
    → IsValid s
    → Stopped (update s.tasks s.current (pay_turn s.current (stop_running (s.tasks s.current))))
Stopped-outgoing {s} v =
    let t = s.tasks s.current in
    record {
      none_runs =
          update_ind (λ j (u : Task). is_running u.state ≡ false) s.tasks s.current
            (pay_turn s.current (stop_running t))
            (ap is_running (pay_turn-state s.current (stop_running t)) ∙ stop_running-stops t)
            (λ j ne. elim (Bool-cases (is_running (s.tasks j).state)) [
              | inl e ↦ absurd (ne (v.only j e))
              | inr e ↦ e
            ]);
      credits =
          update_ind (λ j (u : Task). u.credits ≤ 8) s.tasks s.current
            (pay_turn s.current (stop_running t))
            (omega (
              arith,
              pay_turn-credits s.current (stop_running t),
              stop_running-credits t,
              v.credits_in s.current,
            ))
            (λ j ne. v.credits_in j);
    }

Stopped-Keeps : {s r : State} → Keeps s r → Stopped s.tasks → Stopped r.tasks
Stopped-Keeps k v = record {
  none_runs = λ i. k.runs i ∙ v.none_runs i;
  credits = λ i. k.credits i (v.credits i);
}

-- Marking the incoming task, and saving the outgoing one's stack pointer.
marked : (ℕ → Task) → ℕ → ℕ → ℕ → ℕ → Task
marked f next out sp =
    let g = update f next (record (f next) { state = running }) in
    update g out (record (g out) { stack_pointer = sp })

marked-only :
    (f : ℕ → Task) (next out sp : ℕ)
    → Stopped f
    → (i : ℕ) → is_running (marked f next out sp i).state ≡ true
    → i ≡ next
unfolding marked
marked-only f next out sp v =
    let g = update f next (record (f next) { state = running }) in
    let runs =
      update_ind (λ j (u : Task). is_running u.state ≡ true → j ≡ next) f next
        (record (f next) { state = running }) (λ _. refl)
        (λ j ne h. ground (arith, v.none_runs j)) in
    update_ind (λ j (u : Task). is_running u.state ≡ true → j ≡ next) g out
      (record (g out) { stack_pointer = sp }) (runs out) (λ j ne. runs j)

marked-credits :
    (f : ℕ → Task) (next out sp : ℕ) → Stopped f → (i : ℕ) → (marked f next out sp i).credits ≤ 8
unfolding marked
marked-credits f next out sp v =
    let g = update f next (record (f next) { state = running }) in
    let h =
      update_ind (λ j (u : Task). u.credits ≤ 8) f next (record (f next) { state = running })
        (v.credits next) (λ j ne. v.credits j) in
    update_ind (λ j (u : Task). u.credits ≤ 8) g out (record (g out) { stack_pointer = sp }) (h out)
      (λ j ne. h j)

marked-running :
    (f : ℕ → Task) (next out sp : ℕ)
    → next ≢ out
    → is_running (marked f next out sp next).state ≡ true
unfolding marked
marked-running f next out sp ne = rw (ne→== next out ne, eq→== next next refl) refl

-- A switch to another task keeps the table valid, and runs that task.
pub switch_to-IsValid :
    {s : State} (next kernel_cr3 sp : ℕ)
    → IsValid s
    → next < s.task_count
    → next ≢ s.current
    → IsValid (switch_to s next kernel_cr3 sp)
      × ((switch_to s next kernel_cr3 sp).current ≡ next)
      × (is_running ((switch_to s next kernel_cr3 sp).tasks next).state ≡ true)
unfolding switch_to marked
switch_to-IsValid {s} next kernel_cr3 sp v lt ne =
    let s1 = set_task s s.current (pay_turn s.current (stop_running (s.tasks s.current))) in
    let s2 = if next == idle_task then refill_credits s1 s1.task_count else s1 in
    let keeps =
      if_ind (Keeps s1) (next == idle_task) (λ _. refill_credits-Keeps s1 s1.task_count)
        (λ _. Keeps-refl s1) in
    let stopped = Stopped-Keeps keeps (Stopped-outgoing v) in
    (
      record {
        count_in = rw keeps.rest v.count_in;
        current_in = rw keeps.rest lt;
        only = marked-only s2.tasks next s.current sp stopped;
        credits_in = marked-credits s2.tasks next s.current sp stopped;
      },
      refl,
      marked-running s2.tasks next s.current sp ne,
    )

-- `beat` leaves the task table alone.
beat-IsValid : (now : ℕ) {s : State} → IsValid s → IsValid (beat now s)
unfolding beat
beat-IsValid now {s} v =
    if_ind IsValid (not (s.suppressed_until == 0) && ltb now s.suppressed_until) (λ _. v)
      (λ _. record {
        count_in = v.count_in;
        current_in = v.current_in;
        only = v.only;
        credits_in = v.credits_in;
      })

-- `yield_now` keeps the task table valid: at most 8 tasks, the current index is that of a task, no
-- task but the current one is marked as running, and no task has more than 8 credits.
pub yield_now-IsValid :
    {s : State} (now kernel_cr3 sp : ℕ) → IsValid s → IsValid (yield_now s now kernel_cr3 sp)
unfolding yield_now
yield_now-IsValid {s} now kernel_cr3 sp v =
    let s0 = record s { need_resched = false } in
    let v0 : IsValid s0 = record {
      count_in = v.count_in;
      current_in = v.current_in;
      only = v.only;
      credits_in = v.credits_in;
    } in
    let s1 = beat now s0 in
    let v1 = beat-IsValid now v0 in
    let keeps = pick_next-Keeps s1 now s1.current in
    let v2 = Keeps-IsValid keeps v1 in
    let r = pick_next s1 now s1.current in
    if_ind IsValid (r.0 == s1.current) (λ _. v2)
      (λ other.
        (switch_to-IsValid r.0 kernel_cr3 sp v2
          (rw keeps.rest (pick_next-Chosen s1 now s1.current v1.current_in).0)
          (rw keeps.rest (==→ne r.0 s1.current other))).0)
