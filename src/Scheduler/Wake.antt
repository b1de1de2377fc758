-- ===== src/Scheduler/Wake.antt =====
-- The loops of core/scheduler.rs over the task table, slot by slot: which tasks wake, and what a
-- new period gives.
use the_cursed_moon_kernel.Prelude.{
  ℕ, suc, ◌+◌, ◌-◌, ◌%◌, ◌^◌, ◌≤◌, ◌<◌, ◌≡◌, refl, ap, ltb, leb, if◌then◌else◌, update, update_self,
  update_ne, update_same, arith, each_inv, ℕ_discrete,
}
use the_cursed_moon_kernel.Scheduler.Tasks.{
  Task, State, ready, blocked, waiting, set_task, is_terminated,
}
use the_cursed_moon_kernel.Scheduler.Select.{
  is_due, wake_step, wake_expired, refilled, refill_step, refill_credits,
}

-- A task after `wake_expired`, from the table before.
abbrev pub woken : (ℕ → Task) → ℕ → Task → Task
woken tasks now t = elim t.state [
  | blocked ↦ if is_due now t.wake_tick then record t { state = ready } else t
  | waiting ↦
      if is_terminated (tasks (t.wait_for - 1)).state
      then record t { state = ready; wait_for = 0 }
      else t
  | _ ↦ t
]

-- A table that a loop has changed below `n`, and a state with nothing else changed.
pub record Changed (f : ℕ → Task → Task) (n : ℕ) (s r : State) : Type 0 where
  pub tasks : (i : ℕ) → r.tasks i ≡ (if ltb i n then f i (s.tasks i) else s.tasks i)
  pub rest : r ≡ record s { tasks = r.tasks }

-- A round that rewrites slot `n` by `f` extends the change by that slot.
Changed-step :
    (f : ℕ → Task → Task) (n : ℕ) (s r : State)
    → Changed f n s r
    → Changed f (suc n) s (set_task r n (f n (r.tasks n)))
Changed-step f n s r c =
    let same : r.tasks n ≡ s.tasks n = ground (arith, c.tasks n) in
    record {
      tasks = λ i. elim (ℕ_discrete i n) [
        | yes e ↦ rw e (ground (arith, update_self r.tasks n (f n (r.tasks n)), ap (f n) same))
        | no ne ↦ ground (arith, update_ne r.tasks n (f n (r.tasks n)) i ne, c.tasks i)
      ];
      rest = ap (λ (x : State). record x { tasks = update r.tasks n (f n (r.tasks n)) }) c.rest;
    }

pub refill_credits-Changed :
    (s : State) (count : ℕ) → Changed (λ i. refilled) count s (refill_credits s count)
unfolding refill_credits refill_step
refill_credits-Changed s count =
    each_inv (λ n r. Changed (λ i. refilled) n s r) refill_step count s
      (λ i r lt c. Changed-step (λ j. refilled) i s r c)
      (record { tasks = λ i. ground arith; rest = refl })

-- Tasks that have ended are not touched, so a later round sees the table of the start.
terminated-woken :
    (tasks : ℕ → Task) (now : ℕ) (t : Task)
    → is_terminated (woken tasks now t).state ≡ is_terminated t.state
terminated-woken tasks now t = ground arith

wake_step-woken :
    (now n : ℕ) (s r : State)
    → Changed (λ i. woken s.tasks now) n s r
    → wake_step now n r ≡ set_task r n (woken s.tasks now (r.tasks n))
unfolding wake_step
wake_step-woken now n s r c =
    let k = (r.tasks n).wait_for - 1 in
    let ended : is_terminated (r.tasks k).state ≡ is_terminated (s.tasks k).state =
      ground (arith, c.tasks k, terminated-woken s.tasks now (s.tasks k)) in
    ground (arith, update_same r.tasks n, ended)

wake_expired-Changed :
    (s : State) (now count : ℕ)
    → Changed (λ i. woken s.tasks now) count s (wake_expired s now count)
unfolding wake_expired
wake_expired-Changed s now count =
    each_inv (λ n r. Changed (λ i. woken s.tasks now) n s r) (wake_step now) count s
      (λ i r lt c. rw (wake_step-woken now i s r c) (Changed-step (λ j. woken s.tasks now) i s r c))
      (record { tasks = λ i. ground arith; rest = refl })

-- `wake_expired` makes ready exactly those of the first `count` tasks that sleep and whose tick has
-- come, or that wait and whose task was terminated before the call; no other task and no other part
-- of the state changes.
pub wake_expired_lem :
    (s : State) (now count : ℕ)
    → ((i : ℕ)
        → (wake_expired s now count).tasks i
          ≡ (if ltb i count then woken s.tasks now (s.tasks i) else s.tasks i))
      × (wake_expired s now count ≡ record s { tasks = (wake_expired s now count).tasks })
wake_expired_lem s now count = let c = wake_expired-Changed s now count in (c.tasks, c.rest)

-- A sleep of at most 2 ^ 31 ticks is over exactly from its last tick on, for 2 ^ 31 ticks from its
-- start, also where the 32-bit tick counter wraps in between.
pub is_due_lem :
    (t n d : ℕ) → n ≤ 2 ^ 31 → d < 2 ^ 31 → is_due ((t + d) % 2 ^ 32) ((t + n) % 2 ^ 32) ≡ leb n d
is_due_lem t n d hn hd = ground arith
