-- ===== src/Balancer/Quota.antt =====
-- The quota of level0b2/load_balancer.rs: what `note_call` counts and decides.
use the_cursed_moon_kernel.Prelude.{
  ℕ, ◌+◌, ◌-◌, ◌^◌, ◌<◌, ◌≡◌, refl, ◌≢◌, leb, if◌then◌else◌, arith, if_ind, update_self, update_ne,
  ap, ◌∙◌,
}
use the_cursed_moon_kernel.Balancer.{
  State, Channel, Verdict, pass, throttle, index_of, bump, report, over_quota, note_call,
  task_quota,
}
use the_cursed_moon_kernel.Ipc.{count_up}

over_quota_rest :
    (pit task in_window : ℕ) (s : State)
    → ((over_quota pit task in_window s).task_window ≡ s.task_window)
      × ((over_quota pit task in_window s).window ≡ s.window)
unfolding over_quota report
over_quota_rest pit task in_window s = ground arith

-- For a task below 8 with a window count below 2 ^ 32 - 1, `note_call` asks it to yield exactly if
-- it has made 4000 calls or more in the window before this one, counts the call for the task and
-- for the channel, and charges no other task.
pub note_call_lem :
    (pit : ℕ) (channel : Channel) (task : ℕ) (s : State)
    → task < 8
    → s.task_window task < 2 ^ 32 - 1
    → let (verdict, s') = note_call pit channel task s in
      (verdict ≡ (if leb 4000 (s.task_window task) then throttle else pass))
      × (s'.task_window task ≡ s.task_window task + 1)
      × (s'.window (index_of channel) ≡ count_up (s.window (index_of channel)))
      × ((t : ℕ) → t ≢ task → s'.task_window t ≡ s.task_window t)
unfolding note_call
note_call_lem pit channel task s lt small =
    let i = index_of channel in
    let s2 = record s {
      total = bump s.total i;
      window = bump s.window i;
      task_total = bump s.task_total task;
      task_window = bump s.task_window task;
    } in
    let mine = update_self s.task_window task (count_up (s.task_window task)) in
    let rest = over_quota_rest pit task (s2.task_window task) s2 in
    let counted : (r : State)
        → r.task_window ≡ s2.task_window
        → r.window ≡ s2.window
        → (r.task_window task ≡ s.task_window task + 1)
          × (r.window i ≡ count_up (s.window i))
          × ((t : ℕ) → t ≢ task → r.task_window t ≡ s.task_window t) =
      λ r e e'. (
        ap (λ f. f task) e ∙ mine ∙ omega arith,
        ap (λ f. f i) e' ∙ update_self s.window i (count_up (s.window i)),
        λ t ne. ap (λ f. f t) e ∙ update_ne s.task_window task (count_up (s.task_window task)) t ne,
      ) in
    let count : s2.task_window task ≡ s.task_window task + 1 = mine ∙ omega arith in
    let P = λ (r : Verdict × State).
      (r.0 ≡ (if leb 4000 (s.task_window task) then throttle else pass))
      × (r.1.task_window task ≡ s.task_window task + 1)
      × (r.1.window i ≡ count_up (s.window i))
      × ((t : ℕ) → t ≢ task → r.1.task_window t ≡ s.task_window t) in
    if_ind P (leb 8 task) (λ big. absurd (ground arith))
      (λ _.
        if_ind P (leb (s2.task_window task) task_quota)
          (λ under. (let c = counted s2 refl refl in (ground (arith, count, under), c.0, c.1, c.2)))
          (λ over.
            (let c = counted (over_quota pit task (s2.task_window task) s2) rest.0 rest.1 in
              (ground (arith, count, over), c.0, c.1, c.2))))
