-- ===== src/Signal/Return.antt =====
-- What a process sees of a signal in level0b1/signal.rs: the handler, and then its own context again.
use the_cursed_moon_kernel.Prelude.{
  subst, ==→eq, ==→ne, ◌⊎◌, inl, inr, ℕ, ◌+◌, ◌<◌, ◌≤◌, ◌≢◌, ◌%◌, ◌^◌, Bool, true, false, not, ◌||◌,
  leb, ◌==◌, Option, none, some, update, update_self, find_from, ◌≡◌, refl, sym, ◌∙◌, arith, if_ind,
  option_ind,
}
use the_cursed_moon_kernel.Scheduler.Tasks
use the_cursed_moon_kernel.Scheduler.Tasks.{is_unused, is_terminated}
use the_cursed_moon_kernel.Scheduler.Spawn.{Terminate, terminate}
use the_cursed_moon_kernel.Scheduler.Wait.{state_of}
use the_cursed_moon_kernel.Scheduler.Ends.{is_gone, Terminated, terminate-Terminated}
use the_cursed_moon_kernel.Signal.{
  State, Disposition, Delivery, Raise, raised, exits, refused, killed, valid, count_delivered,
  enter, deliver_pending, sigreturn, raise,
}
use the_cursed_moon_kernel.Signal.Deliver.{delivery, taken, is_due, deliver_pending-delivery}

true-false : true ≡ false → ⊥
true-false h = cc

module _ {Context : Type 0} (build : Context → ℕ → ℕ → ℕ → Option Context) (task : ℕ)
    (frame : Context) where
  -- The state in which a handler runs, and what the return then gives.
  abbrev pub Resumes : State Context → Type 0
  Resumes t =
      (other : Context)
      → ((sigreturn task t other).0 ≡ true)
        × ((sigreturn task t other).1.in_handler task ≡ false)
        × ((sigreturn task t other).2 ≡ frame)

  resumes :
      (t : State Context) → task < 8 → t.in_handler task ≡ true → t.saved task ≡ frame → Resumes t
  unfolding sigreturn
  resumes t lt inside saved other =
      (ground (arith, inside), ground (arith, inside), ground (arith, inside, saved))

  enter-Resumes :
      (signo : ℕ) (d : Disposition) (s : State Context)
      → task < 8
      → s.in_handler task ≡ false
      → (enter build task signo d s frame).1.in_handler task ≡ true
      → Resumes (enter build task signo d s frame).1
  unfolding enter
  enter-Resumes signo d s lt outside =
      option_ind
        (λ (r : Delivery × State Context × Context). r.1.in_handler task ≡ true → Resumes r.1)
        (build frame signo d.handler d.restorer) (λ _ h. absurd (true-false (sym h ∙ outside)))
        λ c _ h.
          resumes
            (count_delivered (record s {
              saved = update s.saved task frame;
              in_handler = update s.in_handler task true;
            }))
            lt h (update_self s.saved task frame)

  delivery-Resumes :
      (s : State Context) (o : Option ℕ)
      → task < 8
      → s.in_handler task ≡ false
      → (delivery build task frame s o).1.in_handler task ≡ true
      → Resumes (delivery build task frame s o).1
  unfolding enter
  delivery-Resumes s none lt outside = λ h. absurd (true-false (sym h ∙ outside))
  delivery-Resumes s (some n) lt outside =
      if_ind (λ (r : Delivery × State Context × Context). r.1.in_handler task ≡ true → Resumes r.1)
        ((s.dispositions task n).handler == 0) (λ _ h. absurd (true-false (sym h ∙ outside)))
        (λ _. enter-Resumes n (s.dispositions task n) (taken build task frame s (n + 1)) lt outside)

  -- Where `deliver_pending` has led a task below 8, which was in no handler, into one, `sigreturn`
  -- leaves the handler and restores the context at which the task was interrupted, whatever context
  -- the handler left.
  pub deliver_pending-sigreturn :
      (up : Bool) (s : State Context)
      → task < 8
      → s.in_handler task ≡ false
      → (deliver_pending build up task s frame).1.in_handler task ≡ true
      → Resumes (deliver_pending build up task s frame).1
  deliver_pending-sigreturn up s lt outside =
      subst (λ (r : Delivery × State Context × Context). r.1.in_handler task ≡ true → Resumes r.1)
        (sym (deliver_pending-delivery build task frame up s))
        (if_ind
          (λ (r : Delivery × State Context × Context). r.1.in_handler task ≡ true → Resumes r.1)
          (not up || leb 8 task || s.in_handler task) (λ _ h. absurd (true-false (sym h ∙ outside)))
          (λ _. delivery-Resumes s (find_from (is_due build task frame s) 32 0) lt outside))

-- What `raise` says. A refusal changes nothing. Any other signal than SIGKILL becomes pending and
-- changes nothing else; SIGKILL ends the task at once and never becomes pending, or ends the caller
-- with its exit code.
abbrev pub Raised :
    {Context : Type 0}
    → Tasks.State
    → ℕ
    → ℕ
    → State Context
    → Raise × Tasks.State × State Context
    → Type 0
Raised tasks target signo s (refused e, tasks', t) =
    (tasks' ≡ tasks) × (t.pending ≡ s.pending) × (t.dispositions ≡ s.dispositions)
Raised tasks target signo s (exits code, tasks', t) =
    (signo ≡ 9)
    × (target ≡ tasks.current)
    × (code ≡ 137)
    × (tasks' ≡ tasks)
    × (t.pending ≡ s.pending)
Raised tasks target signo s (raised, tasks', t) =
    (1 ≤ signo)
    × (signo ≤ 31)
    × (target < 8)
    × ((tasks.tasks target).state ≢ Tasks.unused)
    × ((tasks.tasks target).state ≢ Tasks.terminated)
    × (t.sent ≡ (s.sent + 1) % 2 ^ 32)
    × ((signo ≡ 9) × (t.pending ≡ s.pending) × (is_gone (tasks'.tasks target).state ≡ true)
        ⊎ (signo ≢ 9)
          × (tasks' ≡ tasks)
          × (t.pending ≡ update s.pending target (update (s.pending target) signo true)))

living :
    (t : Tasks.TaskState)
    → (is_unused t || is_terminated t) ≡ false
    → (t ≢ Tasks.unused) × (t ≢ Tasks.terminated)
living t h = (λ e. ground (arith, e, h), λ e. ground (arith, e, h))

module _ {Context : Type 0} (tasks : Tasks.State) (target signo : ℕ) (s : State Context) where
  -- The checks of `raise`, passed.
  abbrev Passed : Type 0
  Passed =
      (1 ≤ signo)
      × (signo ≤ 31)
      × (target < 8)
      × ((tasks.tasks target).state ≢ Tasks.unused)
      × ((tasks.tasks target).state ≢ Tasks.terminated)

  abbrev sent_one : State Context
  sent_one = record s { sent = (s.sent + 1) % 2 ^ 32 }

  killed-Raised :
      (r : Terminate × Tasks.State)
      → Passed
      → signo ≡ 9
      → Terminated tasks target r
      → Raised tasks target signo s ((killed r).0, (killed r).1, sent_one)
  killed-Raised (Terminate.ok space, t) p nine d =
      (p.0, p.1, p.2, p.3, p.4, refl, inl (nine, refl, ground (arith, d.2)))
  killed-Raised (Terminate.err e, t) p nine d = (d, refl, refl)

  passed :
      valid signo ≡ true
      → leb 8 target ≡ false
      → (is_unused (state_of tasks target) || is_terminated (state_of tasks target)) ≡ false
      → Passed
  unfolding valid state_of
  passed v lt alive =
      let l = living (tasks.tasks target).state (rw lt at alive) in
      (ground (arith, v), ground (arith, v), ground (arith, lt), l.0, l.1)

  -- `raise` either refuses and changes neither tasks nor signals; or it ends the caller with code
  -- 137 for SIGKILL to itself; or signal and task are valid and living, the counter goes up modulo
  -- 2 ^ 32, and for SIGKILL the task is gone, while any other signal becomes pending for the task
  -- and nothing else changes in the pending sets and the tasks.
  pub raise-Raised : Raised tasks target signo s (raise tasks target signo s)
  unfolding raise
  raise-Raised =
      if_ind (Raised tasks target signo s) (not (valid signo)) (λ _. (refl, refl, refl))
        λ v.
          if_ind (Raised tasks target signo s) (leb 8 target) (λ _. (refl, refl, refl))
            λ lt.
              if_ind (Raised tasks target signo s)
                (is_unused (state_of tasks target) || is_terminated (state_of tasks target))
                (λ _. (refl, refl, refl))
                λ alive.
                  let p = passed (ground (arith, v)) lt alive in
                  if_ind (Raised tasks target signo s) (signo == 9)
                    (λ nine.
                      if_ind (Raised tasks target signo s) (target == tasks.current)
                        (λ me.
                          (==→eq signo 9 nine, ==→eq target tasks.current me, refl, refl, refl))
                        (λ _.
                          killed-Raised (terminate tasks target) p (==→eq signo 9 nine)
                            (terminate-Terminated tasks target)))
                    (λ other.
                      (p.0, p.1, p.2, p.3, p.4, refl, inr (==→ne signo 9 other, refl, refl)))
