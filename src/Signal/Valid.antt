-- ===== src/Signal/Valid.antt =====
-- The invariant of level0b1/signal.rs.
use the_cursed_moon_kernel.Prelude.{
  ℕ, zero, suc, ◌≤◌, ◌<◌, update, ℕ_discrete, Bool, true, false, not, ◌||◌, leb, ◌==◌, Option,
  find_from, ◌≡◌, ◌≢◌, arith, if_ind, option_ind, bool_ind,
}
use the_cursed_moon_kernel.Scheduler.Tasks
use the_cursed_moon_kernel.Scheduler.Tasks.{is_unused, is_terminated}
use the_cursed_moon_kernel.Signal.{
  State, Disposition, Delivery, valid, raise, set_handler, clone_into, reset, set_pending, enter,
  deliver_from, deliver_pending, sigreturn,
}

-- What the signals need of the processes: the tasks that run a program, and the addresses that
-- `is_user_accessible` finds in the page tables of each at this moment.
pub record Programs : Type 0 where
  pub running : ℕ → Bool
  pub reaches : ℕ → ℕ → Bool

module _ {Context : Type 0} (programs : Programs) where
  -- Only the signals 1 to 31 are pending and SIGKILL is not, SIGKILL has its default, and where a
  -- task runs a program, that program reaches its handlers and their restorers.
  pub record IsValid (s : State Context) : Type 0 where
    pub pends : (t n : ℕ) → s.pending t n ≡ true → (1 ≤ n) × (n ≤ 31) × (n ≢ 9)
    pub kills : (t : ℕ) → (s.dispositions t 9).handler ≡ 0
    pub safe :
        (t n : ℕ)
        → programs.running t ≡ true
        → (s.dispositions t n).handler ≢ 0
        → (s.dispositions t n).handler ≢ 1
        → (programs.reaches t (s.dispositions t n).handler ≡ true)
          × (programs.reaches t (s.dispositions t n).restorer ≡ true)

  set_pending-IsValid :
      (s : State Context) (task signo : ℕ) (b : Bool)
      → IsValid s
      → (b ≡ true → (1 ≤ signo) × (signo ≤ 31) × (signo ≢ 9))
      → IsValid (set_pending s task signo b)
  set_pending-IsValid s task signo b v h = record {
    pends = λ t n p. ground (arith, v.pends t n, h, p);
    kills = v.kills;
    safe = v.safe;
  }

  pub raise-IsValid :
      (tasks : Tasks.State) (target signo : ℕ) (s : State Context)
      → IsValid s
      → IsValid (raise tasks target signo s).2
  unfolding raise valid
  raise-IsValid tasks target signo s v = record {
    pends = λ t n p. ground (arith, v.pends t n, p);
    kills = λ t. ground (arith, v.kills t);
    safe = λ t n. ground (arith, v.safe t n);
  }

  pub set_handler-IsValid :
      (task signo handler restorer : ℕ) (s : State Context)
      → IsValid s
      → IsValid (set_handler (programs.reaches task) task signo handler restorer s).1
  unfolding set_handler valid
  set_handler-IsValid task signo handler restorer s v = record {
    pends = λ t n p. ground (arith, v.pends t n, p);
    kills = λ t. ground (arith, v.kills t);
    safe = λ t n r a b. elim (ℕ_discrete t task) [
      | no ne ↦ ground (arith, v.safe t n, r, a, b, ne)
      | yes e ↦ ground (arith, v.safe task n, r, a, b, e)
    ];
  }

  module _ (build : Context → ℕ → ℕ → ℕ → Option Context) where
    enter-IsValid :
        (task signo : ℕ) (d : Disposition) (s : State Context) (frame : Context)
        → IsValid s
        → IsValid (enter build task signo d s frame).1
    unfolding enter
    enter-IsValid task signo d s frame v =
        option_ind (λ (r : Delivery × State Context × Context). IsValid r.1)
          (build frame signo d.handler d.restorer)
          (λ _. record { pends = v.pends; kills = v.kills; safe = v.safe })
          (λ c _. record { pends = v.pends; kills = v.kills; safe = v.safe })

    deliver_from-IsValid :
        (fuel task : ℕ) (s : State Context) (frame : Context)
        → IsValid s
        → IsValid (deliver_from build fuel task s frame).1
    unfolding deliver_from
    deliver_from-IsValid zero task s frame v = v
    deliver_from-IsValid (suc fuel) task s frame v =
        let P = λ (r : Delivery × State Context × Context). IsValid r.1 in
        option_ind P (find_from (s.pending task) 32 0) (λ _. v)
          λ signo _.
            let v' = set_pending-IsValid s task signo false v (λ h. cc) in
            let d = s.dispositions task signo in
            bool_ind P (d.handler == 1)
              (λ _. deliver_from-IsValid fuel task (set_pending s task signo false) frame v')
              λ _.
                if_ind P (d.handler == 0)
                  (λ _. record { pends = v'.pends; kills = v'.kills; safe = v'.safe })
                  (λ _. enter-IsValid task signo d (set_pending s task signo false) frame v')

    pub deliver_pending-IsValid :
        (up : Bool) (task : ℕ) (s : State Context) (frame : Context)
        → IsValid s
        → IsValid (deliver_pending build up task s frame).1
    unfolding deliver_pending
    deliver_pending-IsValid up task s frame v =
        if_ind (λ (r : Delivery × State Context × Context). IsValid r.1)
          (not up || leb 8 task || s.in_handler task) (λ _. v)
          (λ _. deliver_from-IsValid 33 task s frame v)

  pub sigreturn-IsValid :
      (task : ℕ) (s : State Context) (frame : Context)
      → IsValid s
      → IsValid (sigreturn task s frame).1
  unfolding sigreturn
  sigreturn-IsValid task s frame v =
      if_ind (λ (r : Bool × State Context × Context). IsValid r.1)
        (leb 8 task || not (s.in_handler task)) (λ _. v)
        (λ _. record { pends = v.pends; kills = v.kills; safe = v.safe })

-- The programs after `fork`, after a new one has been loaded, and after one has ended.
abbrev pub forked : ℕ → ℕ → Programs → Programs
forked current child p = record {
  running = update p.running child (p.running current);
  reaches = update p.reaches child (p.reaches current);
}

abbrev pub loaded : ℕ → (ℕ → Bool) → Programs → Programs
loaded task reach p = record {
  running = update p.running task true;
  reaches = update p.reaches task reach;
}

abbrev pub left : ℕ → (ℕ → Bool) → Programs → Programs
left task reach p = record {
  running = update p.running task false;
  reaches = update p.reaches task reach;
}

-- Pages are added to a program.
abbrev pub mapped : ℕ → (ℕ → Bool) → Programs → Programs
mapped task reach p = record p { reaches = update p.reaches task reach }

module _ {Context : Type 0} (p : Programs) (s : State Context) (v : IsValid p s) where
  pub clone_into-IsValid :
      (current child : ℕ)
      → current < 8
      → child < 8
      → IsValid (forked current child p) (clone_into current child s)
  unfolding clone_into
  clone_into-IsValid current child lc lt = record {
    pends = λ t n h. ground (arith, v.pends t n, h);
    kills = λ t. ground (arith, v.kills t, v.kills current);
    safe = λ t n r a b. elim (ℕ_discrete t child) [
      | no ne ↦ ground (arith, v.safe t n, r, a, b, ne)
      | yes e ↦ ground (arith, v.safe current n, r, a, b, e, lc, lt)
    ];
  }

  pub reset-IsValid :
      (task : ℕ) (reach : ℕ → Bool) → task < 8 → IsValid (loaded task reach p) (reset task s)
  unfolding reset
  reset-IsValid task reach lt = record {
    pends = λ t n h. ground (arith, v.pends t n, h);
    kills = λ t. ground (arith, v.kills t);
    safe = λ t n r a b. elim (ℕ_discrete t task) [
      | no ne ↦ ground (arith, v.safe t n, r, a, b, ne)
      | yes e ↦ ground (arith, a, e, lt)
    ];
  }

  pub left-IsValid : (task : ℕ) (reach : ℕ → Bool) → IsValid (left task reach p) s
  left-IsValid task reach = record {
    pends = v.pends;
    kills = v.kills;
    safe = λ t n r a b. elim (ℕ_discrete t task) [
      | no ne ↦ ground (arith, v.safe t n, r, a, b, ne)
      | yes e ↦ ground (arith, r, e)
    ];
  }

  pub mapped-IsValid :
      (task : ℕ) (reach : ℕ → Bool)
      → ((a : ℕ) → p.reaches task a ≡ true → reach a ≡ true)
      → IsValid (mapped task reach p) s
  mapped-IsValid task reach grows = record {
    pends = v.pends;
    kills = v.kills;
    safe = λ t n r a b. elim (ℕ_discrete t task) [
      | no ne ↦ ground (arith, v.safe t n, r, a, b, ne)
      | yes e ↦
          let old = v.safe t n r a b in
          ground
            (arith, e, old, grows (s.dispositions t n).handler, grows (s.dispositions t n).restorer)
    ];
  }
