-- ===== src/Signal.antt =====
-- kernel/src/level0b1/signal.rs: the signals of the processes. A mask of pending signals is a
-- function from the number of a bit to a Boolean; the context of Ring 3, `build_signal_frame` of the
-- architecture and the test `is_user_accessible` of the memory manager are parameters.
-- `exit_current_task` does not return: it ends the operation with the exit code.
pub mod Valid
pub mod Deliver
pub mod Return
pub mod Steps
mod Tests
use the_cursed_moon_kernel.Prelude.{
  ℕ, zero, suc, ◌+◌, ◌%◌, ◌^◌, Bool, true, false, not, ◌&&◌, ◌||◌, ltb, leb, ◌==◌, if◌then◌else◌,
  Option, none, some, update, find_from,
}
use the_cursed_moon_kernel.Scheduler.Tasks
use the_cursed_moon_kernel.Scheduler.Tasks.{is_unused, is_terminated}
use the_cursed_moon_kernel.Scheduler.Spawn.{Terminate, terminate}
use the_cursed_moon_kernel.Scheduler.Wait.{state_of}

abbrev pub sig_dfl : ℕ
sig_dfl = 0

abbrev pub sig_ign : ℕ
sig_ign = 1

abbrev pub sigkill : ℕ
sigkill = 9

abbrev pub max_signal : ℕ
max_signal = 31

abbrev pub max_tasks : ℕ
max_tasks = 8

pub record Disposition : Type 0 where
  pub handler : ℕ
  pub restorer : ℕ

abbrev pub default : Disposition
default = record { handler = sig_dfl; restorer = 0 }

pub record State (Context : Type 0) : Type 0 where
  pub dispositions : ℕ → ℕ → Disposition
  pub pending : ℕ → ℕ → Bool
  pub saved : ℕ → Context
  pub in_handler : ℕ → Bool
  pub delivered : ℕ
  pub sent : ℕ

pub data SignalError : Type 0 where
  invalid_signal no_such_task uncatchable : SignalError

unfoldable pub valid : ℕ → Bool
valid signo = leb 1 signo && leb signo max_signal

-- How `raise` ends.
pub data Raise : Type 0 where
  raised : Raise
  refused : SignalError → Raise
  exits : ℕ → Raise

-- How `set_handler` ends: the old handler, or an error.
pub data SetHandler : Type 0 where
  old : ℕ → SetHandler
  refuses : SignalError → SetHandler

-- How `deliver_pending` ends; `spent` says that the fuel ran out.
pub data Delivery : Type 0 where
  returns spent : Delivery
  exits_with : ℕ → Delivery

abbrev pub killed : Terminate × Tasks.State → Raise × Tasks.State
killed (Terminate.ok space, t) = (raised, t)
killed (Terminate.err e, t) = (refused no_such_task, t)

module _ {Context : Type 0} where
  abbrev pub set_pending : State Context → ℕ → ℕ → Bool → State Context
  set_pending s task signo v = record s {
    pending = update s.pending task (update (s.pending task) signo v);
  }

  unfoldable pub raise : Tasks.State → ℕ → ℕ → State Context → Raise × Tasks.State × State Context
  raise tasks target signo s =
      if not (valid signo)
      then (refused invalid_signal, tasks, s)
      else if leb max_tasks target
      then (refused no_such_task, tasks, s)
      else if is_unused (state_of tasks target) || is_terminated (state_of tasks target)
      then (refused no_such_task, tasks, s)
      else let s' = record s { sent = (s.sent + 1) % 2 ^ 32 } in
        if signo == sigkill
        then (if target == tasks.current
            then (exits (128 + sigkill), tasks, s')
            else ((killed (terminate tasks target)).0, (killed (terminate tasks target)).1, s'))
        else (raised, tasks, set_pending s' target signo true)

  unfoldable pub set_handler :
      (ℕ → Bool) → ℕ → ℕ → ℕ → ℕ → State Context → SetHandler × State Context
  set_handler accessible task signo handler restorer s =
      if not (valid signo)
      then (refuses invalid_signal, s)
      else if signo == sigkill
      then (refuses uncatchable, s)
      else if leb max_tasks task
      then (refuses no_such_task, s)
      else if not (handler == sig_dfl)
          && not (handler == sig_ign)
          && (not (accessible handler) || not (accessible restorer))
      then (refuses invalid_signal, s)
      else (
        old (s.dispositions task signo).handler,
        record s {
          dispositions = update s.dispositions task (
              update (s.dispositions task) signo
                (record { handler = handler; restorer = restorer }));
        },
      )

  -- `current` is `scheduler::current_id()`.
  unfoldable pub clone_into : ℕ → ℕ → State Context → State Context
  clone_into current child s =
      if leb max_tasks child || leb max_tasks current then s else record s {
        dispositions = update s.dispositions child (s.dispositions current);
        in_handler = update s.in_handler child false;
        pending = update s.pending child (λ _. false);
      }

  unfoldable pub reset : ℕ → State Context → State Context
  reset task s = if leb max_tasks task then s else record s {
    dispositions = update s.dispositions task (λ _. default);
    in_handler = update s.in_handler task false;
    pending = update s.pending task (λ _. false);
  }

  unfoldable pub pending_mask : State Context → ℕ → ℕ → Bool
  pending_mask s task n = if leb max_tasks task then false else s.pending task n

  unfoldable pub handled_mask : State Context → ℕ → ℕ → Bool
  handled_mask s task n =
      if leb max_tasks task || not (valid n)
      then false
      else not ((s.dispositions task n).handler == sig_dfl)
        && not ((s.dispositions task n).handler == sig_ign)

  -- The number of a delivered signal is counted.
  abbrev pub count_delivered : State Context → State Context
  count_delivered s = record s { delivered = (s.delivered + 1) % 2 ^ 32 }

  module _ (build : Context → ℕ → ℕ → ℕ → Option Context) where
    -- The arm of `deliver_pending` that enters the handler.
    unfoldable pub enter :
        ℕ → ℕ → Disposition → State Context → Context → Delivery × State Context × Context
    enter task signo d s frame =
        let s' = record s { saved = update s.saved task frame } in
        elim (build frame signo d.handler d.restorer) [
          | none ↦ (exits_with (128 + signo), s', frame)
          | some context ↦ (
            returns,
            count_delivered (record s' { in_handler = update s'.in_handler task true }),
            context,
          )
        ]

    -- The loop; `trailing_zeros` of the mask is the first bit that is set.
    unfoldable pub deliver_from :
        ℕ → ℕ → State Context → Context → Delivery × State Context × Context
    deliver_from zero task s frame = (spent, s, frame)
    deliver_from (suc fuel) task s frame = elim (find_from (s.pending task) 32 0) [
      | none ↦ (returns, s, frame)
      | some signo ↦
          let s' = set_pending s task signo false in
          let d = s.dispositions task signo in
          elim (d.handler == sig_ign) [
            | true ↦ deliver_from fuel task s' frame
            | false ↦
                if d.handler == sig_dfl
                then (exits_with (128 + signo), count_delivered s', frame)
                else enter task signo d s' frame
          ]
    ]

    unfoldable pub deliver_pending :
        Bool → ℕ → State Context → Context → Delivery × State Context × Context
    deliver_pending in_user_mode task s frame =
        if not in_user_mode || leb max_tasks task || s.in_handler task
        then (returns, s, frame)
        else deliver_from 33 task s frame

  -- The answer, and the context that the frame then has.
  unfoldable pub sigreturn : ℕ → State Context → Context → Bool × State Context × Context
  sigreturn task s frame =
      if leb max_tasks task || not (s.in_handler task)
      then (false, s, frame)
      else (true, record s { in_handler = update s.in_handler task false }, s.saved task)
