-- ===== src/Signal/Steps.antt =====
-- The operations of level0b1/signal.rs in any order, and what holds after them.
use the_cursed_moon_kernel.Prelude.{ℕ, Bool, true, false, Option, ◌≡◌, ◌<◌}
use the_cursed_moon_kernel.Scheduler.Tasks
use the_cursed_moon_kernel.Signal.{
  State, default, raise, set_handler, clone_into, reset, deliver_pending, sigreturn,
}
use the_cursed_moon_kernel.Signal.Valid.{Programs, forked, loaded, left, mapped}

-- The tables as they stand when the kernel starts; `zero` is the empty context.
abbrev pub initial : {Context : Type 0} → Context → State Context
initial zero = record {
  dispositions = λ _ _. default;
  pending = λ _ _. false;
  saved = λ _. zero;
  in_handler = λ _. false;
  delivered = 0;
  sent = 0;
}

-- Before the first program there is none to reach anything.
abbrev pub no_programs : Programs
no_programs = record { running = λ _. false; reaches = λ _ _. false }

module _ {Context : Type 0} (build : Context → ℕ → ℕ → ℕ → Option Context) where
  -- An operation, with the change of the programs that its caller makes: `fork` gives the child the
  -- memory of its parent, and `enter_ring3` runs `reset` for a new program with memory of its own.
  -- In between, pages are added to a program (`maps`), and programs end (`leaves`).
  pub data Step : Programs → State Context → Programs → State Context → Type 0 where
    raises :
        (p : Programs) (s : State Context) (tasks : Tasks.State) (target signo : ℕ)
        → Step p s p (raise tasks target signo s).2
    handles :
        (p : Programs) (s : State Context) (task signo handler restorer : ℕ)
        → Step p s p (set_handler (p.reaches task) task signo handler restorer s).1
    clones :
        (p : Programs) (s : State Context) (current child : ℕ)
        → current < 8
        → child < 8
        → Step p s (forked current child p) (clone_into current child s)
    resets :
        (p : Programs) (s : State Context) (task : ℕ) (reach : ℕ → Bool)
        → task < 8
        → Step p s (loaded task reach p) (reset task s)
    maps :
        (p : Programs) (s : State Context) (task : ℕ) (reach : ℕ → Bool)
        → ((a : ℕ) → p.reaches task a ≡ true → reach a ≡ true)
        → Step p s (mapped task reach p) s
    leaves :
        (p : Programs) (s : State Context) (task : ℕ) (reach : ℕ → Bool)
        → Step p s (left task reach p) s
    delivers :
        (p : Programs) (s : State Context) (up : Bool) (task : ℕ) (frame : Context)
        → Step p s p (deliver_pending build up task s frame).1
    resumes :
        (p : Programs) (s : State Context) (task : ℕ) (frame : Context)
        → Step p s p (sigreturn task s frame).1

  pub data Reach (p : Programs) (s : State Context) : Programs → State Context → Type 0 where
    here : Reach p s p s
    next : {q r : Programs} {t u : State Context} → Reach p s q t → Step q t r u → Reach p s r u
