-- ===== src/Ipc/Tests.antt =====
-- Runs of level0b2/ipc.rs on a ring whose indices are about to go round.
use the_cursed_moon_kernel.Prelude.{◌≡◌, refl, List, [], ◌∷◌, arith}
use the_cursed_moon_kernel.Ipc.{State, Message, initial, fault}
use the_cursed_moon_kernel.Ipc.Queue.{IsValid, waiting, Op, put, take, run, run_queue, run_refines}
use the_cursed_moon_kernel.Ipc.History.{Logs}

abbrev alarm : Message
alarm = record { kind = fault; task = 3; a = 14; b = 0; tick = 100; text = "page" }

-- Two messages wait, at the places 31 and 0.
abbrev wrapped : State
wrapped = record initial { ring = λ _. alarm; head = 1; tail = 31 }

wrapped-IsValid : IsValid wrapped
wrapped-IsValid = record { head_in = omega arith; tail_in = omega arith }

abbrev calls : List Op
calls = put alarm ∷ take ∷ take ∷ take ∷ take ∷ []

wrapped-Logs : Logs wrapped []
wrapped-Logs = record { next_in = omega arith; len = refl; entries = λ k lt. absurd (omega arith) }

run_refines_example : run wrapped calls ≡ run_queue (waiting wrapped) calls
run_refines_example = run_refines calls wrapped-IsValid
