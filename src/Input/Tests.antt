-- ===== src/Input/Tests.antt =====
-- The mouse of level0a/input.rs at a concrete packet.
use the_cursed_moon_kernel.Prelude.{true, ◌/◌, ◌%◌, ◌≢◌, ◌≡◌, refl, some, arith}
use the_cursed_moon_kernel.Input.{initial, mouse, push, poll, on_packet, on_mouse_irq}
use the_cursed_moon_kernel.Input.Queue.{IsValid}
use the_cursed_moon_kernel.Input.Mouse.{Moved, with_packet, on_mouse_irq_lem}

initial-IsValid : IsValid initial
initial-IsValid = record { head_in = omega arith; tail_in = omega arith }

-- Five to the right, ten up, with the left button.
packet_run :
    (poll (on_mouse_irq 800 600 10 (on_mouse_irq 800 600 5 (on_mouse_irq 800 600 9 initial)))).0
    ≡ some (mouse 405 290 true)
unfolding on_mouse_irq on_packet push poll
packet_run = refl

on_mouse_irq_lem_example :
    let t = on_mouse_irq 800 600 10 (on_mouse_irq 800 600 5 (on_mouse_irq 800 600 9 initial)) in
    (9 / 64 % 4 ≢ 0 → t ≡ with_packet 9 5 10 initial)
    × (9 / 64 % 4 ≡ 0 → Moved 800 600 9 5 10 initial t)
on_mouse_irq_lem_example =
    on_mouse_irq_lem 800 600 9 5 10 initial initial-IsValid (omega arith) (omega arith)
      (omega arith) (omega arith) refl refl
