-- ===== src/Input.antt =====
-- kernel/src/level0a/input.rs: the queue of the keyboard and mouse events, and the packets of the
-- PS/2 mouse. The byte that the port gives and the size of the screen are arguments. The position
-- of the mouse is never negative, since it is clamped, so a sum that would be negative is 0 here.
pub mod Queue
pub mod Mouse
mod Tests
use the_cursed_moon_kernel.Prelude.{
  ℕ, ◌+◌, ◌-◌, ◌/◌, ◌%◌, Bool, true, false, not, ◌&&◌, ◌||◌, ltb, ◌==◌, if◌then◌else◌, Option, none,
  some, update, min,
}

pub data Event : Type 0 where
  key : ℕ → Event
  mouse : ℕ → ℕ → Bool → Event

abbrev pub queue_size : ℕ
queue_size = 64

pub record State : Type 0 where
  pub queue : ℕ → Option Event
  pub head : ℕ
  pub tail : ℕ
  pub mouse_x : ℕ
  pub mouse_y : ℕ
  pub mouse_left : Bool
  pub packet : ℕ → ℕ
  pub phase : ℕ

abbrev pub initial : State
initial = record {
  queue = λ _. none;
  head = 0;
  tail = 0;
  mouse_x = 400;
  mouse_y = 300;
  mouse_left = false;
  packet = λ _. 0;
  phase = 0;
}

-- A full queue keeps the older events.
unfoldable pub push : Event → State → State
push event s =
    let next = (s.head + 1) % queue_size in
    if next == s.tail
    then s
    else record s { queue = update s.queue s.head (some event); head = next }

unfoldable pub poll : State → Option Event × State
poll s = if s.tail == s.head then (none, s) else (
  s.queue s.tail,
  record s { queue = update s.queue s.tail none; tail = (s.tail + 1) % queue_size },
)

abbrev pub on_key : ℕ → State → State
on_key ascii = push (key ascii)

-- A bit of a byte.
abbrev pub has_bit : ℕ → ℕ → Bool
has_bit byte weight = byte / weight % 2 == 1

-- The new coordinate, for the byte of the move and its sign, along the axis and against it.
abbrev pub move_along : ℕ → Bool → ℕ → ℕ → ℕ
move_along at negative raw last = min (if negative then at + raw - 256 else at + raw) last

abbrev pub move_against : ℕ → Bool → ℕ → ℕ → ℕ
move_against at negative raw last = min (if negative then at + (256 - raw) else at - raw) last

-- The packet is complete.
unfoldable pub on_packet : ℕ → ℕ → ℕ → ℕ → ℕ → State → State
on_packet width height flags dx_raw dy_raw s =
    if has_bit flags 0x40 || has_bit flags 0x80
    then s
    else let x = move_along s.mouse_x (has_bit flags 0x10) dx_raw (width - 1) in
      let y = move_against s.mouse_y (has_bit flags 0x20) dy_raw (height - 1) in
      let left = has_bit flags 0x01 in
      push (mouse x y left) (record s { mouse_x = x; mouse_y = y; mouse_left = left })

unfoldable pub on_mouse_irq : ℕ → ℕ → ℕ → State → State
on_mouse_irq width height byte s =
    if s.phase == 0 && not (has_bit byte 0x08)
    then s
    else let s' = record s { packet = update s.packet s.phase byte } in
      if ltb s.phase 2
      then record s' { phase = s.phase + 1 }
      else on_packet width height (s'.packet 0) (s'.packet 1) (s'.packet 2)
          (record s' { phase = 0 })
