-- ===== src/Input/Mouse.antt =====
-- The packets of the PS/2 mouse in level0a/input.rs.
use the_cursed_moon_kernel.Prelude.{
  ℕ, ◌+◌, ◌-◌, ◌%◌, ◌<◌, true, false, not, ◌&&◌, ◌||◌, ◌==◌, ltb, update, ◌≡◌, refl, ap, sym, ◌∙◌,
  arith, if_ind, subst, min, ◌/◌, ◌≢◌, if◌then◌else◌,
}
use the_cursed_moon_kernel.Input.{
  Event, State, mouse, has_bit, move_along, move_against, push, on_packet, on_mouse_irq,
}
use the_cursed_moon_kernel.Input.Queue.{IsValid, waiting, enqueue, waiting-push}

true-false : true ≡ false → ⊥
true-false h = cc

-- The state that has taken all three bytes, in the phase for the next packet.
abbrev pub with_packet : ℕ → ℕ → ℕ → State → State
with_packet flags dx dy s = record s {
  packet = update (update (update s.packet 0 flags) 1 dx) 2 dy;
  phase = 0;
}

first_byte :
    (width height flags : ℕ) (s : State)
    → s.phase ≡ 0
    → has_bit flags 0x08 ≡ true
    → on_mouse_irq width height flags s ≡ record s { packet = update s.packet 0 flags; phase = 1 }
unfolding on_mouse_irq
first_byte width height flags s start sync =
    let P = λ (t : State). t ≡ record s { packet = update s.packet 0 flags; phase = 1 } in
    if_ind P (s.phase == 0 && not (has_bit flags 0x08)) (λ h. absurd (ground (arith, h, sync)))
      λ _.
        if_ind P (ltb s.phase 2)
          (λ _. ap (λ (p : ℕ). record s { packet = update s.packet p flags; phase = p + 1 }) start)
          (λ h. absurd (ground (arith, h, start)))

-- Three bytes from the first phase on are one packet.
pub on_mouse_irq-on_packet :
    (width height flags dx dy : ℕ) (s : State)
    → s.phase ≡ 0
    → has_bit flags 0x08 ≡ true
    → on_mouse_irq width height dy
        (on_mouse_irq width height dx (on_mouse_irq width height flags s))
      ≡ on_packet width height flags dx dy (with_packet flags dx dy s)
unfolding on_mouse_irq
on_mouse_irq-on_packet width height flags dx dy s start sync =
    ap (λ (t : State). on_mouse_irq width height dy (on_mouse_irq width height dx t))
      (first_byte width height flags s start sync)

push-mouse :
    (e : Event) (s : State)
    → ((push e s).mouse_x ≡ s.mouse_x)
      × ((push e s).mouse_y ≡ s.mouse_y)
      × ((push e s).mouse_left ≡ s.mouse_left)
unfolding push
push-mouse e s =
    if_ind
      (λ (t : State).
        (t.mouse_x ≡ s.mouse_x) × (t.mouse_y ≡ s.mouse_y) × (t.mouse_left ≡ s.mouse_left))
      ((s.head + 1) % 64 == s.tail) (λ _. (refl, refl, refl)) (λ _. (refl, refl, refl))

-- A distance in nine bits, of two's complement: the sign and the low byte. What it adds and what it
-- takes away.
abbrev pub gain : ℕ → ℕ → ℕ
gain sign low = if sign == 0 then low else 0

abbrev pub loss : ℕ → ℕ → ℕ
loss sign low = if sign == 0 then 0 else 256 - low

-- The mouse has moved by the distances, of which the second points up while the screen counts down,
-- is on the screen, and one event says so, if there was room for it. The flags are the button in
-- bit 0, the signs in bits 4 and 5, and two marks of an overflow in bits 6 and 7.
abbrev pub Moved : ℕ → ℕ → ℕ → ℕ → ℕ → State → State → Type 0
Moved width height flags dx dy s t =
    let x = flags / 16 % 2 in
    let y = flags / 32 % 2 in
    (t.mouse_x ≡ min (s.mouse_x + gain x dx - loss x dx) (width - 1))
    × (t.mouse_y ≡ min (s.mouse_y + loss y dy - gain y dy) (height - 1))
    × (t.mouse_left ≡ (flags % 2 == 1))
    × (t.mouse_x < width)
    × (t.mouse_y < height)
    × (waiting t ≡ enqueue (mouse t.mouse_x t.mouse_y t.mouse_left) (waiting s))

move_along_lem :
    (at flags low last : ℕ)
    → low < 256
    → move_along at (has_bit flags 0x10) low last
      ≡ min (at + gain (flags / 16 % 2) low - loss (flags / 16 % 2) low) last
move_along_lem at flags low last lt = ground (arith, lt)

move_against_lem :
    (at flags low last : ℕ)
    → low < 256
    → move_against at (has_bit flags 0x20) low last
      ≡ min (at + loss (flags / 32 % 2) low - gain (flags / 32 % 2) low) last
move_against_lem at flags low last lt = ground (arith, lt)

overflow_lem : (flags : ℕ) → (has_bit flags 0x40 || has_bit flags 0x80) ≡ not (flags / 64 % 4 == 0)
overflow_lem flags = ground arith

moved :
    (width height flags dx dy : ℕ) (s : State)
    → IsValid s
    → 0 < width
    → 0 < height
    → dx < 256
    → dy < 256
    → let x = move_along s.mouse_x (has_bit flags 0x10) dx (width - 1) in
      let y = move_against s.mouse_y (has_bit flags 0x20) dy (height - 1) in
      let left = has_bit flags 0x01 in
      Moved width height flags dx dy s
        (push (mouse x y left) (record s { mouse_x = x; mouse_y = y; mouse_left = left }))
moved width height flags dx dy s v w h bx by =
    let x = move_along s.mouse_x (has_bit flags 0x10) dx (width - 1) in
    let y = move_against s.mouse_y (has_bit flags 0x20) dy (height - 1) in
    let left = has_bit flags 0x01 in
    let s' = record s { mouse_x = x; mouse_y = y; mouse_left = left } in
    let (px, py, pl) = push-mouse (mouse x y left) s' in
    let queued =
      waiting-push (mouse x y left) s' (record { head_in = v.head_in; tail_in = v.tail_in }) in
    (
      px ∙ move_along_lem s.mouse_x flags dx (width - 1) bx,
      py ∙ move_against_lem s.mouse_y flags dy (height - 1) by,
      pl ∙ ground arith,
      rw px (omega arith),
      rw py (omega arith),
      queued
          ∙ ap (λ e. enqueue e (waiting s))
              (ap (λ a. mouse a y left) (sym px)
                ∙ ap (λ b. mouse (push (mouse x y left) s').mouse_x b left) (sym py)
                ∙ ap
                    (λ c.
                      mouse (push (mouse x y left) s').mouse_x (push (mouse x y left) s').mouse_y c)
                    (sym pl)),
    )

-- Three interrupts with the bytes of a packet, of which the first has bit 3, with no packet begun,
-- indices of the queue below 64 and a screen that is not empty, change nothing but the packet where
-- bit 6 or 7 of the flags is set. Otherwise they add the first distance to the column and take the
-- second from the row, each a nine-bit number with its sign in bit 4 or 5 of the flags, stop at the
-- edges of the screen, set the button from bit 0, and append one event to the queue, unless it is
-- full.
pub on_mouse_irq_lem :
    (width height flags dx dy : ℕ) (s : State)
    → IsValid s
    → 0 < width
    → 0 < height
    → dx < 256
    → dy < 256
    → s.phase ≡ 0
    → flags / 8 % 2 ≡ 1
    → let t =
        on_mouse_irq width height dy
          (on_mouse_irq width height dx (on_mouse_irq width height flags s)) in
      (flags / 64 % 4 ≢ 0 → t ≡ with_packet flags dx dy s)
      × (flags / 64 % 4 ≡ 0 → Moved width height flags dx dy s t)
unfolding on_packet
on_mouse_irq_lem width height flags dx dy s v w h bx by start sync =
    let over = has_bit flags 0x40 || has_bit flags 0x80 in
    let P = λ (t : State).
      (flags / 64 % 4 ≢ 0 → t ≡ with_packet flags dx dy s)
      × (flags / 64 % 4 ≡ 0 → Moved width height flags dx dy s t) in
    let marked = overflow_lem flags in
    subst P (sym (on_mouse_irq-on_packet width height flags dx dy s start (ground (arith, sync)))) (
      if_ind P over
        (λ hit. (λ _. refl, λ none_set. absurd (ground (arith, sym marked ∙ hit, none_set))))
        (λ miss. (
          λ some_set. absurd (some_set (ground (arith, sym marked ∙ miss))),
          λ _.
              moved width height flags dx dy (with_packet flags dx dy s)
                (record { head_in = v.head_in; tail_in = v.tail_in }) w h bx by,
        )))
